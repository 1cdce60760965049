-- ===== src/Objects/Names.antt =====
-- Names that the object handlers build: cache keys, temporary files, copy sources.
use ferro_s.Base.{
  ℕ, ◌+◌, ◌%◌, [], ◌∷◌, ◌++◌, Option, none, some, ◌>>=◌, Text, codes, text_eq, split_once,
  unwrap_or, u64_mod, if◌then◌else◌, ◌==◌,
}
use ferro_s.Base.Decimal.{dec}
use ferro_s.FilePath.{FilePath, parent}

-- `format!("{}/{}", bucket, key)`.
abbrev pub cache_key : Text → Text → Text
cache_key bucket key = bucket ++ (codes "/" ++ key)

-- `Path::file_name`.
unfoldable pub file_name : FilePath → Option Text
file_name [] = none
file_name (c ∷ []) = if text_eq c (codes "..") then none else some c
file_name (c ∷ d ∷ cs) = file_name (d ∷ cs)

-- The name of a temporary file for a file of this name.
unfoldable pub temp_name : ℕ → ℕ → Text → Text
temp_name pid n name =
    codes "." ++ (name ++ (codes "." ++ (dec pid ++ (codes "." ++ (dec n ++ codes ".tmp")))))

unfoldable pub temp_path_for : ℕ → ℕ → FilePath → FilePath
temp_path_for pid n path =
    unwrap_or (parent path) (codes "." ∷ [])
    ++ (temp_name pid n (unwrap_or (file_name path) (codes "object")) ∷ [])

-- `AtomicU64::fetch_add(1)`, which wraps.
abbrev pub bump : ℕ → ℕ
bump n = (n + 1) % u64_mod

-- `trim_start_matches('/')`.
unfoldable pub trim_slashes : Text → Text
trim_slashes [] = []
trim_slashes (c ∷ s) = let rest = trim_slashes s in if c == b'/' then rest else c ∷ s

-- `parse_copy_source`; `decode` is urlencoding's.
unfoldable pub parse_copy_source : (Text → Option Text) → Text → Option (Text × Text)
parse_copy_source decode copy_source = do
  decoded ← decode copy_source
  split_once b'/' (trim_slashes decoded)
