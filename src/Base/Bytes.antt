-- ===== src/Base/Bytes.antt =====
-- Texts as UTF-8, and ordered maps.
use Prim.Native.Nat.{ℕ, ◌+◌, ◌-◌, ◌/◌, ◌%◌}
use mathlib.Core.List.{List, [], ◌∷◌, ◌++◌}
use mathlib.Core.Option.{Option, none, some}
use ferro_s.Base.Tests.{ltb, ◌==◌, if◌then◌else◌, ◌>>=◌}
use ferro_s.Base.Strings.{Text, text_eq, text_lt}

unfoldable pub utf8_char : ℕ → List ℕ
utf8_char c =
    if ltb c 0x80
    then c ∷ []
    else if ltb c 0x800
    then (0xc0 + c / 64) ∷ (0x80 + c % 64) ∷ []
    else if ltb c 0x10000
    then (0xe0 + c / 4096) ∷ (0x80 + c / 64 % 64) ∷ (0x80 + c % 64) ∷ []
    else (0xf0 + c / 262144) ∷ (0x80 + c / 4096 % 64) ∷ (0x80 + c / 64 % 64) ∷ (0x80 + c % 64) ∷ []

-- `str::as_bytes`.
unfoldable pub as_bytes : Text → List ℕ
as_bytes [] = []
as_bytes (c ∷ s) = utf8_char c ++ as_bytes s

unfoldable pub utf8_len : ℕ → ℕ
utf8_len c = if ltb c 0x80 then 1 else if ltb c 0x800 then 2 else if ltb c 0x10000 then 3 else 4

-- `s[..n]`, where `n` is at most the length in bytes and a character boundary.
unfoldable pub byte_prefix : ℕ → Text → Option Text
byte_prefix n [] = if n == 0 then some [] else none
byte_prefix n (c ∷ s) =
    let rest = byte_prefix (n - utf8_len c) s in
    if n == 0 then some [] else if ltb n (utf8_len c) then none else (rest >>= λ p. some (c ∷ p))

-- `BTreeMap::insert`: the entries stay in the order of their keys.
unfoldable pub btree_insert : Text → Text → List (Text × Text) → List (Text × Text)
btree_insert k v [] = (k, v) ∷ []
btree_insert k v ((j, w) ∷ m) =
    let rest = btree_insert k v m in
    if text_eq j k then (k, v) ∷ m else if text_lt k j then (k, v) ∷ (j, w) ∷ m else (j, w) ∷ rest

unfoldable pub btree_get : List (Text × Text) → Text → Option Text
btree_get [] k = none
btree_get ((j, v) ∷ m) k = if text_eq j k then some v else btree_get m k
