-- ===== src/Base/Strings.antt =====
-- The operations of Rust's `str` that the program calls. A text is the list of its code points;
-- their order and that of the UTF-8 bytes agree.
mod Order
pub mod Laws
pub mod Prefixes
unfoldable pub use Order.*
use Prim.Native.Nat.{ℕ, ◌+◌}
use Prim.Native.Char.{code}
use Prim.Native.String.{String}
use mathlib.Core.Bool.{Bool, false, ◌&&◌, ◌||◌}
use mathlib.Core.Option.{Option, none, some}
use mathlib.Core.List.{List, [], ◌∷◌, ◌++◌}
use ferro_s.Base.Tests.{◌==◌, leb, if◌then◌else◌, ◌>>=◌}

abbrev pub Text : Type 0
Text = List ℕ

-- The code points of a literal.
abbrev pub codes : String → Text
codes String.[] = []
codes (String.◌∷◌ c s) = code c ∷ codes s

-- `char::is_whitespace`: the code points of the property White_Space.
unfoldable pub is_whitespace : ℕ → Bool
is_whitespace c =
    (leb 9 c && leb c 13)
    || c == 32
    || c == 0x85
    || c == 0xa0
    || c == 0x1680
    || (leb 0x2000 c && leb c 0x200a)
    || c == 0x2028
    || c == 0x2029
    || c == 0x202f
    || c == 0x205f
    || c == 0x3000

unfoldable pub trim_start : Text → Text
trim_start [] = []
trim_start (c ∷ s) = let rest = trim_start s in if is_whitespace c then rest else c ∷ s

unfoldable pub trim_end : Text → Text
trim_end [] = []
trim_end (c ∷ s) = elim (trim_end s) [
  | [] ↦ if is_whitespace c then [] else c ∷ []
  | d ∷ t ↦ c ∷ d ∷ t
]

-- `str::trim`.
unfoldable pub trim : Text → Text
trim s = trim_end (trim_start s)

abbrev pub cons_head : ℕ → List Text → List Text
cons_head c [] = (c ∷ []) ∷ []
cons_head c (t ∷ ts) = (c ∷ t) ∷ ts

-- `str::split` at a character.
unfoldable pub split : ℕ → Text → List Text
split sep [] = [] ∷ []
split sep (c ∷ s) = let rest = split sep s in if c == sep then [] ∷ rest else cons_head c rest

-- `str::split_once` at a character.
unfoldable pub split_once : ℕ → Text → Option (Text × Text)
split_once sep [] = none
split_once sep (c ∷ s) =
    let rest = split_once sep s in
    if c == sep then some ([], s) else (rest >>= λ (a, b). some (c ∷ a, b))

-- `str::find`: the text before the first occurrence of `d`. Its length is the index found.
unfoldable pub find : Text → Text → Option Text
find [] d = if starts_with [] d then some [] else none
find (c ∷ s) d =
    let rest = find s d in
    if starts_with (c ∷ s) d then some [] else (rest >>= λ before. some (c ∷ before))

-- `str::rfind` at a character: the text before its last occurrence.
unfoldable pub rfind : Text → ℕ → Option Text
rfind [] sep = none
rfind (c ∷ s) sep = elim (rfind s sep) [
  | some before ↦ some (c ∷ before)
  | none ↦ if c == sep then some [] else none
]

unfoldable pub contains : Text → ℕ → Bool
contains [] sep = false
contains (c ∷ s) sep = c == sep || contains s sep

-- `join` with a separator.
unfoldable pub join : Text → List Text → Text
join sep [] = []
join sep (t ∷ []) = t
join sep (t ∷ u ∷ ts) = t ++ (sep ++ join sep (u ∷ ts))
