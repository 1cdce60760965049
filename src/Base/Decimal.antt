-- ===== src/Base/Decimal.antt =====
-- Unsigned integers in a radix: `str::parse::<u64>`, `usize::from_str_radix`, and `to_string`.
pub mod Roundtrip
use ferro_s.Base.Tests.{◌==◌, ltb, leb, if◌then◌else◌, ◌>>=◌, u64_mod}
use ferro_s.Base.Strings.{Text}
use Prim.Native.Nat.{ℕ, zero, suc, ◌+◌, ◌-◌, ◌*◌, ◌/◌, ◌%◌, ◌≤◌}
use mathlib.Core.Bool.{◌&&◌}
use mathlib.Core.Option.{Option, none, some}
use mathlib.Core.List.{[], ◌∷◌, ◌++◌}

-- `char::to_digit`.
unfoldable pub digit : ℕ → ℕ → Option ℕ
digit radix c =
    let value =
      if leb 48 c && leb c 57
      then c - 48
      else if leb 65 c && leb c 90
      then c - 55
      else if leb 97 c && leb c 122
      then c - 87
      else 36 in
    if ltb value radix then some value else none

-- The digits after `acc`; a value past 64 bits is an error.
unfoldable pub parse_digits : ℕ → ℕ → Text → Option ℕ
parse_digits radix acc [] = some acc
parse_digits radix acc (c ∷ s) = do
  d ← digit radix c
  if ltb (acc * radix + d) u64_mod then parse_digits radix (acc * radix + d) s else none

-- An optional `+`, then at least one digit.
unfoldable pub parse_uint : ℕ → Text → Option ℕ
parse_uint radix [] = none
parse_uint radix (c ∷ []) = if c == b'+' then none else parse_digits radix 0 (c ∷ [])
parse_uint radix (c ∷ d ∷ s) =
    if c == b'+' then parse_digits radix 0 (d ∷ s) else parse_digits radix 0 (c ∷ d ∷ s)

show : ℕ → ℕ → Text
show zero n = []
show (suc fuel) n =
    let high = show fuel (n / 10) in
    if ltb n 10 then (48 + n) ∷ [] else high ++ ((48 + n % 10) ∷ [])

-- `u64::to_string`.
unfoldable pub dec : ℕ → Text
unfolding show
dec n = show (suc n) n

unfoldable pub hex_digit : ℕ → ℕ
hex_digit d = if ltb d 10 then 48 + d else 87 + d

show_hex : ℕ → ℕ → Text
unfolding hex_digit
show_hex zero n = []
show_hex (suc fuel) n =
    let high = show_hex fuel (n / 16) in
    if ltb n 16 then hex_digit n ∷ [] else high ++ (hex_digit (n % 16) ∷ [])

-- The format `{:x}`.
unfoldable pub hex : ℕ → Text
unfolding show_hex
hex n = show_hex (suc n) n

abbrev pub IsDigit : ℕ → Type 0
IsDigit c = (48 ≤ c) × (c ≤ 57)
