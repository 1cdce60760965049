-- ===== src/Base/Decimal/Roundtrip.antt =====
-- Printing a number and parsing it back.
use ferro_s.Base.Tests.{◌==◌, ltb, u64_mod, Bool-cases, Option-cases}
use ferro_s.Base.Lists.{is_empty, All, All-append}
use ferro_s.Base.Strings.{Text, is_whitespace, trim}
use ferro_s.Base.Strings.Laws.{IsInk, trim-ink}
use ferro_s.Base.Decimal.{digit, parse_digits, parse_uint, show, dec, IsDigit}
use Prim.Native.Nat.{ℕ, zero, suc, ◌+◌, ◌*◌, ◌/◌, ◌%◌, ◌<◌}
use mathlib.Core.Path.{◌≡◌, refl, ◌∙◌}
use mathlib.Core.Bool.{false}
use mathlib.Core.Logic.{inl, inr}
use mathlib.Core.Option.{some}
use mathlib.Core.List.{[], ◌∷◌, ◌++◌}
use native.Mathlib.Omega.{arith}

show-IsDigit : (fuel n : ℕ) → All IsDigit (show fuel n)
unfolding show
show-IsDigit zero n = tt
show-IsDigit (suc fuel) n = elim (Bool-cases (ltb n 10)) [
  | inl small ↦ rw small (ground arith, tt)
  | inr large ↦ rw large (
      All-append IsDigit (show fuel (n / 10)) ((48 + n % 10) ∷ []) (show-IsDigit fuel (n / 10))
        (omega arith, tt))
]

-- Every character of a printed number is a digit.
pub dec-IsDigit : (n : ℕ) → All IsDigit (dec n)
unfolding dec
dec-IsDigit n = show-IsDigit (suc n) n

parse_digits-append :
    (acc : ℕ) (s t : Text) {a : ℕ}
    → parse_digits 10 acc s ≡ some a
    → parse_digits 10 acc (s ++ t) ≡ parse_digits 10 a t
unfolding parse_digits
parse_digits-append acc [] t h = ground arith
parse_digits-append acc (c ∷ s) t {a} h = elim (Option-cases (digit 10 c)) [
  | inl bad ↦ ground arith
  | inr (d, e) ↦ ground (arith, parse_digits-append (acc * 10 + d) s t {a = a})
]

digit-dec : (d : ℕ) → d < 10 → digit 10 (48 + d) ≡ some d
unfolding digit
digit-dec d h = ground arith

parse-show : (fuel n : ℕ) → n < fuel → n < u64_mod → parse_digits 10 0 (show fuel n) ≡ some n
unfolding show
parse-show zero n h k = absurd (omega arith)
parse-show (suc fuel) n h k = elim (Bool-cases (ltb n 10)) [
  | inl small ↦ rw small (unfold parse_digits in rw (digit-dec n (ground arith)) (ground arith))
  | inr large ↦ rw large (
      parse_digits-append 0 (show fuel (n / 10)) ((48 + n % 10) ∷ [])
        (parse-show fuel (n / 10) (ground arith) (ground arith))
      ∙ (unfold parse_digits in rw (digit-dec (n % 10) (omega arith)) (ground arith)))
]

cons_of_concat : (s : Text) (d : ℕ) → (c : ℕ) × (t : Text) × (s ++ (d ∷ []) ≡ c ∷ t)
cons_of_concat [] d = (d, [], refl)
cons_of_concat (c ∷ s) d = (c, s ++ (d ∷ []), refl)

-- The first character of a printed number, and the rest.
dec-ne-nil : (n : ℕ) → (c : ℕ) × (s : Text) × (dec n ≡ c ∷ s)
unfolding dec show
dec-ne-nil n = elim (Bool-cases (ltb n 10)) [
  | inl small ↦ (48 + n, [], rw small)
  | inr large ↦ rw large (cons_of_concat (show n (n / 10)) (48 + n % 10))
]

not_plus : (c : ℕ) → IsDigit c → (c == b'+') ≡ false
not_plus c h = ground arith

parse_uint_of_digits :
    (s : Text) (c : ℕ) (t : Text) {n : ℕ}
    → s ≡ c ∷ t
    → All IsDigit s
    → parse_digits 10 0 s ≡ some n
    → parse_uint 10 s ≡ some n
unfolding parse_uint
parse_uint_of_digits [] c t e h p = ground arith
parse_uint_of_digits (x ∷ []) c t e h p = rw (not_plus x h.0) p
parse_uint_of_digits (x ∷ y ∷ s) c t e h p = rw (not_plus x h.0) p

-- Parsing a printed number of 64 bits gives the number.
pub parse_uint-dec : (n : ℕ) → n < u64_mod → parse_uint 10 (dec n) ≡ some n
parse_uint-dec n h =
    let (c, t, e) = dec-ne-nil n in
    parse_uint_of_digits (dec n) c t e (dec-IsDigit n)
      (unfold dec in parse-show (suc n) n (omega arith) h)

-- A printed number is not the empty text.
pub dec-not_empty : (n : ℕ) → is_empty (dec n) ≡ false
dec-not_empty n = let (c, t, e) = dec-ne-nil n in rw e

digit-IsInk : (c : ℕ) → IsDigit c → IsInk c
unfolding is_whitespace
digit-IsInk c h = ground arith

digits-IsInk : (s : Text) → All IsDigit s → All IsInk s
digits-IsInk [] h = tt
digits-IsInk (c ∷ s) (p, h) = (digit-IsInk c p, digits-IsInk s h)

-- A printed number has no white space.
pub trim-dec : (n : ℕ) → trim (dec n) ≡ dec n
trim-dec n = trim-ink (dec n) (digits-IsInk (dec n) (dec-IsDigit n))
