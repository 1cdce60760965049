-- ===== src/Range/Bounds.antt =====
-- The ranges that `parse_range` of src/handlers/object.rs serves.
use ferro_s.Base.{
  ℕ, ◌≤◌, ◌<◌, List, [], ◌∷◌, Option, none, some, Text, codes, split, trim, starts_with, drop,
  arith, Bool-cases, inl, inr, Option-cases,
}
use ferro_s.Base.Decimal.{parse_uint}
use ferro_s.Range.{
  RangeRequest, satisfiable, suffix_range, bounded_range, ends_range, parts_range, parse_range,
}

abbrev pub Fits : ℕ → RangeRequest → Type 0
Fits size (satisfiable start end) = (start ≤ end) × (end < size)
Fits size _ = Unit

suffix_range-Fits : (n : Option ℕ) (size : ℕ) → Fits size (suffix_range n size)
unfolding suffix_range
suffix_range-Fits none size = tt
suffix_range-Fits (some n) size = ground arith

bounded_range-Fits : (start : ℕ) (e : Text) (size : ℕ) → Fits size (bounded_range start e size)
unfolding bounded_range
bounded_range-Fits start e size = ground arith

ends_range-Fits : (s e : Text) (size : ℕ) → Fits size (ends_range s e size)
unfolding ends_range
ends_range-Fits s e size = elim (Option-cases (parse_uint 10 s)) [
  | inl bad ↦ ground (arith, suffix_range-Fits (parse_uint 10 e) size)
  | inr (start, p) ↦
      ground (arith, suffix_range-Fits (parse_uint 10 e) size, bounded_range-Fits start e size)
]

parts_range-Fits : (parts : List Text) (size : ℕ) → Fits size (parts_range parts size)
unfolding parts_range
parts_range-Fits [] size = tt
parts_range-Fits (s ∷ []) size = tt
parts_range-Fits (s ∷ e ∷ []) size = ends_range-Fits (trim s) (trim e) size
parts_range-Fits (s ∷ e ∷ x ∷ r) size = tt

-- Whatever the header, a range that is served is not empty and ends inside the file, so
-- `end - start + 1` bytes can be read from `start` on.
pub parse_range-Fits : (header : Text) (size : ℕ) → Fits size (parse_range header size)
unfolding parse_range
parse_range-Fits header size = elim (Bool-cases (starts_with header (codes "bytes="))) [
  | inl y ↦ rw y (parts_range-Fits (split b'-' (drop 6 header)) size)
  | inr n ↦ rw n tt
]
