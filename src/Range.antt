-- ===== src/Range.antt =====
-- The `Range` header of GetObject: `parse_range` of src/handlers/object.rs.
pub mod Bounds
pub mod Header
mod Tests
use ferro_s.Base.{
  ℕ, ◌-◌, List, [], ◌∷◌, Option, none, some, ◌&&◌, Text, codes, split, trim, starts_with, drop,
  is_empty, leb, ◌==◌, min, if◌then◌else◌,
}
use ferro_s.Base.Decimal.{parse_uint}

pub data RangeRequest : Type 0 where
  satisfiable : (start end : ℕ) → RangeRequest
  unsatisfiable invalid : RangeRequest

-- `bytes=-n`: the last `n` bytes.
pub suffix_range : Option ℕ → ℕ → RangeRequest
suffix_range none file_size = invalid
suffix_range (some suffix_len) file_size =
    if suffix_len == 0
    then invalid
    else if file_size == 0
    then unsatisfiable
    else satisfiable (file_size - suffix_len) (file_size - 1)

abbrev checked : ℕ → ℕ → RangeRequest
checked start end = if leb start end then satisfiable start end else invalid

-- `bytes=a-` and `bytes=a-b`, once the end is read.
pub bounded_range : ℕ → Text → ℕ → RangeRequest
bounded_range start end_str file_size =
    if leb file_size start
    then unsatisfiable
    else if is_empty end_str
    then checked start (file_size - 1)
    else elim (parse_uint 10 end_str) [
      | none ↦ invalid
      | some parsed_end ↦ checked start (min parsed_end (file_size - 1))
    ]

pub ends_range : Text → Text → ℕ → RangeRequest
ends_range start_str end_str file_size =
    if is_empty start_str && is_empty end_str
    then invalid
    else if is_empty start_str
    then suffix_range (parse_uint 10 end_str) file_size
    else elim (parse_uint 10 start_str) [
      | none ↦ invalid
      | some start ↦ bounded_range start end_str file_size
    ]

-- `parts.len() != 2` is the pattern.
pub parts_range : List Text → ℕ → RangeRequest
parts_range (start ∷ end ∷ []) file_size = ends_range (trim start) (trim end) file_size
parts_range _ file_size = invalid

unfoldable pub parse_range : Text → ℕ → RangeRequest
unfolding parts_range ends_range bounded_range suffix_range
parse_range range_header file_size =
    if starts_with range_header (codes "bytes=")
    then parts_range (split b'-' (drop 6 range_header)) file_size
    else invalid
