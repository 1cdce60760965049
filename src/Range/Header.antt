-- ===== src/Range/Header.antt =====
-- The three forms of a `Range` header that RFC 7233 defines, written with decimal numbers.
use ferro_s.Base.{
  ℕ, ◌-◌, ◌<◌, ◌≡◌, refl, [], ◌∷◌, ◌++◌, Text, codes, split, trim, arith, min, leb, ◌==◌, u64_mod,
  All, if◌then◌else◌, starts_with, trim_start, trim_end,
}
use ferro_s.Base.Strings.Laws.{Differs, split-none, split-append}
use ferro_s.Base.Decimal.{dec, IsDigit}
use ferro_s.Base.Decimal.Roundtrip.{dec-IsDigit, trim-dec, dec-not_empty, parse_uint-dec}
use ferro_s.Range.{
  RangeRequest, satisfiable, unsatisfiable, invalid, suffix_range, bounded_range, ends_range,
  parts_range, parse_range,
}

digits-Differs : (s : Text) → All IsDigit s → All (Differs b'-') s
digits-Differs [] h = tt
digits-Differs (c ∷ s) (p, h) = (ground arith, digits-Differs s h)

split-dec : (n : ℕ) → split b'-' (dec n) ≡ dec n ∷ []
split-dec n = split-none b'-' (dec n) (digits-Differs (dec n) (dec-IsDigit n))

split-dec-dash : (n : ℕ) (t : Text) → split b'-' (dec n ++ (b'-' ∷ t)) ≡ dec n ∷ split b'-' t
split-dec-dash n t = split-append b'-' (dec n) t (digits-Differs (dec n) (dec-IsDigit n))

abbrev pub range_header : Text → Text
range_header spec = codes "bytes=" ++ spec

parse_range-header :
    (spec : Text) (size : ℕ)
    → parse_range (range_header spec) size ≡ parts_range (split b'-' spec) size
unfolding parse_range starts_with
parse_range-header spec size = refl

trim-nil : trim [] ≡ []
unfolding trim trim_start trim_end
trim-nil = refl

-- A first position that is written out leads to `bounded_range`.
parts_range-dec :
    (a size : ℕ) (t : Text)
    → a < u64_mod
    → parts_range (dec a ∷ t ∷ []) size ≡ bounded_range a (trim t) size
unfolding parts_range ends_range
parts_range-dec a size t h = rw (trim-dec a, dec-not_empty a, parse_uint-dec a h)

bounded_range-dec :
    (a b size : ℕ)
    → b < u64_mod
    → bounded_range a (dec b) size ≡ (
        if leb size a
        then unsatisfiable
        else if leb a (min b (size - 1))
        then satisfiable a (min b (size - 1))
        else invalid)
unfolding bounded_range
bounded_range-dec a b size k = rw (dec-not_empty b, parse_uint-dec b k)

-- For numbers below 2^64, `bytes=a-b` asks for the bytes from a to b, cut at the end of the file;
-- it is unsatisfiable where a lies at or past the end, and ignored where b is before a.
parse_range-closed :
    (a b size : ℕ)
    → a < u64_mod
    → b < u64_mod
    → parse_range (range_header (dec a ++ (b'-' ∷ dec b))) size ≡ (
        if leb size a
        then unsatisfiable
        else if leb a (min b (size - 1))
        then satisfiable a (min b (size - 1))
        else invalid)
parse_range-closed a b size h k = rw parse_range-header (
    rw (split-dec-dash, split-dec)
      (rw (parts_range-dec a size (dec b) h, trim-dec b) (bounded_range-dec a b size k)))

-- For a number below 2^64, `bytes=a-` asks for the bytes from a to the end of the file; it is
-- unsatisfiable where a lies at or past the end.
parse_range-open :
    (a size : ℕ)
    → a < u64_mod
    → parse_range (range_header (dec a ++ (b'-' ∷ []))) size
      ≡ (if leb size a then unsatisfiable else satisfiable a (size - 1))
parse_range-open a size h = rw parse_range-header (
    rw split-dec-dash (
      unfold split in
      rw (parts_range-dec a size [] h, trim-nil) (unfold bounded_range in ground arith)))

-- For a number below 2^64, `bytes=-n` asks for the last n bytes, or for the whole file where it has
-- fewer; it is ignored where n is 0, and unsatisfiable on an empty file.
parse_range-suffix :
    (n size : ℕ)
    → n < u64_mod
    → parse_range (range_header (b'-' ∷ dec n)) size ≡ (
        if n == 0
        then invalid
        else if size == 0
        then unsatisfiable
        else satisfiable (size - n) (size - 1))
unfolding split parts_range ends_range suffix_range
parse_range-suffix n size h =
    rw parse_range-header
      (rw split-dec (rw (trim-nil, trim-dec n) (rw (dec-not_empty n, parse_uint-dec n h))))

-- A byte range as RFC 7233 writes one, with decimal numbers.
pub data ByteRange : Type 0 where
  from_to : (first last : ℕ) → ByteRange
  from : (first : ℕ) → ByteRange
  last : (count : ℕ) → ByteRange

abbrev pub range_text : ByteRange → Text
range_text (from_to a b) = dec a ++ (b'-' ∷ dec b)
range_text (from a) = dec a ++ (b'-' ∷ [])
range_text (last n) = b'-' ∷ dec n

abbrev pub IsShort : ByteRange → Type 0
IsShort (from_to a b) = (a < u64_mod) × (b < u64_mod)
IsShort (from a) = a < u64_mod
IsShort (last n) = n < u64_mod

-- What it asks for of a file of some size.
abbrev pub asked_of : ℕ → ByteRange → RangeRequest
asked_of size (from_to a b) =
    if leb size a
    then unsatisfiable
    else if leb a (min b (size - 1))
    then satisfiable a (min b (size - 1))
    else invalid
asked_of size (from a) = if leb size a then unsatisfiable else satisfiable a (size - 1)
asked_of size (last n) =
    if n == 0
    then invalid
    else if size == 0
    then unsatisfiable
    else satisfiable (size - n) (size - 1)

-- A byte range with numbers below 2^64, written out, is parsed to what it asks for. `a-b` asks for
-- the bytes from a to b, cut at the end of the file; it is unsatisfiable where a lies at or past
-- the end, and ignored where b is before a. `a-` asks for the bytes from a to the end. `-n` asks
-- for the last n bytes, or for the whole file where it has fewer; it is ignored where n is 0, and
-- unsatisfiable on an empty file.
pub parse_range-range_text :
    (r : ByteRange) (size : ℕ)
    → IsShort r
    → parse_range (range_header (range_text r)) size ≡ asked_of size r
parse_range-range_text (from_to a b) size (h, k) = parse_range-closed a b size h k
parse_range-range_text (from a) size h = parse_range-open a size h
parse_range-range_text (last n) size h = parse_range-suffix n size h
