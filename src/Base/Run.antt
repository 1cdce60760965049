-- ===== src/Base/Run.antt =====
-- One name that opens every function on texts and numbers, for tests that compute.
use ferro_s.Base.Strings.{
  is_whitespace, trim_start, trim_end, trim, split, split_once, find, rfind, contains, join,
  text_eq, text_lt, starts_with, strip_prefix,
}
use ferro_s.Base.Decimal.{digit, parse_digits, parse_uint, dec, hex}

unfoldable pub texts : Unit {0}
unfolding is_whitespace trim_start trim_end trim split split_once find rfind contains join text_eq
    text_lt starts_with strip_prefix digit parse_digits parse_uint dec hex
texts = tt
