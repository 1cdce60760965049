-- ===== src/Range/Tests.antt =====
-- Concrete range headers, and the properties at inputs that meet their hypotheses.
use ferro_s.Base.{◌≡◌, refl, codes, arith}
use ferro_s.Range.Bounds.{Fits, parse_range-Fits}
use ferro_s.Range.Header.{range_header, range_text, from_to, parse_range-range_text}
use ferro_s.Base.Run.{texts}
use ferro_s.Range.{satisfiable, unsatisfiable, invalid, parse_range}

normal : parse_range (codes "bytes=0-499") 1000 ≡ satisfiable 0 499
unfolding parse_range texts
normal = refl

suffix : parse_range (codes "bytes= -1500") 1000 ≡ satisfiable 0 999
unfolding parse_range texts
suffix = refl

past : parse_range (codes "bytes=1000-") 1000 ≡ unsatisfiable
unfolding parse_range texts
past = refl

backwards : parse_range (codes "bytes=500-499") 1000 ≡ invalid
unfolding parse_range texts
backwards = refl

parse_range-Fits_example : Fits 1000 (parse_range (codes "bytes= -1500") 1000)
parse_range-Fits_example = parse_range-Fits (codes "bytes= -1500") 1000

parse_range-range_text_example :
    parse_range (range_header (range_text (from_to 990 2000))) 1000 ≡ satisfiable 990 999
parse_range-range_text_example =
    parse_range-range_text (from_to 990 2000) 1000 (omega arith, omega arith)
