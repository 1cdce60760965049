-- ===== src/Http.antt =====
-- The framing of src/blocking_http.rs. A reader is the list of the bytes that are still to come, and
-- a read error other than the end of the input does not occur. A line is ASCII.
pub mod Framing
pub mod Heads
pub mod Lines
pub mod Fields
pub mod Requests
pub mod Responses
pub mod HeadEnds
mod Tests
use ferro_s.Base.{
  ℕ, zero, suc, ◌+◌, ◌%◌, ◌^◌, ◌*◌, List, [], ◌∷◌, ◌++◌, Option, none, some, not, Text, is_empty,
  if◌then◌else◌, ◌==◌, ltb, split, trim, u64_mod, length, take, drop, ◌>>=◌,
}
use ferro_s.Base.Decimal.{parse_uint}

abbrev pub max_body_bytes : ℕ
max_body_bytes = 256 * 1024 * 1024

pub data BodyPlan : Type 0 where
  empty : BodyPlan
  fixed : ℕ → BodyPlan
  chunked : BodyPlan

-- The body with what is left to read, an I/O error, or a panic: `vec![0u8; size]` past the capacity
-- that a vector can have.
pub data ReadBody : Type 0 where
  ok : List ℕ → List ℕ → ReadBody
  failed : ReadBody
  panic : ReadBody

-- `read_line`: the line with its newline, and the rest.
unfoldable pub read_line : List ℕ → List ℕ × List ℕ
read_line [] = ([], [])
read_line (c ∷ s) =
    let (line, rest) = read_line s in if c == b'\n' then (c ∷ [], s) else (c ∷ line, rest)

-- `read_exact`.
abbrev pub read_exact : ℕ → List ℕ → Option (List ℕ × List ℕ)
read_exact n s = if ltb (length s) n then none else some (take n s, drop n s)

abbrev first_part : List Text → Text
first_part [] = []
first_part (p ∷ ps) = p

-- The hexadecimal chunk size in a line, before any extension.
unfoldable pub chunk_size : Text → Option ℕ
chunk_size line = parse_uint 16 (trim (first_part (split b';' (trim line))))

-- The trailer section, up to its blank line or the end; a line takes at least a byte, so the
-- fuel is the number of bytes, and one more.
unfoldable pub skip_trailer : ℕ → List ℕ → List ℕ
skip_trailer zero s = s
skip_trailer (suc fuel) s =
    let (line, rest) = read_line s in
    let more = skip_trailer fuel rest in
    if is_empty line then rest else if is_empty (trim line) then rest else more

-- One chunk of `size` bytes after `body`, and its CRLF.
unfoldable pub read_chunk : List ℕ → ℕ → List ℕ → Option (List ℕ × List ℕ)
read_chunk body size s = do
  (chunk, after) ← read_exact size s
  (crlf, rest) ← read_exact 2 after
  some (body ++ chunk, rest)

-- The loop of `read_chunked`. Each round reads a line that is not empty, or fails, so the fuel
-- is the number of bytes, and one more. The sum wraps in 64 bits.
unfoldable pub read_chunks : ℕ → ℕ → List ℕ → List ℕ → Option ReadBody
read_chunks zero limit body s = none
read_chunks (suc fuel) limit body s =
    let (line, after) = read_line s in
    elim (chunk_size line) [
      | none ↦ some failed
      | some size ↦
          if size == 0
          then some (ok body (skip_trailer (suc (length after)) after))
          else if ltb limit ((length body + size) % u64_mod)
          then some failed
          else if not (ltb size (2 ^ 63))
          then some panic
          else elim (read_chunk body size after) [
            | none ↦ some failed
            | some (body', rest) ↦ read_chunks fuel limit body' rest
          ]
    ]

unfoldable pub read_body : ℕ → List ℕ → BodyPlan → ℕ → Option ReadBody
read_body fuel s empty limit = some (ok [] s)
read_body fuel s (fixed n) limit =
    if ltb limit n
    then some failed
    else elim (read_exact n s) [ none ↦ some failed | some (buf, rest) ↦ some (ok buf rest) ]
read_body fuel s chunked limit = read_chunks fuel limit [] s
