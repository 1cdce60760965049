-- ===== src/Metadata.antt =====
-- File metadata, and what the handlers of src/handlers/ derive from it. Times are nanoseconds since
-- the Unix epoch; formatting a time is chrono's work and enters as a parameter.
use ferro_s.Base.{ℕ, Bool, ◌++◌, ◌^◌, Text, codes, ltb, if◌then◌else◌, Option, unwrap_or}
use ferro_s.Base.Decimal.{hex}

pub record Metadata : Type 0 where
  pub is_dir : Bool
  -- `None` where the platform cannot tell.
  pub modified : Option ℕ
  pub len : ℕ

-- `timestamp_nanos_opt().unwrap_or(0)`: the count fits a signed 64-bit integer, or is 0.
unfoldable pub nanos : ℕ → ℕ
nanos t = if ltb t (2 ^ 63) then t else 0

-- `metadata.modified().unwrap_or(SystemTime::now())`.
unfoldable pub mod_time : ℕ → Metadata → ℕ
mod_time now m = unwrap_or m.modified now

unfoldable pub etag : ℕ → ℕ → Text
etag time size = codes "\"" ++ (hex (nanos time) ++ (codes "-" ++ (hex size ++ codes "\"")))
