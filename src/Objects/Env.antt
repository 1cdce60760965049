-- ===== src/Objects/Env.antt =====
-- What an object request finds: the request itself, the clocks, and the crates that format and
-- decode text.
use ferro_s.Base.{ℕ, Option, Text}
use ferro_s.Headers.{HeaderMap}

pub record Env : Type 0 where
  -- urlencoding::decode
  pub decode : Text → Option Text
  -- `http_date` and `to_rfc3339`, chrono's formatting of a time in nanoseconds
  pub http_date : ℕ → Text
  pub rfc3339 : ℕ → Text
  pub now : ℕ
  pub instant : ℕ
  pub pid : ℕ
  pub request_id : Text

-- The path and query of an object request: `/:bucket/*key`.
pub record ObjectRequest : Type 0 where
  pub bucket : Text
  pub key : Text
  pub query : Option Text
  pub headers : HeaderMap
