-- ===== src/Auth/Crypto.antt =====
-- The crates that authentication calls, as parameters: sha2, hmac, hex, base64, urlencoding,
-- chrono's parsing and formatting of dates, and the case mapping and UTF-8 decoding of `String`.
use ferro_s.Base.{ℕ, List, Option, Text}

pub record Crypto : Type 0 where
  pub sha256 : List ℕ → List ℕ
  pub hmac_sha256 : List ℕ → List ℕ → List ℕ
  pub hex_encode : List ℕ → Text
  pub base64_decode : Text → Option (List ℕ)
  pub from_utf8 : List ℕ → Option Text
  pub encode : Text → Text
  pub decode : Text → Option Text
  pub to_lowercase : Text → Text
  pub to_uppercase : Text → Text
  -- `%Y%m%dT%H%M%SZ`, in seconds since the epoch; a date before the epoch is not told from one that
  -- does not parse, and both are refused.
  pub parse_date : Text → Option ℕ
  pub format_date : ℕ → Text
  -- `%Y%m%d`.
  pub format_day : ℕ → Text
