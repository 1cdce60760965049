-- ===== src/Auth/Middleware.antt =====
-- `auth_middleware`, `verify_header_auth` and `verify_query_auth` of src/auth/mod.rs.
pub mod Sound
use ferro_s.Base.{
  ℕ, ◌-◌, ◌*◌, ◌/◌, List, [], ◌∷◌, Option, none, some, ◌>>=◌, Bool, false, not, ◌&&◌, Text, codes,
  text_eq, split, trim, starts_with, ltb, leb, unwrap_or, is_some, if◌then◌else◌,
}
use ferro_s.Base.Decimal.{parse_uint}
use ferro_s.Base.Bytes.{as_bytes, btree_insert, btree_get}
use ferro_s.Headers.{HeaderMap, header_text}
use ferro_s.State.{AuthConfig}
use ferro_s.Auth.Crypto.{Crypto}
use ferro_s.Auth.Compare.{constant_time_eq}
use ferro_s.Auth.SigV4.{SigV4Params, verify_signature}
use ferro_s.Auth.Query.{parse_query, parse_basic_auth}

pub record AuthRequest : Type 0 where
  pub method : Text
  pub path : Text
  pub query : Option Text
  pub headers : HeaderMap

-- The request is handed on, or answered by AccessDenied.
pub data Verdict : Type 0 where
  run_next denied : Verdict

-- `split(sep).nth(1).unwrap_or("")`.
abbrev second : List Text → Text
second [] = []
second (a ∷ []) = []
second (a ∷ b ∷ r) = b

unfoldable pub second_of : ℕ → Text → Text
second_of sep t = second (split sep t)

-- `cred_subparts`, where there are five at least.
pub record Credential : Type 0 where
  pub access_key : Text
  pub region : Text
  pub service : Text

unfoldable pub credential_of : List Text → Option Credential
credential_of (access_key ∷ day ∷ region ∷ service ∷ terminal ∷ more) =
    some (record { access_key = access_key; region = region; service = service })
credential_of _ = none

unfoldable pub signed_headers_of :
    Crypto → HeaderMap → List Text → List (Text × Text) → List (Text × Text)
signed_headers_of c headers [] m = m
signed_headers_of c headers (h ∷ hs) m =
    signed_headers_of c headers hs
      (elim (header_text headers (c.to_lowercase h)) [ none ↦ m | some val ↦ btree_insert h val m ])

abbrev verdict : Bool → Verdict
verdict b = if b then run_next else denied

module _ (c : Crypto) (auth : Option AuthConfig) (req : AuthRequest)
    (query : List (Text × Text)) where
  abbrev pub params_of : AuthConfig → Credential → Text → List (Text × Text) → Text → SigV4Params
  params_of cfg cred date headers payload_hash = record {
    method = req.method;
    path = req.path;
    query = query;
    headers = headers;
    payload_hash = payload_hash;
    secret_key = cfg.secret_key;
    region = cred.region;
    service = cred.service;
    date = date;
  }

  unfoldable pub header_params : AuthConfig → Credential → Text → Text → SigV4Params
  header_params cfg cred signed_headers_part date =
      params_of cfg cred date
        (signed_headers_of c req.headers (split b';' (trim signed_headers_part)) [])
        (unwrap_or (header_text req.headers (codes "x-amz-content-sha256"))
          (codes "UNSIGNED-PAYLOAD"))

  -- The checks of `verify_header_auth`, from the parts of the header on.
  unfoldable pub check_header : Credential → Text → Text → Verdict
  check_header cred signed_headers_part signature = elim auth [
    | none ↦ run_next
    | some cfg ↦
        if not (text_eq cfg.access_key cred.access_key)
        then denied
        else elim (header_text req.headers (codes "x-amz-date")) [
          | none ↦ denied
          | some date ↦
              verdict
                (verify_signature c (header_params cfg cred signed_headers_part date) signature)
        ]
  ]

  unfoldable pub verify_header_parts : List Text → Verdict
  verify_header_parts (p0 ∷ p1 ∷ p2 ∷ more) =
      elim (credential_of (split b'/' (second_of b'=' p0))) [
        | none ↦ denied
        | some cred ↦ check_header cred (second_of b'=' p1) (second_of b'=' (trim p2))
      ]
  verify_header_parts _ = denied

  unfoldable pub verify_header_auth : Text → Verdict
  verify_header_auth header = verify_header_parts (split b',' header)

  -- `num_seconds` of the age rounds toward zero; `now` is in nanoseconds.
  unfoldable pub in_time : ℕ → ℕ → ℕ → Bool
  in_time now signed_at expires =
      let signed = signed_at * 1000000000 in
      not (ltb expires ((now - signed) / 1000000000)) && not (ltb 300 ((signed - now) / 1000000000))

  -- `Some(e) if e > 0 && e <= 604_800`; a negative number is refused here and there.
  unfoldable pub expires_of : Option Text → Option ℕ
  expires_of value = do
    text ← value
    e ← parse_uint 10 text
    if ltb 0 e && leb e 604800 then some e else none

  unfoldable pub lifetime_check : ℕ → Option Text → Text → Option (Unit {0})
  lifetime_check now expires_text date = do
    expires ← expires_of expires_text
    signed_at ← c.parse_date date
    if in_time now signed_at expires then some tt else none

  -- A presigned URL's parameters, all there, with its lifetime checked.
  unfoldable pub presigned : ℕ → Option (Credential × Text × Text × Text)
  presigned now = do
    access_key_full ← btree_get query (codes "X-Amz-Credential")
    cred ← credential_of (split b'/' access_key_full)
    date ← btree_get query (codes "X-Amz-Date")
    signature ← btree_get query (codes "X-Amz-Signature")
    signed_headers_list ← btree_get query (codes "X-Amz-SignedHeaders")
    alive ← lifetime_check now (btree_get query (codes "X-Amz-Expires")) date
    some (cred, date, signature, signed_headers_list)

  unfoldable pub query_params : AuthConfig → Credential → Text → Text → SigV4Params
  query_params cfg cred signed_headers_list date =
      params_of cfg cred date (signed_headers_of c req.headers (split b';' signed_headers_list) [])
        (codes "UNSIGNED-PAYLOAD")

  unfoldable pub verify_query_auth : ℕ → Verdict
  verify_query_auth now = elim (presigned now) [
    | none ↦ denied
    | some (cred, date, signature, signed_headers_list) ↦ elim auth [
      | none ↦ run_next
      | some cfg ↦
          if not (text_eq cfg.access_key cred.access_key)
          then denied
          else verdict
              (verify_signature c (query_params cfg cred signed_headers_list date) signature)
    ]
  ]

-- Basic credentials that are the configured ones.
unfoldable pub basic_matches : Option AuthConfig → Option (Text × Text) → Bool
basic_matches none given = false
basic_matches (some cfg) none = false
basic_matches (some cfg) (some (access_key, secret_key)) =
    text_eq cfg.access_key access_key
    && constant_time_eq (as_bytes cfg.secret_key) (as_bytes secret_key)

module _ (c : Crypto) (auth : Option AuthConfig) (now : ℕ) (req : AuthRequest) where
  abbrev pub request_query : List (Text × Text)
  request_query = parse_query c (unwrap_or req.query [])

  -- Past the `Authorization` header.
  unfoldable pub without_header : Verdict
  without_header =
      if is_some (btree_get request_query (codes "X-Amz-Signature"))
      then verify_query_auth c auth req request_query now
      else if is_some auth
      then denied
      else run_next

  unfoldable pub auth_middleware : Verdict
  auth_middleware = elim (header_text req.headers (codes "authorization")) [
    | none ↦ without_header
    | some header ↦
        if starts_with header (codes "AWS4-HMAC-SHA256")
        then verify_header_auth c auth req request_query header
        else if basic_matches auth (parse_basic_auth c header)
        then run_next
        else without_header
  ]
