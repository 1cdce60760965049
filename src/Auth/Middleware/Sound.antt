-- ===== src/Auth/Middleware/Sound.antt =====
-- What `auth_middleware` of src/auth/mod.rs hands on, and the lifetime of presigned URLs.
use ferro_s.Base.Bytes.{as_bytes}
use ferro_s.Auth.Compare.{constant_time_eq}
use ferro_s.Base.{
  text_eq_sound, none, refl, ℕ, ◌+◌, ◌*◌, ◌≤◌, ◌<◌, ◌≡◌, List, [], ◌∷◌, Option, some, true, Text,
  codes, text_eq, split, trim, starts_with, Bool-cases, Option-cases, inl, inr, arith,
}
use ferro_s.Base.Bytes.{btree_get}
use ferro_s.Headers.{header_text}
use ferro_s.State.{AuthConfig}
use ferro_s.Auth.Crypto.{Crypto}
use ferro_s.Auth.SigV4.{verify_signature}
use ferro_s.Auth.Query.{parse_basic_auth}
use ferro_s.Auth.Middleware.{
  AuthRequest, run_next, Credential, credential_of, second_of, header_params, check_header,
  verify_header_parts, verify_header_auth, in_time, expires_of, lifetime_check, presigned,
  query_params, verify_query_auth, basic_matches, request_query, without_header, auth_middleware,
}

-- How a request can prove itself.
pub data Authenticated (c : Crypto) (cfg : AuthConfig) (now : ℕ) (req : AuthRequest) : Type 0 where
  -- by the signature that its Authorization header has, made with the configured key over the
  -- headers that this header names, in the scope of its credential, at the date of the request
  by_header :
      (header credential_part signed_headers_part signature_part : Text) (more : List Text)
      (cred : Credential) (date : Text)
      → header_text req.headers (codes "authorization") ≡ some header
      → starts_with header (codes "AWS4-HMAC-SHA256") ≡ true
      → split b',' header ≡ credential_part ∷ signed_headers_part ∷ signature_part ∷ more
      → credential_of (split b'/' (second_of b'=' credential_part)) ≡ some cred
      → cfg.access_key ≡ cred.access_key
      → header_text req.headers (codes "x-amz-date") ≡ some date
      → verify_signature c
          (header_params c
            (some cfg)
            req
            (request_query c (some cfg) now req)
            cfg
            cred
            (second_of b'=' signed_headers_part)
            date)
          (second_of b'=' (trim signature_part))
        ≡ true
      → Authenticated c cfg now req
  -- by the configured user and password
  by_password :
      (header access_key secret_key : Text)
      → header_text req.headers (codes "authorization") ≡ some header
      → parse_basic_auth c header ≡ some (access_key, secret_key)
      → cfg.access_key ≡ access_key
      → constant_time_eq (as_bytes cfg.secret_key) (as_bytes secret_key) ≡ true
      → Authenticated c cfg now req
  -- by a presigned URL in its lifetime, signed with the configured key
  by_query :
      (cred : Credential) (date signature signed_headers : Text)
      → presigned c (some cfg) req (request_query c (some cfg) now req) now
        ≡ some (cred, date, signature, signed_headers)
      → cfg.access_key ≡ cred.access_key
      → verify_signature c
          (query_params c
            (some cfg)
            req
            (request_query c (some cfg) now req)
            cfg
            cred
            signed_headers
            date)
          signature
        ≡ true
      → Authenticated c cfg now req

basic_matches_sound :
    (cfg : AuthConfig) (given : Option (Text × Text))
    → basic_matches (some cfg) given ≡ true
    → (access_key : Text) × (secret_key : Text) × (given ≡ some (access_key, secret_key))
      × (cfg.access_key ≡ access_key)
      × (constant_time_eq (as_bytes cfg.secret_key) (as_bytes secret_key) ≡ true)
unfolding basic_matches
basic_matches_sound cfg none h = ground arith
basic_matches_sound cfg (some (access_key, secret_key)) h =
    elim (Bool-cases (text_eq cfg.access_key access_key)) [
      | inl y ↦ (
        access_key,
        secret_key,
        refl,
        text_eq_sound cfg.access_key access_key y,
        ground (arith, h),
      )
      | inr n ↦ absurd (ground (arith, h, n))
    ]

module _ (c : Crypto) (cfg : AuthConfig) (now : ℕ) (req : AuthRequest) where
  abbrev query : List (Text × Text)
  query = request_query c (some cfg) now req

  check_header_sound :
      (header p0 p1 p2 : Text) (more : List Text) (cred : Credential)
      → header_text req.headers (codes "authorization") ≡ some header
      → starts_with header (codes "AWS4-HMAC-SHA256") ≡ true
      → split b',' header ≡ p0 ∷ p1 ∷ p2 ∷ more
      → credential_of (split b'/' (second_of b'=' p0)) ≡ some cred
      → check_header c (some cfg) req query cred (second_of b'=' p1) (second_of b'=' (trim p2))
        ≡ run_next
      → Authenticated c cfg now req
  unfolding check_header
  check_header_sound header p0 p1 p2 more cred given signed parts named h =
      elim (Bool-cases (text_eq cfg.access_key cred.access_key)) [
        | inr ne ↦ ground arith
        | inl same ↦ elim (Option-cases (header_text req.headers (codes "x-amz-date"))) [
          | inl e ↦ ground arith
          | inr (date, e) ↦
              by_header header p0 p1 p2 more cred date given signed parts named
                (text_eq_sound cfg.access_key cred.access_key same) e (ground arith)
        ]
      ]

  verify_header_parts_sound :
      (header : Text) (parts : List Text)
      → header_text req.headers (codes "authorization") ≡ some header
      → starts_with header (codes "AWS4-HMAC-SHA256") ≡ true
      → split b',' header ≡ parts
      → verify_header_parts c (some cfg) req query parts ≡ run_next
      → Authenticated c cfg now req
  unfolding verify_header_parts
  verify_header_parts_sound header [] given signed e h = ground (arith, h)
  verify_header_parts_sound header (p0 ∷ []) given signed e h = ground (arith, h)
  verify_header_parts_sound header (p0 ∷ p1 ∷ []) given signed e h = ground (arith, h)
  verify_header_parts_sound header (p0 ∷ p1 ∷ p2 ∷ more) given signed e h =
      elim (Option-cases (credential_of (split b'/' (second_of b'=' p0)))) [
        | inl f ↦ ground (arith, h, f)
        | inr (cred, f) ↦
            check_header_sound header p0 p1 p2 more cred given signed e f
              (rw (verify_header_parts, f) at h)
      ]

  verify_query_auth_sound :
      verify_query_auth c (some cfg) req query now ≡ run_next → Authenticated c cfg now req
  unfolding verify_query_auth
  verify_query_auth_sound h = elim (Option-cases (presigned c (some cfg) req query now)) [
    | inl e ↦ ground arith
    | inr ((cred, date, signature, signed_headers), e) ↦
        elim (Bool-cases (text_eq cfg.access_key cred.access_key)) [
          | inr ne ↦ ground arith
          | inl same ↦
              by_query cred date signature signed_headers e
                (text_eq_sound cfg.access_key cred.access_key same) (ground arith)
        ]
  ]

  without_header_sound :
      without_header c (some cfg) now req ≡ run_next → Authenticated c cfg now req
  unfolding without_header
  without_header_sound h = verify_query_auth_sound (ground arith)

  -- With credentials configured, a request reaches its handler only where the signature in its
  -- Authorization header verifies, for the credential and the signed headers that the same header
  -- has; with the configured user and password; or as a presigned URL that is in time and whose
  -- signature verifies.
  pub auth_middleware-Authenticated :
      auth_middleware c (some cfg) now req ≡ run_next → Authenticated c cfg now req
  unfolding auth_middleware verify_header_auth
  auth_middleware-Authenticated h =
      elim (Option-cases (header_text req.headers (codes "authorization"))) [
        | inl e ↦ without_header_sound (ground arith)
        | inr (header, e) ↦ elim (Bool-cases (starts_with header (codes "AWS4-HMAC-SHA256"))) [
          | inl signed ↦
              verify_header_parts_sound header (split b',' header) e signed refl (ground arith)
          | inr other ↦ elim (Bool-cases (basic_matches (some cfg) (parse_basic_auth c header))) [
            | inl matches ↦
                let (access_key, secret_key, given, same, equal) =
                  basic_matches_sound cfg (parse_basic_auth c header) matches in
                by_password header access_key secret_key e given same equal
            | inr fails ↦ without_header_sound (ground arith)
          ]
        ]
      ]

module _ (c : Crypto) (auth : Option AuthConfig) (req : AuthRequest) (query : List (Text × Text))
    (now : ℕ) where
  presigned-alive :
      {cred : Credential} {date signature signed_headers : Text}
      → presigned c auth req query now ≡ some (cred, date, signature, signed_headers)
      → lifetime_check c auth req query now (btree_get query (codes "X-Amz-Expires")) date ≡ some tt
  unfolding presigned
  presigned-alive h = ground arith

  in_time-bounds :
      (signed_at expires : ℕ)
      → in_time c auth req query now signed_at expires ≡ true
      → (now < (signed_at + expires + 1) * 1000000000)
        × (signed_at * 1000000000 < now + 301 * 1000000000)
  unfolding in_time
  in_time-bounds signed_at expires h = ground arith

  expires_of-bounds :
      (value : Option Text) {e : ℕ}
      → expires_of c auth req query value ≡ some e
      → (0 < e) × (e ≤ 604800)
  unfolding expires_of
  expires_of-bounds value h = ground arith

  lifetime_bounds :
      (value : Option Text) (date : Text)
      → lifetime_check c auth req query now value date ≡ some tt
      → (signed_at : ℕ) × (expires : ℕ) × (c.parse_date date ≡ some signed_at)
        × (0 < expires)
        × (expires ≤ 604800)
        × (now < (signed_at + expires + 1) * 1000000000)
        × (signed_at * 1000000000 < now + 301 * 1000000000)
  unfolding lifetime_check
  lifetime_bounds value date h = elim (Option-cases (expires_of c auth req query value)) [
    | inl e ↦ ground arith
    | inr (expires, e) ↦ elim (Option-cases (c.parse_date date)) [
      | inl f ↦ ground arith
      | inr (signed_at, f) ↦
          let bounds = in_time-bounds signed_at expires (ground arith) in
          let range = expires_of-bounds value e in
          (signed_at, expires, f, range.0, range.1, bounds.0, bounds.1)
    ]
  ]

  -- A presigned URL is accepted for at most seven days: its lifetime is positive and bounded, it is
  -- used no later than that after its date, to the second, and no more than five minutes before it.
  pub presigned_lifetime :
      {cred : Credential} {date signature signed_headers : Text}
      → presigned c auth req query now ≡ some (cred, date, signature, signed_headers)
      → (signed_at : ℕ) × (expires : ℕ) × (c.parse_date date ≡ some signed_at)
        × (0 < expires)
        × (expires ≤ 604800)
        × (now < (signed_at + expires + 1) * 1000000000)
        × (signed_at * 1000000000 < now + 301 * 1000000000)
  presigned_lifetime {date = date} h =
      lifetime_bounds (btree_get query (codes "X-Amz-Expires")) date (presigned-alive h)
