-- ===== src/Auth/Presign/Verifies.antt =====
-- The signatures of src/handlers/admin.rs under the check of src/auth/sigv4.rs.
use ferro_s.Base.{
  ℕ, ◌<◌, ◌≡◌, refl, sym, ap, ◌∙◌, List, [], ◌∷◌, ◌++◌, some, true, Text, codes, trim, All, arith,
  text_eq_refl, append_assoc, join, ltb,
}
use ferro_s.Base.Run.{texts}
use ferro_s.Base.Bytes.{as_bytes, utf8_char, byte_prefix, btree_insert}
use ferro_s.State.{AuthConfig}
use ferro_s.Auth.Crypto.{Crypto}
use ferro_s.Auth.Compare.{IsByte, constant_time_eq, constant_time_eq-text_eq}
use ferro_s.Auth.SigV4.{
  SigV4Params, newline, query_parts, canonical_headers, signed_headers_list, canonical_text,
  create_canonical_request, create_string_to_sign, create_signing_key, calculated_signature,
  verify_signature,
}
use ferro_s.Auth.Presign.{
  PresignParams, date_stamp, amz_date, scope, presign_query, canonical_uri, host,
  canonical_query_string, presign_canonical_request, presign_string_to_sign, presign_signature,
}

abbrev pub IsAscii : ℕ → Type 0
IsAscii c = c < 128

as_bytes-IsByte : (s : Text) → All IsAscii s → All IsByte (as_bytes s)
unfolding as_bytes utf8_char
as_bytes-IsByte [] h = tt
as_bytes-IsByte (c ∷ s) (p, h) =
    let small : ltb c 0x80 ≡ true = ground arith in rw small (omega arith, as_bytes-IsByte s h)

constant_time_eq-ascii :
    (s : Text) → All IsAscii s → constant_time_eq (as_bytes s) (as_bytes s) ≡ true
constant_time_eq-ascii s h =
    constant_time_eq-text_eq (as_bytes s) (as_bytes s) (as_bytes-IsByte s h) (as_bytes-IsByte s h)
    ∙ text_eq_refl (as_bytes s)

verify_signature-day :
    (c : Crypto) (q : SigV4Params) (signature : Text) {day : Text}
    → byte_prefix 8 q.date ≡ some day
    → verify_signature c q signature
      ≡ constant_time_eq (as_bytes (calculated_signature c q day)) (as_bytes signature)
unfolding verify_signature
verify_signature-day c q signature e = rw (verify_signature, e)

module _ (c : Crypto) (cfg : AuthConfig) (endpoint : Text) (port : ℕ) (now : ℕ)
    (p : PresignParams) where
  -- The parameters that the middleware takes from a request for the presigned URL.
  abbrev pub url_request : SigV4Params
  url_request = record {
    method = c.to_uppercase p.method;
    path = canonical_uri c cfg endpoint port now p;
    query =
        btree_insert (codes "X-Amz-Signature") (presign_signature c cfg endpoint port now p)
          (presign_query c cfg endpoint port now p);
    headers = (codes "host", host c cfg endpoint port now p) ∷ [];
    payload_hash = codes "UNSIGNED-PAYLOAD";
    secret_key = cfg.secret_key;
    region = codes "us-east-1";
    service = codes "s3";
    date = amz_date c cfg endpoint port now p;
  }

  query_parts-url :
      join (codes "&") (query_parts c url_request.query)
      ≡ canonical_query_string c cfg endpoint port now p
  unfolding btree_insert presign_query query_parts canonical_query_string texts
  query_parts-url = refl

  module _ (lower : c.to_lowercase (codes "host") ≡ codes "host")
      (trimmed : trim (host c cfg endpoint port now p) ≡ host c cfg endpoint port now p) where
    canonical_text-url :
        canonical_text c url_request ≡ presign_canonical_request c cfg endpoint port now p
    unfolding canonical_text canonical_headers signed_headers_list presign_canonical_request join
    canonical_text-url = rw (query_parts-url, lower, trimmed) refl

    string_to_sign-url :
        create_string_to_sign c url_request
          (date_stamp c cfg endpoint port now p)
          (create_canonical_request c url_request)
        ≡ presign_string_to_sign c cfg endpoint port now p
    unfolding create_string_to_sign create_canonical_request presign_string_to_sign scope
    string_to_sign-url =
        ap
          (λ t.
            create_string_to_sign c url_request (date_stamp c cfg endpoint port now p)
              (c.hex_encode (c.sha256 (as_bytes t))))
          canonical_text-url
        ∙ ap
            (λ t.
              codes "AWS4-HMAC-SHA256\n" ++ (amz_date c cfg endpoint port now p ++ (newline ++ t)))
            (sym (
              append_assoc (date_stamp c cfg endpoint port now p)
                (codes "/us-east-1/s3/aws4_request") _))

    calculated_signature-url :
        calculated_signature c url_request (date_stamp c cfg endpoint port now p)
        ≡ presign_signature c cfg endpoint port now p
    unfolding calculated_signature create_signing_key presign_signature
    calculated_signature-url =
        ap
          (λ t. c.hex_encode (
            c.hmac_sha256
              (create_signing_key c cfg.secret_key (date_stamp c cfg endpoint port now p)
                (codes "us-east-1") (codes "s3"))
              (as_bytes t)))
          string_to_sign-url

    -- The signature of a presigned URL verifies: for a request with the URL's method, path, query
    -- and host, the middleware's check accepts it, where the date of signing begins with its day,
    -- the host has no blanks at its ends, lower case keeps `host`, and hexadecimal digits are
    -- ASCII.
    pub verify_signature-presign_signature :
        ((b : List ℕ) → All IsAscii (c.hex_encode b))
        → byte_prefix 8 (amz_date c cfg endpoint port now p)
          ≡ some (date_stamp c cfg endpoint port now p)
        → verify_signature c url_request (presign_signature c cfg endpoint port now p) ≡ true
    verify_signature-presign_signature ascii day =
        verify_signature-day c url_request (presign_signature c cfg endpoint port now p) day
        ∙ ap
            (λ t.
              constant_time_eq (as_bytes t)
                (as_bytes (presign_signature c cfg endpoint port now p)))
            calculated_signature-url
        ∙ constant_time_eq-ascii (presign_signature c cfg endpoint port now p)
            (unfold presign_signature in ascii _)
