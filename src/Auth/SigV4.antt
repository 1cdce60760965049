-- ===== src/Auth/SigV4.antt =====
-- Signature Version 4: src/auth/sigv4.rs. The hash functions are parameters.
use ferro_s.Base.{
  ℕ, List, [], ◌∷◌, ◌++◌, none, some, Bool, false, Text, codes, text_eq, join, trim, if◌then◌else◌,
}
use ferro_s.Base.Bytes.{as_bytes, byte_prefix}
use ferro_s.Auth.Crypto.{Crypto}
use ferro_s.Auth.Compare.{constant_time_eq}

pub record SigV4Params : Type 0 where
  pub method : Text
  pub path : Text
  pub query : List (Text × Text)
  pub headers : List (Text × Text)
  pub payload_hash : Text
  pub secret_key : Text
  pub region : Text
  pub service : Text
  pub date : Text

abbrev pub newline : Text
newline = codes "\n"

module _ (c : Crypto) where
  -- The loop over the query: the signature itself is left out.
  unfoldable pub query_parts : List (Text × Text) → List Text
  query_parts [] = []
  query_parts ((k, v) ∷ query) =
      let rest = query_parts query in
      if text_eq k (codes "X-Amz-Signature")
      then rest
      else (c.encode k ++ (codes "=" ++ c.encode v)) ∷ rest

  unfoldable pub canonical_headers : List (Text × Text) → Text
  canonical_headers [] = []
  canonical_headers ((k, v) ∷ headers) =
      c.to_lowercase k ++ (codes ":" ++ (trim v ++ (newline ++ canonical_headers headers)))

  unfoldable pub signed_headers_list : List (Text × Text) → List Text
  signed_headers_list [] = []
  signed_headers_list ((k, v) ∷ headers) = c.to_lowercase k ∷ signed_headers_list headers

  unfoldable pub canonical_text : SigV4Params → Text
  canonical_text p =
      p.method
      ++ (newline
          ++ (p.path
              ++ (newline
                  ++ (join (codes "&") (query_parts p.query)
                      ++ (newline
                          ++ (canonical_headers p.headers
                              ++ (newline
                                  ++ (join (codes ";") (signed_headers_list p.headers)
                                      ++ (newline ++ p.payload_hash)))))))))

  unfoldable pub create_canonical_request : SigV4Params → Text
  create_canonical_request p = c.hex_encode (c.sha256 (as_bytes (canonical_text p)))

  -- `day` is `date[..8]`.
  unfoldable pub create_string_to_sign : SigV4Params → Text → Text → Text
  create_string_to_sign p day canonical_request_hash =
      codes "AWS4-HMAC-SHA256\n"
      ++ (p.date
          ++ (newline
              ++ (day
                  ++ (codes "/"
                      ++ (p.region
                          ++ (codes "/"
                              ++ (p.service
                                  ++ (codes "/aws4_request\n" ++ canonical_request_hash))))))))

  unfoldable pub create_signing_key : Text → Text → Text → Text → List ℕ
  create_signing_key secret date region service =
      let k_secret = codes "AWS4" ++ secret in
      let k_date = c.hmac_sha256 (as_bytes k_secret) (as_bytes date) in
      let k_region = c.hmac_sha256 k_date (as_bytes region) in
      let k_service = c.hmac_sha256 k_region (as_bytes service) in
      c.hmac_sha256 k_service (as_bytes (codes "aws4_request"))

  -- The signature that a request with these parameters should carry.
  unfoldable pub calculated_signature : SigV4Params → Text → Text
  calculated_signature p day = c.hex_encode (
      c.hmac_sha256 (create_signing_key p.secret_key day p.region p.service)
        (as_bytes (create_string_to_sign p day (create_canonical_request p))))

  unfoldable pub verify_signature : SigV4Params → Text → Bool
  verify_signature p signature = elim (byte_prefix 8 p.date) [
    | none ↦ false
    | some day ↦ constant_time_eq (as_bytes (calculated_signature p day)) (as_bytes signature)
  ]
