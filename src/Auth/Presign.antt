-- ===== src/Auth/Presign.antt =====
-- `generate_presigned_url` of src/handlers/admin.rs.
pub mod Verifies
use ferro_s.Base.{Option, none, some, ℕ, List, [], ◌∷◌, ◌++◌, Text, codes, join}
use ferro_s.Base.Bytes.{as_bytes, btree_insert}
use ferro_s.Base.Decimal.{dec}
use ferro_s.Api.Documents.{Response, plain}
use ferro_s.State.{AuthConfig}
use ferro_s.Auth.Crypto.{Crypto}
use ferro_s.Auth.SigV4.{newline}

pub record PresignParams : Type 0 where
  pub bucket : Text
  pub key : Text
  pub method : Text
  pub expires : ℕ

module _ (c : Crypto) (cfg : AuthConfig) (endpoint : Text) (port : ℕ) (now : ℕ)
    (p : PresignParams) where
  abbrev pub date_stamp : Text
  date_stamp = c.format_day now

  abbrev pub amz_date : Text
  amz_date = c.format_date now

  abbrev pub region : Text
  region = codes "us-east-1"

  abbrev pub service : Text
  service = codes "s3"

  unfoldable pub scope : Text
  scope = date_stamp ++ (codes "/" ++ (region ++ (codes "/" ++ (service ++ codes "/aws4_request"))))

  unfoldable pub presign_query : List (Text × Text)
  unfolding scope
  presign_query = btree_insert (codes "X-Amz-SignedHeaders") (codes "host") (
      btree_insert (codes "X-Amz-Expires") (dec p.expires) (
        btree_insert (codes "X-Amz-Date") amz_date (
          btree_insert (codes "X-Amz-Credential") (cfg.access_key ++ (codes "/" ++ scope))
            (btree_insert (codes "X-Amz-Algorithm") (codes "AWS4-HMAC-SHA256") []))))

  abbrev encoded_parts : List (Text × Text) → List Text
  encoded_parts [] = []
  encoded_parts ((k, v) ∷ query) = (c.encode k ++ (codes "=" ++ c.encode v)) ∷ encoded_parts query

  unfoldable pub canonical_uri : Text
  canonical_uri = codes "/" ++ (p.bucket ++ (codes "/" ++ p.key))

  unfoldable pub host : Text
  host = endpoint ++ (codes ":" ++ dec port)

  unfoldable pub canonical_query_string : Text
  canonical_query_string = join (codes "&") (encoded_parts presign_query)

  unfoldable pub presign_canonical_request : Text
  presign_canonical_request =
      c.to_uppercase p.method
      ++ (newline
          ++ (canonical_uri
              ++ (newline
                  ++ (canonical_query_string
                      ++ (newline
                          ++ ((codes "host:" ++ (host ++ newline))
                              ++ (newline
                                  ++ (codes "host" ++ (newline ++ codes "UNSIGNED-PAYLOAD")))))))))

  unfoldable pub presign_string_to_sign : Text
  presign_string_to_sign =
      codes "AWS4-HMAC-SHA256\n"
      ++ (amz_date
          ++ (newline
              ++ (scope
                  ++ (newline ++ c.hex_encode (c.sha256 (as_bytes presign_canonical_request))))))

  unfoldable pub presign_signature : Text
  presign_signature =
      let k_secret = codes "AWS4" ++ cfg.secret_key in
      let k_date = c.hmac_sha256 (as_bytes k_secret) (as_bytes date_stamp) in
      let k_region = c.hmac_sha256 k_date (as_bytes region) in
      let k_service = c.hmac_sha256 k_region (as_bytes service) in
      let k_signing = c.hmac_sha256 k_service (as_bytes (codes "aws4_request")) in
      c.hex_encode (c.hmac_sha256 k_signing (as_bytes presign_string_to_sign))

  unfoldable pub presigned_url : Text
  presigned_url =
      codes "http://"
      ++ (host
          ++ (canonical_uri
              ++ (codes "?"
                  ++ (canonical_query_string ++ (codes "&X-Amz-Signature=" ++ presign_signature)))))

-- The handler; the headers that axum adds to a plain text are left out.
unfoldable pub generate_presigned_url :
    Crypto → Option AuthConfig → Text → ℕ → ℕ → PresignParams → Response
generate_presigned_url c none endpoint port now p = record {
  status = 500;
  headers = [];
  body = plain (codes "Auth not configured");
}
generate_presigned_url c (some cfg) endpoint port now p = record {
  status = 200;
  headers = [];
  body = plain (presigned_url c cfg endpoint port now p);
}
