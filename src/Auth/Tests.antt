-- ===== src/Auth/Tests.antt =====
-- Concrete requests, and the properties at inputs that meet their hypotheses.
use ferro_s.Base.{
  ℕ, List, [], ◌∷◌, ◌++◌, none, some, Text, codes, ◌≡◌, refl, arith, All, false, text_eq, ◌<◌, ◌≤◌,
  ◌+◌, ◌*◌,
}
use ferro_s.Base.Run.{texts}
use ferro_s.Base.Bytes.{as_bytes, utf8_char, btree_get}
use ferro_s.Base.{if◌then◌else◌, ltb, trim, true}
use ferro_s.Base.Bytes.{byte_prefix, utf8_len}
use ferro_s.Auth.SigV4.{verify_signature}
use ferro_s.Auth.Presign.{PresignParams, host, presign_signature}
use ferro_s.Auth.Presign.Verifies.{IsAscii, url_request, verify_signature-presign_signature}
use ferro_s.State.{AuthConfig}
use ferro_s.Headers.{header_text}
use ferro_s.Auth.Crypto.{Crypto}
use ferro_s.Auth.Compare.{IsByte, diff_bytes, constant_time_eq, constant_time_eq-text_eq}
use ferro_s.Auth.Query.{parse_basic_auth}
use ferro_s.Auth.Middleware.{
  AuthRequest, run_next, Credential, credential_of, in_time, expires_of, lifetime_check, presigned,
  basic_matches, auth_middleware,
}
use ferro_s.Auth.Middleware.Sound.{Authenticated, auth_middleware-Authenticated, presigned_lifetime}

-- Encodings that change nothing, and a clock date that is always second 100.
abbrev plain : Crypto
plain = record {
  sha256 = λ b. b;
  hmac_sha256 = λ k b. k ++ b;
  hex_encode = λ b. b;
  base64_decode = λ t. some t;
  from_utf8 = λ b. some b;
  encode = λ t. t;
  decode = λ t. some t;
  to_lowercase = λ t. t;
  to_uppercase = λ t. t;
  parse_date = λ t. some 100;
  format_date = λ n. [];
  format_day = λ n. [];
}

abbrev cfg : AuthConfig
cfg = record { access_key = codes "user"; secret_key = codes "pw" }

abbrev with_password : AuthRequest
with_password = record {
  method = codes "GET";
  path = codes "/b/k";
  query = none;
  headers = (codes "authorization", some (codes "Basic user:pw")) ∷ [];
}

accepted : auth_middleware plain (some cfg) 0 with_password ≡ run_next
unfolding auth_middleware header_text basic_matches parse_basic_auth constant_time_eq diff_bytes
    as_bytes utf8_char texts
accepted = refl

auth_middleware-Authenticated_example : Authenticated plain cfg 0 with_password
auth_middleware-Authenticated_example =
    auth_middleware-Authenticated plain cfg 0 with_password accepted

abbrev signed_url : AuthRequest
signed_url = record { method = codes "GET"; path = codes "/b/k"; query = none; headers = [] }

abbrev signed_query : List (Text × Text)
signed_query =
    (codes "X-Amz-Credential", codes "user/d/r/s3/aws4_request")
    ∷ (codes "X-Amz-Date", codes "now")
    ∷ (codes "X-Amz-Expires", codes "60")
    ∷ (codes "X-Amz-Signature", codes "sig")
    ∷ (codes "X-Amz-SignedHeaders", codes "host")
    ∷ []

abbrev user : Credential
user = record { access_key = codes "user"; region = codes "r"; service = codes "s3" }

presented :
    presigned plain (some cfg) signed_url signed_query 120000000000
    ≡ some (user, codes "now", codes "sig", codes "host")
unfolding presigned btree_get credential_of lifetime_check expires_of in_time texts
presented = refl

presigned_lifetime_example :
    (signed_at : ℕ) × (expires : ℕ) × (plain.parse_date (codes "now") ≡ some signed_at)
    × (0 < expires)
    × (expires ≤ 604800)
    × (120000000000 < (signed_at + expires + 1) * 1000000000)
    × (signed_at * 1000000000 < 120000000000 + 301 * 1000000000)
presigned_lifetime_example =
    presigned_lifetime plain (some cfg) signed_url signed_query 120000000000 presented

secret-IsByte : All IsByte (1 ∷ 255 ∷ [])
secret-IsByte = (omega arith, (omega arith, tt))

guess-IsByte : All IsByte (1 ∷ 254 ∷ [])
guess-IsByte = (omega arith, (omega arith, tt))

constant_time_eq-text_eq_example : constant_time_eq (1 ∷ 255 ∷ []) (1 ∷ 254 ∷ []) ≡ false
unfolding text_eq
constant_time_eq-text_eq_example =
    constant_time_eq-text_eq (1 ∷ 255 ∷ []) (1 ∷ 254 ∷ []) secret-IsByte guess-IsByte

-- A stand-in for the hexadecimal encoding, with ASCII results only.
abbrev ascii : List ℕ → Text
ascii [] = []
ascii (x ∷ b) = (if ltb x 128 then x else b'?') ∷ ascii b

ascii-IsAscii : (b : List ℕ) → All IsAscii (ascii b)
ascii-IsAscii [] = tt
ascii-IsAscii (x ∷ b) = (ground arith, ascii-IsAscii b)

abbrev dated : Crypto
dated = record plain {
  hex_encode = ascii;
  format_date = λ n. codes "20240516T123000Z";
  format_day = λ n. codes "20240516";
}

abbrev wanted : PresignParams
wanted = record { bucket = codes "b"; key = codes "k"; method = codes "GET"; expires = 60 }

trimmed_host :
    trim (host dated cfg (codes "localhost") 9000 0 wanted)
    ≡ host dated cfg (codes "localhost") 9000 0 wanted
unfolding host texts
trimmed_host = refl

same_day : byte_prefix 8 (codes "20240516T123000Z") ≡ some (codes "20240516")
unfolding byte_prefix utf8_len
same_day = refl

verify_signature-presign_signature_example :
    verify_signature dated
      (url_request dated cfg (codes "localhost") 9000 0 wanted)
      (presign_signature dated cfg (codes "localhost") 9000 0 wanted)
    ≡ true
verify_signature-presign_signature_example =
    verify_signature-presign_signature dated cfg (codes "localhost") 9000 0 wanted refl trimmed_host
      ascii-IsAscii same_day
