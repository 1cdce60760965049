-- ===== src/Api/Errors.antt =====
-- src/error.rs.
use Prim.Native.Nat.{bit_and, bit_or}
use ferro_s.Base.{ℕ, ◌/◌, ◌%◌, List, [], ◌∷◌, ◌++◌, Option, Text, codes}
use ferro_s.Base.Decimal.{hex_digit}
use ferro_s.Api.Documents.{Response, error}

pub data S3ErrorType : Type 0 where
  no_such_key no_such_bucket access_denied invalid_request internal_error request_timeout :
      S3ErrorType

-- The format `{:02x}` of a byte.
unfoldable pub byte_hex : ℕ → Text
byte_hex b = hex_digit (b / 16) ∷ hex_digit (b % 16) ∷ []

unfoldable pub bytes_hex : List ℕ → Text
bytes_hex [] = []
bytes_hex (b ∷ bs) = byte_hex b ++ bytes_hex bs

abbrev dash : Text
dash = codes "-"

-- The 16 bytes are what /dev/urandom gave, or zeros.
unfoldable pub new_request_id : (b0 b1 b2 b3 b4 b5 b6 b7 b8 b9 b10 b11 b12 b13 b14 b15 : ℕ) → Text
new_request_id b0 b1 b2 b3 b4 b5 b6 b7 b8 b9 b10 b11 b12 b13 b14 b15 =
    bytes_hex (b0 ∷ b1 ∷ b2 ∷ b3 ∷ [])
    ++ (dash
        ++ (bytes_hex (b4 ∷ b5 ∷ [])
            ++ (dash
                ++ (bytes_hex (bit_or (bit_and b6 0x0f) 0x40 ∷ b7 ∷ [])
                    ++ (dash
                        ++ (bytes_hex (bit_or (bit_and b8 0x3f) 0x80 ∷ b9 ∷ [])
                            ++ (dash ++ bytes_hex (b10 ∷ b11 ∷ b12 ∷ b13 ∷ b14 ∷ b15 ∷ []))))))))

abbrev pub status_of : S3ErrorType → ℕ
status_of no_such_key = 404
status_of no_such_bucket = 404
status_of access_denied = 403
status_of invalid_request = 400
status_of internal_error = 500
status_of request_timeout = 504

abbrev pub code_of : S3ErrorType → Text
code_of no_such_key = codes "NoSuchKey"
code_of no_such_bucket = codes "NoSuchBucket"
code_of access_denied = codes "AccessDenied"
code_of invalid_request = codes "InvalidRequest"
code_of internal_error = codes "InternalError"
code_of request_timeout = codes "RequestTimeout"

abbrev pub message_of : S3ErrorType → Text
message_of no_such_key = codes "The specified key does not exist."
message_of no_such_bucket = codes "The specified bucket does not exist."
message_of access_denied = codes "Access Denied."
message_of invalid_request =
    codes
      "This copy request is illegal because it is trying to copy an object to itself without changing the object's metadata, storage class, website redirect location or encryption attributes."
message_of internal_error = codes "An internal error occurred."
message_of request_timeout = codes "The server took too long to handle the request and gave up."

-- The request id is drawn for each response.
unfoldable pub to_response : Text → S3ErrorType → Option Text → Response
to_response request_id e resource = record {
  status = status_of e;
  headers = (codes "Content-Type", codes "application/xml") ∷ [];
  body = error (record {
    code = code_of e;
    message = message_of e;
    resource = resource;
    request_id = request_id;
  });
}
