-- ===== src/Auth/Query.antt =====
-- `parse_query` and `parse_basic_auth` of src/auth/mod.rs.
use ferro_s.Base.{
  List, [], ◌∷◌, Option, ◌>>=◌, Text, codes, split, split_once, strip_prefix, is_empty, unwrap_or,
  if◌then◌else◌,
}
use ferro_s.Base.Bytes.{btree_insert}
use ferro_s.Auth.Crypto.{Crypto}

-- `split_once('=')`, where a part without `=` has an empty value.
unfoldable pub key_value : Text → Text × Text
key_value part = unwrap_or (split_once b'=' part) (part, [])

module _ (c : Crypto) where
  unfoldable pub parse_parts : List Text → List (Text × Text) → List (Text × Text)
  parse_parts [] m = m
  parse_parts (part ∷ parts) m =
      let (key, value) = key_value part in
      parse_parts parts
        (if is_empty part then m else btree_insert key (unwrap_or (c.decode value) []) m)

  unfoldable pub parse_query : Text → List (Text × Text)
  parse_query query = parse_parts (split b'&' query) []

  unfoldable pub parse_basic_auth : Text → Option (Text × Text)
  parse_basic_auth auth = do
    encoded ← strip_prefix auth (codes "Basic ")
    bytes ← c.base64_decode encoded
    decoded ← c.from_utf8 bytes
    split_once b':' decoded
