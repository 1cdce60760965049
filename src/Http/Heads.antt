-- ===== src/Http/Heads.antt =====
-- Request and response heads of src/blocking_http.rs. A head is ASCII; `Method::from_bytes`,
-- `HeaderName::from_bytes`, `HeaderValue::from_str` and `canonical_reason` are the crate http.
use ferro_s.Base.{
  ℕ, zero, suc, ◌+◌, List, [], ◌∷◌, ◌++◌, Option, none, some, Bool, true, false, not, ◌||◌, ◌&&◌,
  Text, codes, text_eq, is_empty, if◌then◌else◌, ◌==◌, leb, split_once, find, trim, unwrap_or,
  ◌>>=◌, is_whitespace,
}
use ferro_s.Base.Decimal.{parse_uint, dec}
use ferro_s.Headers.{HeaderMap, header_text}
use ferro_s.Http.{BodyPlan, empty, fixed, chunked, read_line}

-- What the crate http makes of a text; for a value, what `to_str` then gives.
pub record HttpCrate : Type 0 where
  pub method : Text → Option Text
  pub header_name : Text → Option Text
  pub header_value : Text → Option (Option Text)
  pub canonical_reason : ℕ → Option Text

pub data ErrorKind : Type 0 where
  unexpected_eof invalid_data : ErrorKind

pub record RequestHead : Type 0 where
  pub method : Text
  pub target : Text
  pub headers : HeaderMap
  pub http11 : Bool

-- The head, with what is left to read, or an I/O error.
pub data ParsedHead : Type 0 where
  parsed : RequestHead → List ℕ → ParsedHead
  refused : ErrorKind → Text → ParsedHead

pub data ParsedFields : Type 0 where
  fields : HeaderMap → List ℕ → ParsedFields
  malformed : Text → ParsedFields

abbrev pub is_break : ℕ → Bool
is_break c = c == b'\r' || c == b'\n'

-- `trim_end_matches(['\r', '\n'])`.
unfoldable pub trim_breaks : Text → Text
trim_breaks [] = []
trim_breaks (c ∷ s) = elim (trim_breaks s) [
  | [] ↦ if is_break c then [] else c ∷ []
  | d ∷ t ↦ c ∷ d ∷ t
]

-- `split_whitespace`: the words; the first text is the word that is being read.
unfoldable pub words_from : Text → Text → List Text
words_from word [] = if is_empty word then [] else word ∷ []
words_from word (c ∷ s) =
    let inside = words_from (word ++ (c ∷ [])) s in
    let outside = words_from [] s in
    if is_whitespace c then (if is_empty word then outside else word ∷ outside) else inside

unfoldable pub split_whitespace : Text → List Text
split_whitespace s = words_from [] s

-- `to_ascii_lowercase`, and `eq_ignore_ascii_case`.
abbrev pub lower_char : ℕ → ℕ
lower_char c = if leb 65 c && leb c 90 then c + 32 else c

unfoldable pub ascii_lowercase : Text → Text
ascii_lowercase [] = []
ascii_lowercase (c ∷ s) = lower_char c ∷ ascii_lowercase s

unfoldable pub eq_ignore_ascii_case : Text → Text → Bool
eq_ignore_ascii_case s t = text_eq (ascii_lowercase s) (ascii_lowercase t)

abbrev pub is_some {ℓ} : {A : Type ℓ} → Option A → Bool
is_some none = false
is_some (some a) = true

abbrev pub first_is_http11 : List Text → Bool
first_is_http11 [] = false
first_is_http11 (p ∷ ps) = text_eq p (codes "HTTP/1.1")

-- The `Connection` header, and the defaults of the protocol's versions.
unfoldable pub request_keep_alive : Bool → HeaderMap → Bool
request_keep_alive http11 headers =
    let connection = unwrap_or (header_text headers (codes "connection")) [] in
    if http11
    then not (eq_ignore_ascii_case connection (codes "close"))
    else eq_ignore_ascii_case connection (codes "keep-alive")

abbrev pub says_chunked : Option Text → Bool
says_chunked none = false
says_chunked (some te) = is_some (find (ascii_lowercase te) (codes "chunked"))

abbrev pub fixed_plan : Option ℕ → BodyPlan
fixed_plan none = empty
fixed_plan (some n) = if n == 0 then empty else fixed n

unfoldable pub body_plan : HeaderMap → BodyPlan
body_plan headers =
    if says_chunked (header_text headers (codes "transfer-encoding"))
    then chunked
    else fixed_plan (header_text headers (codes "content-length") >>= λ v. parse_uint 10 (trim v))

unfoldable pub wants_100_continue : HeaderMap → Bool
wants_100_continue headers = elim (header_text headers (codes "expect")) [
  | none ↦ false
  | some v ↦ eq_ignore_ascii_case (trim v) (codes "100-continue")
]

module _ (k : HttpCrate) where
  -- One header line, with no line break: the field, or the message of the error.
  unfoldable pub header_field : Text → ParsedFields
  header_field line = elim (split_once b':' line) [
    | none ↦ malformed (codes "malformed header")
    | some parts ↦ elim (k.header_name (trim parts.0)) [
      | none ↦ malformed (codes "invalid header name")
      | some name ↦ elim (k.header_value (trim parts.1)) [
        | none ↦ malformed (codes "invalid header value")
        | some value ↦ fields ((name, value) ∷ []) []
      ]
    ]
  ]

  -- The loop over the header lines. A line takes at least a byte, so the fuel is the number of
  -- bytes, and one more.
  unfoldable pub read_fields : ℕ → HeaderMap → List ℕ → Option ParsedFields
  read_fields zero headers s = none
  read_fields (suc fuel) headers s =
      let line = (read_line s).0 in
      let rest = (read_line s).1 in
      if is_empty line
      then some (fields headers rest)
      else if is_empty (trim_breaks line)
      then some (fields headers rest)
      else elim (header_field (trim_breaks line)) [
        | malformed message ↦ some (malformed message)
        | fields field _ ↦ read_fields fuel (headers ++ field) rest
      ]

  unfoldable pub parse_words : ℕ → List Text → List ℕ → Option ParsedHead
  parse_words fuel [] rest = some (refused invalid_data (codes "missing method"))
  parse_words fuel (m ∷ []) rest = some (refused invalid_data (codes "missing target"))
  parse_words fuel (m ∷ target ∷ parts) rest = elim (k.method m) [
    | none ↦ some (refused invalid_data (codes "invalid method"))
    | some method ↦ elim (read_fields fuel [] rest) [
      | none ↦ none
      | some (malformed message) ↦ some (refused invalid_data message)
      | some (fields headers after) ↦ some (
          parsed
            (record {
              method = method;
              target = target;
              headers = headers;
              http11 = first_is_http11 parts;
            })
            after)
    ]
  ]

  unfoldable pub parse_request_head : ℕ → List ℕ → Option ParsedHead
  parse_request_head fuel s =
      let request_line = (read_line s).0 in
      if is_empty (trim request_line)
      then some (refused unexpected_eof (codes "empty request"))
      else parse_words fuel (split_whitespace (trim_breaks request_line)) (read_line s).1

  abbrev pub connection_value : Bool → Text
  connection_value keep_alive = if keep_alive then codes "keep-alive" else codes "close"

  -- The length that a head declares.
  unfoldable pub declared_length : HeaderMap → Option ℕ → Bool → Option ℕ
  declared_length headers body_len head_only =
      if head_only
      then some (
          unwrap_or (header_text headers (codes "content-length") >>= λ v. parse_uint 10 (trim v))
            0)
      else body_len

  abbrev pub length_line : Option ℕ → Text
  length_line none = []
  length_line (some n) = codes "Content-Length: " ++ (dec n ++ codes "\r\n")

  -- The loop over the other headers.
  unfoldable pub other_lines : HeaderMap → Text
  other_lines [] = []
  other_lines ((name, value) ∷ headers) =
      let rest = other_lines headers in
      if text_eq name (codes "content-length") || text_eq name (codes "connection")
      then rest
      else elim value [
        | none ↦ rest
        | some v ↦ name ++ (codes ": " ++ (v ++ (codes "\r\n" ++ rest)))
      ]

  unfoldable pub format_response_head : ℕ → HeaderMap → Option ℕ → Bool → Bool → Text
  format_response_head status headers body_len head_only keep_alive =
      codes "HTTP/1.1 "
      ++ (dec status
          ++ (codes " "
              ++ (unwrap_or (k.canonical_reason status) []
                  ++ (codes "\r\n"
                      ++ (codes "Connection: "
                          ++ (connection_value keep_alive
                              ++ (codes "\r\n"
                                  ++ (length_line (declared_length headers body_len head_only)
                                      ++ (other_lines headers ++ codes "\r\n")))))))))
