-- ===== src/Http/Tests.antt =====
-- Chunked bodies, and the properties at inputs that meet their hypotheses.
use ferro_s.Base.{ℕ, List, [], some, codes, ◌≡◌, refl, arith, length, ◌≤◌}
use ferro_s.Base.Run.{texts}
use ferro_s.Http.{
  ok, panic, chunked, read_line, chunk_size, skip_trailer, read_chunk, read_chunks, read_body,
  max_body_bytes,
}
use ferro_s.Http.Heads.{
  HttpCrate, parsed, ascii_lowercase, parse_request_head, body_plan, says_chunked,
  format_response_head, read_fields, fields, declared_length, connection_value,
}
use ferro_s.Headers.{HeaderMap, header_text}
use ferro_s.Base.{Text, Bool, false, true, ◌++◌, text_eq, trim, is_whitespace, ◌∷◌}
use ferro_s.Base.Strings.{trim_start, trim_end}
use ferro_s.Base.Decimal.{dec}
use ferro_s.Http.Fields.{IsField, header_map, others}
use ferro_s.Http.Requests.{
  IsWord, request_text, parse_request_head-request_text, read_body-body_plan,
}
use ferro_s.Base.Decimal.Roundtrip.{trim-dec, dec-IsDigit}
use ferro_s.Http.Responses.{
  digits-NoBreak, format_response_head-read_fields, status_line, length_field,
}
use ferro_s.Http.Framing.{read_body-within}

abbrev wire : List ℕ
wire = codes "4\r\nWiki\r\n5;x=1\r\npedia\r\n0\r\n\r\n"

decoded : read_body 40 wire chunked max_body_bytes ≡ some (ok (codes "Wikipedia") [])
unfolding read_body read_chunks read_chunk read_line chunk_size skip_trailer texts
decoded = refl

-- A chunk size that wraps the sum passes the limit, and the buffer cannot be made.
wrapped : read_body 40 (codes "1\r\na\r\nffffffffffffffff\r\n") chunked max_body_bytes ≡ some panic
unfolding read_body read_chunks read_chunk read_line chunk_size skip_trailer texts
wrapped = refl

read_body-within_example : length (codes "Wikipedia") ≤ max_body_bytes
read_body-within_example = read_body-within 40 max_body_bytes chunked wire (omega arith) decoded

-- A crate that takes every name in lower case.
abbrev any_crate : HttpCrate
any_crate = record {
  method = λ m. some m;
  header_name = λ n. some (ascii_lowercase n);
  header_value = λ v. some (some v);
  canonical_reason = λ s. some (codes "OK");
}

example_host : IsField any_crate (codes "host") (codes "example") (codes "host")
unfolding ascii_lowercase trim trim_start trim_end is_whitespace
example_host = record {
  no_colon = ground arith;
  name_breaks = ground arith;
  value_breaks = ground arith;
  name_trimmed = refl;
  value_trimmed = refl;
  accepted_name = refl;
  accepted_value = refl;
}

length_of_three : IsField any_crate (codes "content-length") (codes "3") (codes "content-length")
unfolding ascii_lowercase trim trim_start trim_end is_whitespace
length_of_three = record {
  no_colon = ground arith;
  name_breaks = ground arith;
  value_breaks = ground arith;
  name_trimmed = refl;
  value_trimmed = refl;
  accepted_name = refl;
  accepted_value = refl;
}

abbrev put_fields : List (Text × Text)
put_fields = (codes "host", codes "example") ∷ (codes "content-length", codes "3") ∷ []

put-IsWord : IsWord (codes "PUT")
unfolding is_whitespace
put-IsWord = record { not_empty = refl; ink = ground arith }

path-IsWord : IsWord (codes "/bucket/key")
unfolding is_whitespace
path-IsWord = record { not_empty = refl; ink = ground arith }

parse_request_head-request_text_example :
    parse_request_head any_crate 9
      (request_text (codes "PUT") (codes "/bucket/key") put_fields (codes "abc"))
    ≡ some (
        parsed
          (record {
            method = codes "PUT";
            target = codes "/bucket/key";
            headers = header_map put_fields;
            http11 = true;
          })
          (codes "abc"))
parse_request_head-request_text_example =
    parse_request_head-request_text (codes "PUT") (codes "/bucket/key") put-IsWord path-IsWord
      any_crate 9 put_fields (codes "abc") refl (example_host, (length_of_three, tt)) (omega arith)

declares_three : header_text (header_map put_fields) (codes "content-length") ≡ some (dec 3)
unfolding header_text text_eq dec
declares_three = refl

not_chunked : says_chunked (header_text (header_map put_fields) (codes "transfer-encoding")) ≡ false
unfolding header_text text_eq
not_chunked = refl

read_body-body_plan_example :
    read_body 9 (codes "abc" ++ codes "GET") (body_plan (header_map put_fields)) max_body_bytes
    ≡ some (ok (codes "abc") (codes "GET"))
read_body-body_plan_example =
    read_body-body_plan 9 max_body_bytes (header_map put_fields) (codes "abc") (codes "GET")
      not_chunked declares_three (omega arith) (omega arith)

own_connection :
    (keep_alive : Bool)
    → IsField any_crate
        (codes "Connection")
        (connection_value any_crate keep_alive)
        (codes "connection")
unfolding ascii_lowercase trim trim_start trim_end is_whitespace
own_connection true = record {
  no_colon = ground arith;
  name_breaks = ground arith;
  value_breaks = ground arith;
  name_trimmed = refl;
  value_trimmed = refl;
  accepted_name = refl;
  accepted_value = refl;
}
own_connection false = record {
  no_colon = ground arith;
  name_breaks = ground arith;
  value_breaks = ground arith;
  name_trimmed = refl;
  value_trimmed = refl;
  accepted_name = refl;
  accepted_value = refl;
}

own_length : (n : ℕ) → IsField any_crate (codes "Content-Length") (dec n) (codes "content-length")
unfolding ascii_lowercase trim trim_start trim_end is_whitespace
own_length n = record {
  no_colon = ground arith;
  name_breaks = ground arith;
  value_breaks = digits-NoBreak (dec n) (dec-IsDigit n);
  name_trimmed = refl;
  value_trimmed = trim-dec n;
  accepted_name = refl;
  accepted_value = refl;
}

abbrev head_fields : HeaderMap
head_fields =
    (codes "content-length", some (codes "3")) ∷ (codes "host", some (codes "example")) ∷ []

format_response_head-read_fields_example :
    ((read_line (format_response_head any_crate 200 head_fields (some 3) true false)).0
      ≡ status_line any_crate 200 ++ codes "\r\n")
    × (read_fields any_crate 9 []
          (read_line (format_response_head any_crate 200 head_fields (some 3) true false)).1
        ≡ some (
            fields
              ((codes "connection", some (connection_value any_crate false))
                ∷ (length_field any_crate (declared_length any_crate head_fields (some 3) true)
                    ++ others head_fields))
              []))
format_response_head-read_fields_example =
    format_response_head-read_fields any_crate 200 head_fields (some 3) true false 9
      (record { connection = own_connection; length = own_length })
      (length_of_three, (example_host, tt)) (ground arith) (omega arith)
