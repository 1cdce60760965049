-- ===== src/Connection/Tests.antt =====
-- Two requests on one connection, and the property at inputs that meet its hypotheses.
use ferro_s.Base.{
  ℕ, suc, ◌≡◌, refl, List, [], ◌∷◌, ◌++◌, some, true, Text, codes, text_eq, trim, is_whitespace,
  arith, ◌>>=◌,
}
use ferro_s.Base.Strings.{trim_start, trim_end}
use ferro_s.Base.Decimal.{dec}
use ferro_s.Headers.{header_text}
use ferro_s.Http.Heads.{ascii_lowercase, eq_ignore_ascii_case, request_keep_alive}
use ferro_s.Http.Fields.{IsField, header_map}
use ferro_s.Http.Requests.{request_text}
use ferro_s.Connection.{
  Reply, Service, write_frames, interim, after_writing, stays_open, response_head, reply_body,
  serve_connection,
}
use ferro_s.Connection.{Served}
use ferro_s.Connection.Ends.{serve_connection_ends}
use ferro_s.Connection.Pipelined.{IsRequest, request_head, serve_connection-request_text}

-- A router that counts its calls and echoes the body.
abbrev echo : Service ℕ
echo = record {
  http = record {
    method = λ m. some m;
    header_name = λ n. some (ascii_lowercase n);
    header_value = λ v. some (some v);
    canonical_reason = λ s. some (codes "OK");
  };
  is_uri = λ t. true;
  call = λ n r.
      (suc n, record { status = 200; headers = []; frames = some r.body ∷ []; exact_len = some 3 });
}

length_field : IsField echo.http (codes "content-length") (codes "3") (codes "content-length")
unfolding ascii_lowercase trim trim_start trim_end is_whitespace
length_field = record {
  no_colon = ground arith;
  name_breaks = ground arith;
  value_breaks = ground arith;
  name_trimmed = refl;
  value_trimmed = refl;
  accepted_name = refl;
  accepted_value = refl;
}

abbrev put_fields : List (Text × Text)
put_fields = (codes "content-length", codes "3") ∷ []

put-IsRequest : IsRequest echo (codes "PUT") (codes "/b/k") put_fields (codes "abc")
unfolding is_whitespace header_text text_eq dec
put-IsRequest = record {
  method_word = record { not_empty = refl; ink = ground arith };
  target_word = record { not_empty = refl; ink = ground arith };
  known_method = refl;
  are_fields = (length_field, tt);
  not_chunked = refl;
  declared = refl;
  fits = omega arith;
  target_uri = refl;
}

abbrev answer : Reply
answer = record { status = 200; headers = []; frames = some (codes "abc") ∷ []; exact_len = some 3 }

kept : stays_open echo (request_head (codes "PUT") (codes "/b/k") put_fields) answer ≡ true
unfolding request_keep_alive header_text text_eq eq_ignore_ascii_case ascii_lowercase
kept = refl

whole : (reply_body echo (request_head (codes "PUT") (codes "/b/k") put_fields) answer).1 ≡ true
unfolding text_eq write_frames
whole = refl

serve_connection-request_text_example :
    serve_connection echo (suc 4) 0 (
      request_text
        (codes "PUT")
        (codes "/b/k")
        put_fields
        (codes "abc" ++ codes "GET / HTTP/1.1\r\n\r\n"))
    ≡ (serve_connection echo 4 1 (codes "GET / HTTP/1.1\r\n\r\n") >>= λ served. some (
        after_writing echo
          (interim (header_map put_fields)
            ++ (response_head echo (request_head (codes "PUT") (codes "/b/k") put_fields) answer
                ++ (reply_body echo
                    (request_head (codes "PUT") (codes "/b/k") put_fields)
                    answer).0))
          served))
serve_connection-request_text_example =
    serve_connection-request_text echo 0 (codes "PUT") (codes "/b/k") put_fields (codes "abc")
      (codes "GET / HTTP/1.1\r\n\r\n") put-IsRequest 4 kept whole

serve_connection_ends_example :
    (served : Served ℕ) × (serve_connection echo 60 0
        (codes "GET /b/k HTTP/1.1\r\n\r\nnot a request")
      ≡ some served)
serve_connection_ends_example =
    serve_connection_ends echo 60 0 (codes "GET /b/k HTTP/1.1\r\n\r\nnot a request") (omega arith)
