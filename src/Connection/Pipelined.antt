-- ===== src/Connection/Pipelined.antt =====
-- Requests that follow each other on one connection of src/main.rs.
use ferro_s.Base.{
  ℕ, suc, ◌<◌, ◌≤◌, ◌≡◌, refl, ap, ◌∙◌, List, [], ◌∷◌, ◌++◌, some, true, false, Text, codes, length,
  length-append, arith, ◌>>=◌,
}
use ferro_s.Base.Decimal.{dec}
use ferro_s.Headers.{header_text}
use ferro_s.Http.{read_body, ok, max_body_bytes}
use ferro_s.Http.Heads.{RequestHead, parsed, parse_request_head, body_plan, says_chunked}
use ferro_s.Http.Fields.{AreFields, field_lines, header_map}
use ferro_s.Http.Requests.{
  IsWord, request_line, request_text, parse_request_head-request_text, read_body-body_plan,
}
use ferro_s.Connection.{
  Reply, Service, again, interim, after_writing, stays_open, response_head, reply_body, respond,
  serve_request, serve_round, serve_connection,
}

length-field_lines :
    (hs : List (Text × Text)) (rest : Text) → length hs ≤ length (field_lines hs rest)
length-field_lines [] rest = omega arith
length-field_lines ((name, value) ∷ hs) rest = omega (
  arith,
  length-field_lines hs rest,
  length-append name (codes ": " ++ (value ++ (codes "\r\n" ++ field_lines hs rest))),
  length-append value (codes "\r\n" ++ field_lines hs rest),
)

abbrev pub request_head : Text → Text → List (Text × Text) → RequestHead
request_head method target hs = record {
  method = method;
  target = target;
  headers = header_map hs;
  http11 = true;
}

-- A request that a client can send, and that a service takes.
pub record IsRequest {S : Type 0} (service : Service S) (method target : Text)
    (hs : List (Text × Text)) (body : List ℕ) : Type 0 where
  pub method_word : IsWord method
  pub target_word : IsWord target
  pub known_method : service.http.method method ≡ some method
  pub are_fields : AreFields service.http hs
  pub not_chunked : says_chunked (header_text (header_map hs) (codes "transfer-encoding")) ≡ false
  pub declared : header_text (header_map hs) (codes "content-length") ≡ some (dec (length body))
  pub fits : length body ≤ max_body_bytes
  pub target_uri : service.is_uri target ≡ true

module _ {S : Type 0} (service : Service S) where
  serve_request-ok :
      (w : S) (head : RequestHead) (after : List ℕ) {body rest : List ℕ}
      → read_body (suc (length after)) after (body_plan head.headers) max_body_bytes
        ≡ some (ok body rest)
      → service.is_uri head.target ≡ true
      → serve_request service w head after
        ≡ some (respond service head rest (service.call w (record { head = head; body = body })))
  unfolding serve_request
  serve_request-ok w head after e u = rw (serve_request, e, u) refl

  serve_round-parsed :
      (w : S) (s : List ℕ) {head : RequestHead} {after : List ℕ}
      → parse_request_head service.http (suc (length s)) s ≡ some (parsed head after)
      → serve_round service w s ≡ serve_request service w head after
  unfolding serve_round
  serve_round-parsed w s e = rw (serve_round, e) refl

  respond-again :
      (head : RequestHead) (rest : List ℕ) (w : S) (reply : Reply)
      → stays_open service head reply ≡ true
      → (reply_body service head reply).1 ≡ true
      → respond service head rest (w, reply)
        ≡ again w
            (interim head.headers
              ++ (response_head service head reply ++ (reply_body service head reply).0))
            rest
  unfolding respond
  respond-again head rest w reply kept whole = rw (respond, whole, kept) refl

  serve_connection-again :
      (fuel : ℕ) (w : S) (s : List ℕ) {w' : S} {out rest : List ℕ}
      → serve_round service w s ≡ some (again w' out rest)
      → serve_connection service (suc fuel) w s ≡ (
          serve_connection service fuel w' rest >>= λ served.
          some (after_writing service out served))
  unfolding serve_connection
  serve_connection-again fuel w s e = rw (serve_connection, e) refl

module _ {S : Type 0} (service : Service S) (w : S) (method target : Text) (hs : List (Text × Text))
    (body next : List ℕ) (p : IsRequest service method target hs body) where
  abbrev reply : S × Reply
  reply = service.call w (record { head = request_head method target hs; body = body })

  serve_request-body :
      serve_request service w (request_head method target hs) (body ++ next)
      ≡ some (respond service (request_head method target hs) next reply)
  serve_request-body =
      serve_request-ok service w (request_head method target hs) (body ++ next)
        (read_body-body_plan (suc (length (body ++ next))) max_body_bytes (header_map hs) body next
          p.not_chunked p.declared p.fits (omega arith))
        p.target_uri

  serve_round-request_text :
      serve_round service w (request_text method target hs (body ++ next))
      ≡ some (respond service (request_head method target hs) next reply)
  serve_round-request_text =
      let enough : length hs < suc (length (request_text method target hs (body ++ next))) = omega (
        arith,
        length-field_lines hs (codes "\r\n" ++ (body ++ next)),
        length-append (request_line method target)
            (codes "\r\n" ++ field_lines hs (codes "\r\n" ++ (body ++ next))),
      ) in
      serve_round-parsed service w (request_text method target hs (body ++ next)) (
        parse_request_head-request_text method target p.method_word p.target_word service.http
          (suc (length (request_text method target hs (body ++ next)))) hs (body ++ next)
          p.known_method p.are_fields enough)
      ∙ serve_request-body

  -- A request that is sent whole, to a router that answers it with a body whose frames do not fail
  -- and whose length is known, on a connection that is kept alive: what the connection writes is the
  -- interim response where it is asked for, the response, and then whatever a connection on which
  -- only the next bytes come writes from the router's new state. No byte of a request that follows
  -- is lost or read twice.
  pub serve_connection-request_text :
      (fuel : ℕ)
      → stays_open service (request_head method target hs) reply.1 ≡ true
      → (reply_body service (request_head method target hs) reply.1).1 ≡ true
      → serve_connection service (suc fuel) w (request_text method target hs (body ++ next)) ≡ (
          serve_connection service fuel reply.0 next >>= λ served. some (
            after_writing service
              (interim (header_map hs)
                ++ (response_head service (request_head method target hs) reply.1
                    ++ (reply_body service (request_head method target hs) reply.1).0))
              served))
  serve_connection-request_text fuel kept whole =
      serve_connection-again service fuel w (request_text method target hs (body ++ next)) (
        serve_round-request_text
        ∙ ap some
            (respond-again service (request_head method target hs) next reply.0 reply.1 kept whole))
