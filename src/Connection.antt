-- ===== src/Connection.antt =====
-- The keep-alive loop of `serve_blocking_connection` of src/main.rs. A connection is the list of the
-- bytes that the client sends until it closes, and the bytes that are written to it; writing does
-- not fail. The router is a function on its state, and the crate http says which targets are URIs.
pub mod Pipelined
pub mod Consumed
pub mod Ends
pub mod Cap
mod Tests
use ferro_s.Base.{
  ℕ, zero, suc, List, [], ◌∷◌, ◌++◌, Option, none, some, Bool, true, false, not, ◌&&◌, ◌||◌, Text,
  codes, text_eq, if◌then◌else◌, length, ◌>>=◌,
}
use ferro_s.Headers.{HeaderMap}
use ferro_s.Http.{ok, failed, panic, read_body, max_body_bytes}
use ferro_s.Http.Heads.{
  HttpCrate, RequestHead, parsed, refused, unexpected_eof, invalid_data, is_some,
  parse_request_head, request_keep_alive, body_plan, wants_100_continue, format_response_head,
}

pub record Request : Type 0 where
  pub head : RequestHead
  pub body : List ℕ

-- A response of the router: its body as frames, where a frame may be an error, and one without data
-- is empty; and the exact length of the body where it is known.
pub record Reply : Type 0 where
  pub status : ℕ
  pub headers : HeaderMap
  pub frames : List (Option (List ℕ))
  pub exact_len : Option ℕ

pub record Service (S : Type 0) : Type 0 where
  pub http : HttpCrate
  pub is_uri : Text → Bool
  pub call : S → Request → S × Reply

pub data Ending : Type 0 where
  closed io_error panicked : Ending

-- The router's state, what was written, and how the connection ended.
pub record Served (S : Type 0) : Type 0 where
  pub state : S
  pub written : List ℕ
  pub ending : Ending

-- A round of the loop returns, or goes on with what is left to read.
pub data Turn (S : Type 0) : Type 0 where
  returned : Served S → Turn S
  again : S → List ℕ → List ℕ → Turn S

-- The frames up to the first error, and whether all were written.
unfoldable pub write_frames : List (Option (List ℕ)) → List ℕ × Bool
write_frames [] = ([], true)
write_frames (none ∷ frames) = ([], false)
write_frames (some bytes ∷ frames) =
    let (rest, whole) = write_frames frames in (bytes ++ rest, whole)

abbrev pub interim : HeaderMap → List ℕ
interim headers = if wants_100_continue headers then codes "HTTP/1.1 100 Continue\r\n\r\n" else []

abbrev pub is_head : RequestHead → Bool
is_head head = text_eq head.method (codes "HEAD")

module _ {S : Type 0} (service : Service S) where
  abbrev pub after_writing : List ℕ → Served S → Served S
  after_writing out served = record served { written = out ++ served.written }

  abbrev pub stays_open : RequestHead → Reply → Bool
  stays_open head reply =
      request_keep_alive head.http11 head.headers && (is_head head || is_some reply.exact_len)

  abbrev pub response_head : RequestHead → Reply → List ℕ
  response_head head reply =
      format_response_head service.http reply.status reply.headers reply.exact_len (is_head head)
        (stays_open head reply)

  abbrev pub reply_body : RequestHead → Reply → List ℕ × Bool
  reply_body head reply = if is_head head then ([], true) else write_frames reply.frames

  abbrev pub ended : S → List ℕ → Ending → Turn S
  ended w out ending = returned (record { state = w; written = out; ending = ending })

  -- The response of the router is written, and the connection is kept or closed.
  unfoldable pub respond : RequestHead → List ℕ → S × Reply → Turn S
  respond head rest (w, reply) =
      let out = interim head.headers ++ (response_head head reply ++ (reply_body head reply).0) in
      if not (reply_body head reply).1
      then ended w out io_error
      else if stays_open head reply
      then again w out rest
      else ended w out closed

  unfoldable pub serve_request : S → RequestHead → List ℕ → Option (Turn S)
  serve_request w head after =
      elim (read_body (suc (length after)) after (body_plan head.headers) max_body_bytes) [
        | none ↦ none
        | some failed ↦ some (ended w (interim head.headers) io_error)
        | some panic ↦ some (ended w (interim head.headers) panicked)
        | some (ok body rest) ↦
            if not (service.is_uri head.target)
            then some (ended w (interim head.headers) io_error)
            else some (respond head rest (service.call w (record { head = head; body = body })))
      ]

  unfoldable pub serve_round : S → List ℕ → Option (Turn S)
  serve_round w s = elim (parse_request_head service.http (suc (length s)) s) [
    | none ↦ none
    | some (refused unexpected_eof message) ↦ some (ended w [] closed)
    | some (refused invalid_data message) ↦ some (ended w [] io_error)
    | some (parsed head after) ↦ serve_request w head after
  ]

  -- One round for each request; the fuel bounds them.
  unfoldable pub serve_connection : ℕ → S → List ℕ → Option (Served S)
  serve_connection zero w s = none
  serve_connection (suc fuel) w s = elim (serve_round w s) [
    | none ↦ none
    | some (returned served) ↦ some served
    | some (again w' out rest) ↦
        (serve_connection fuel w' rest >>= λ served. some (after_writing out served))
  ]
