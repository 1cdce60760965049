-- ===== src/Connection/Ends.antt =====
-- The keep-alive loop of `serve_blocking_connection` of src/main.rs ends.
use ferro_s.Base.{
  ℕ, zero, suc, ◌<◌, ◌≤◌, ◌≡◌, refl, List, [], some, length, Bool-cases, inl, inr, arith,
}
use ferro_s.Http.{ReadBody, ok, failed, panic, read_body, max_body_bytes}
use ferro_s.Http.Heads.{
  RequestHead, ParsedHead, parsed, refused, unexpected_eof, invalid_data, parse_request_head,
  body_plan,
}
use ferro_s.Http.Framing.{read_body_ends}
use ferro_s.Http.HeadEnds.{parse_request_head_ends}
use ferro_s.Connection.{
  Reply, Service, Served, Turn, returned, again, interim, stays_open, reply_body, respond,
  serve_request, serve_round, serve_connection, after_writing, ended, closed, io_error, panicked,
}
use ferro_s.Connection.Consumed.{length-read_body, length-parse_request_head}

-- A round that goes on leaves at most `n` bytes.
abbrev Leaves : {S : Type 0} → ℕ → Turn S → Type 0
Leaves n (returned served) = Unit
Leaves n (again w out rest) = length rest ≤ n

abbrev IsShorter : {S : Type 0} → ℕ → Turn S → Type 0
IsShorter n (returned served) = Unit
IsShorter n (again w out rest) = length rest < n

module _ {S : Type 0} (service : Service S) where
  Leaves-respond :
      (head : RequestHead) (rest : List ℕ) (r : S × Reply)
      → Leaves (length rest) (respond service head rest r)
  unfolding respond
  Leaves-respond head rest (w, reply) = elim (Bool-cases (reply_body service head reply).1) [
    | inr n ↦ rw n tt
    | inl y ↦ elim (Bool-cases (stays_open service head reply)) [
      | inl o ↦ rw (y, o) (omega arith)
      | inr c ↦ rw (y, c) tt
    ]
  ]

  Leaves-IsShorter : (n m : ℕ) (t : Turn S) → n < m → Leaves n t → IsShorter m t
  Leaves-IsShorter n m (returned served) h l = tt
  Leaves-IsShorter n m (again w out rest) h l = omega (arith, h, l)

  Leaves-le : (n m : ℕ) (t : Turn S) → n ≤ m → Leaves n t → Leaves m t
  Leaves-le n m (returned served) h l = tt
  Leaves-le n m (again w out rest) h l = omega (arith, h, l)

  serve_request_at :
      (w : S) (head : RequestHead) (after : List ℕ) (b : ReadBody)
      → read_body (suc (length after)) after (body_plan head.headers) max_body_bytes ≡ some b
      → (t : Turn S) × (serve_request service w head after ≡ some t) × Leaves (length after) t
  unfolding serve_request
  serve_request_at w head after failed e =
      (ended service w (interim head.headers) io_error, rw (serve_request, e) refl, tt)
  serve_request_at w head after panic e =
      (ended service w (interim head.headers) panicked, rw (serve_request, e) refl, tt)
  serve_request_at w head after (ok body rest) e = elim (Bool-cases (service.is_uri head.target)) [
    | inr n ↦ (ended service w (interim head.headers) io_error, rw (serve_request, e, n) refl, tt)
    | inl y ↦ (
      respond service head rest (service.call w (record { head = head; body = body })),
      rw (serve_request, e, y) refl,
      Leaves-le (length rest) (length after) _
          (length-read_body (suc (length after)) max_body_bytes (body_plan head.headers) after e)
          (Leaves-respond head rest (service.call w (record { head = head; body = body }))),
    )
  ]

  serve_round_at :
      (w : S) (s : List ℕ) (p : ParsedHead)
      → parse_request_head service.http (suc (length s)) s ≡ some p
      → (t : Turn S) × (serve_round service w s ≡ some t) × IsShorter (length s) t
  unfolding serve_round
  serve_round_at w s (refused unexpected_eof message) e =
      (ended service w [] closed, rw (serve_round, e) refl, tt)
  serve_round_at w s (refused invalid_data message) e =
      (ended service w [] io_error, rw (serve_round, e) refl, tt)
  serve_round_at w s (parsed head after) e =
      let (b, f) =
        read_body_ends (suc (length after)) max_body_bytes (body_plan head.headers) after
          (omega arith) in
      let (t, g, l) = serve_request_at w head after b f in
      (
        t,
        rw (serve_round, e) g,
        Leaves-IsShorter (length after) (length s) t
            (omega (arith, length-parse_request_head service.http (suc (length s)) s e)) l,
      )

  serve_connection_at :
      (fuel n : ℕ) (w : S) (s : List ℕ) (t : Turn S)
      → serve_round service w s ≡ some t
      → IsShorter n t
      → ((w : S) (rest : List ℕ)
          → length rest < n
          → (served : Served S) × (serve_connection service fuel w rest ≡ some served))
      → (served : Served S) × (serve_connection service (suc fuel) w s ≡ some served)
  unfolding serve_connection
  serve_connection_at fuel n w s (returned served) e l h = (served, rw (serve_connection, e) refl)
  serve_connection_at fuel n w s (again w' out rest) e l h =
      let (served, f) = h w' rest l in
      (after_writing service out served, rw (serve_connection, e, f) refl)

  -- With more fuel than the client sends bytes, a connection ends, whatever comes and whatever the
  -- router answers: every round takes at least a byte of what was sent.
  pub serve_connection_ends :
      (fuel : ℕ) (w : S) (s : List ℕ)
      → length s < fuel
      → (served : Served S) × (serve_connection service fuel w s ≡ some served)
  serve_connection_ends zero w s h = ground (arith, h)
  serve_connection_ends (suc fuel) w s h =
      let (p, e) = parse_request_head_ends service.http (suc (length s)) s (omega arith) in
      let (t, f, l) = serve_round_at w s p e in
      serve_connection_at fuel (length s) w s t f l
        (λ w rest less. serve_connection_ends fuel w rest (omega (arith, h, less)))
