-- ===== src/Http/Requests.antt =====
-- Requests as a client writes them, read by `parse_request_head`, `body_plan` and `read_body` of
-- src/blocking_http.rs.
use ferro_s.Base.{
  ℕ, ◌<◌, ◌≤◌, ◌≡◌, refl, ap, ◌∙◌, List, [], ◌∷◌, ◌++◌, some, true, false, Text, codes, is_empty,
  length-append, All, All-append, append_assoc, arith, trim, length, text_eq, ◌==◌, ltb, take, drop,
  u64_mod, is_whitespace,
}
use ferro_s.Base.Strings.{trim_start, trim_end}
use ferro_s.Base.Strings.Laws.{IsInk}
use ferro_s.Base.Decimal.{dec}
use ferro_s.Base.Decimal.Roundtrip.{parse_uint-dec, trim-dec}
use ferro_s.Headers.{HeaderMap, header_text}
use ferro_s.Http.{read_body, ok}
use ferro_s.Http.Heads.{
  HttpCrate, parsed, is_break, parse_request_head, parse_words, split_whitespace, body_plan,
  says_chunked, fixed_plan,
}
use ferro_s.Http.Lines.{
  NoBreak, read_line-crlf, trim_breaks-append, split_whitespace-append, split_whitespace-word,
}
use ferro_s.Http.Fields.{AreFields, field_lines, header_map, read_fields-field_lines}

abbrev pub request_line : Text → Text → Text
request_line method target = method ++ (b' ' ∷ (target ++ (b' ' ∷ codes "HTTP/1.1")))

abbrev pub request_text : Text → Text → List (Text × Text) → List ℕ → List ℕ
request_text method target hs body =
    request_line method target ++ (codes "\r\n" ++ field_lines hs (codes "\r\n" ++ body))

ink-NoBreak : (s : Text) → All IsInk s → NoBreak s
ink-NoBreak [] h = tt
ink-NoBreak (c ∷ s) (p, h) = (unfold is_whitespace in ground (arith, p), ink-NoBreak s h)

trim_end-cons :
    (c : ℕ) (s t : Text)
    → trim_end s ≡ t
    → is_whitespace c ≡ false
    → is_empty (trim_end (c ∷ s)) ≡ false
unfolding trim_end
trim_end-cons c s [] e h = rw (e, h) refl
trim_end-cons c s (d ∷ t) e h = rw e refl

trim_end-first : (c : ℕ) (s : Text) → is_whitespace c ≡ false → is_empty (trim_end (c ∷ s)) ≡ false
trim_end-first c s h = trim_end-cons c s (trim_end s) refl h

trim-first : (c : ℕ) (s : Text) → is_whitespace c ≡ false → is_empty (trim (c ∷ s)) ≡ false
unfolding trim trim_start
trim-first c s h = rw h (trim_end-first c s h)

trim-word : (w t : Text) → is_empty w ≡ false → All IsInk w → is_empty (trim (w ++ t)) ≡ false
trim-word [] t ne h = ground (arith, ne)
trim-word (c ∷ w) t ne (p, h) = trim-first c (w ++ t) p

-- A word of a request line.
pub record IsWord (s : Text) : Type 0 where
  pub not_empty : is_empty s ≡ false
  pub ink : All IsInk s

http11-IsWord : IsWord (codes "HTTP/1.1")
unfolding is_whitespace
http11-IsWord = record { not_empty = refl; ink = ground arith }

module _ (method target : Text) (m : IsWord method) (t : IsWord target) where
  request_line-NoBreak : NoBreak (request_line method target)
  request_line-NoBreak =
      All-append (λ c. is_break c ≡ false) method (b' ' ∷ (target ++ (b' ' ∷ codes "HTTP/1.1")))
        (ink-NoBreak method m.ink)
        (
          refl,
          All-append (λ c. is_break c ≡ false) target (b' ' ∷ codes "HTTP/1.1")
              (ink-NoBreak target t.ink) (refl, ink-NoBreak (codes "HTTP/1.1") http11-IsWord.ink),
        )

  split_whitespace-request_line :
      split_whitespace (request_line method target) ≡ method ∷ target ∷ codes "HTTP/1.1" ∷ []
  split_whitespace-request_line =
      split_whitespace-append method (target ++ (b' ' ∷ codes "HTTP/1.1")) m.not_empty m.ink
      ∙ ap (λ ws. method ∷ ws)
          (split_whitespace-append target (codes "HTTP/1.1") t.not_empty t.ink
            ∙ ap (λ ws. target ∷ ws)
                (split_whitespace-word (codes "HTTP/1.1") http11-IsWord.not_empty
                  http11-IsWord.ink))

  not_blank : is_empty (trim (request_line method target ++ codes "\r\n")) ≡ false
  not_blank =
      ap (λ s. is_empty (trim s))
        (append_assoc method (b' ' ∷ (target ++ (b' ' ∷ codes "HTTP/1.1"))) (codes "\r\n"))
      ∙ trim-word method _ m.not_empty m.ink

  -- A request line is read as its words.
  parse_request_head-line :
      (k : HttpCrate) (fuel : ℕ) (rest : List ℕ)
      → parse_request_head k fuel (request_line method target ++ (codes "\r\n" ++ rest))
        ≡ parse_words k fuel (method ∷ target ∷ codes "HTTP/1.1" ∷ []) rest
  unfolding parse_request_head
  parse_request_head-line k fuel rest =
      rw
        (
          read_line-crlf (request_line method target) rest request_line-NoBreak,
          not_blank,
          trim_breaks-append (request_line method target) request_line-NoBreak,
          split_whitespace-request_line,
        )
        refl

  -- A head as a client writes it, with a method that the crate http knows and fields that it takes
  -- under their own names, is read back whole, and the reader stands at the body.
  pub parse_request_head-request_text :
      (k : HttpCrate) (fuel : ℕ) (hs : List (Text × Text)) (body : List ℕ)
      → k.method method ≡ some method
      → AreFields k hs
      → length hs < fuel
      → parse_request_head k fuel (request_text method target hs body)
        ≡ some (
            parsed
              (record { method = method; target = target; headers = header_map hs; http11 = true })
              body)
  unfolding parse_words text_eq
  parse_request_head-request_text k fuel hs body e h l =
      parse_request_head-line k fuel (field_lines hs (codes "\r\n" ++ body))
      ∙ (rw (parse_words, e, read_fields-field_lines k fuel [] hs body h l) refl)

drop-length-append : (s t : List ℕ) → drop (length s) (s ++ t) ≡ t
drop-length-append [] t = refl
drop-length-append (c ∷ s) t = drop-length-append s t

take-length-append : (s t : List ℕ) → take (length s) (s ++ t) ≡ s
take-length-append [] t = refl
take-length-append (c ∷ s) t = ap (λ l. c ∷ l) (take-length-append s t)

long_enough : (s t : List ℕ) → ltb (length (s ++ t)) (length s) ≡ false
long_enough s t = ground (arith, length-append s t)

body_plan-length :
    (headers : HeaderMap) (n : ℕ)
    → says_chunked (header_text headers (codes "transfer-encoding")) ≡ false
    → header_text headers (codes "content-length") ≡ some (dec n)
    → n < u64_mod
    → body_plan headers ≡ fixed_plan (some n)
unfolding body_plan
body_plan-length headers n c e h = rw (c, e, trim-dec n, parse_uint-dec n h) refl

read_body-exact :
    (fuel limit : ℕ) (body rest : List ℕ)
    → length body ≤ limit
    → read_body fuel (body ++ rest) (fixed_plan (some (length body))) limit ≡ some (ok body rest)
unfolding read_body
read_body-exact fuel limit [] rest h = refl
read_body-exact fuel limit (c ∷ body) rest h =
    let fits : ltb limit (length (c ∷ body)) ≡ false = ground (arith, h) in
    let some_bytes : (length (c ∷ body) == 0) ≡ false = ground arith in
    rw
      (
        some_bytes,
        fits,
        long_enough (c ∷ body) rest,
        take-length-append (c ∷ body) rest,
        drop-length-append (c ∷ body) rest,
      )
      refl

-- A body that its head declares with a `Content-Length` is read whole, up to the limit, and the
-- reader stands at what follows it.
pub read_body-body_plan :
    (fuel limit : ℕ) (headers : HeaderMap) (body rest : List ℕ)
    → says_chunked (header_text headers (codes "transfer-encoding")) ≡ false
    → header_text headers (codes "content-length") ≡ some (dec (length body))
    → length body ≤ limit
    → limit < u64_mod
    → read_body fuel (body ++ rest) (body_plan headers) limit ≡ some (ok body rest)
read_body-body_plan fuel limit headers body rest c e h small =
    ap (λ p. read_body fuel (body ++ rest) p limit)
      (body_plan-length headers (length body) c e (omega (arith, h, small)))
    ∙ read_body-exact fuel limit body rest h
