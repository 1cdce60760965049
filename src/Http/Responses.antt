-- ===== src/Http/Responses.antt =====
-- Response heads of src/blocking_http.rs, as a client reads them.
use ferro_s.Base.{
  ℕ, zero, suc, ◌+◌, ◌<◌, ◌≡◌, refl, sym, ap, ◌∙◌, List, [], ◌∷◌, ◌++◌, Option, none, some, Bool,
  false, Text, codes, All, All-append, append_assoc, arith, length, unwrap_or,
}
use ferro_s.Base.Decimal.{dec, IsDigit}
use ferro_s.Base.Decimal.Roundtrip.{dec-IsDigit}
use ferro_s.Headers.{HeaderMap}
use ferro_s.Http.{read_line}
use ferro_s.Http.Heads.{
  HttpCrate, fields, is_break, read_fields, other_lines, length_line, declared_length,
  connection_value, format_response_head,
}
use ferro_s.Http.Lines.{NoBreak, read_line-crlf}
use ferro_s.Http.Fields.{
  IsField, AllFields, others, field_line, read_fields-line, read_fields-other_lines,
}

pub digits-NoBreak : (s : Text) → All IsDigit s → NoBreak s
digits-NoBreak [] h = tt
digits-NoBreak (c ∷ s) (p, h) = (ground (arith, p), digits-NoBreak s h)

module _ (k : HttpCrate) where
  abbrev pub status_line : ℕ → Text
  status_line status =
      codes "HTTP/1.1 " ++ (dec status ++ (codes " " ++ unwrap_or (k.canonical_reason status) []))

  abbrev pub length_field : Option ℕ → HeaderMap
  length_field none = []
  length_field (some n) = (codes "content-length", some (dec n)) ∷ []

  -- What the crate http takes of the two fields that the head declares itself.
  pub record OwnFields : Type 0 where
    pub connection :
        (keep_alive : Bool)
        → IsField k (codes "Connection") (connection_value k keep_alive) (codes "connection")
    pub length : (n : ℕ) → IsField k (codes "Content-Length") (dec n) (codes "content-length")

  status_line-NoBreak :
      (status : ℕ)
      → NoBreak (unwrap_or (k.canonical_reason status) [])
      → NoBreak (status_line status)
  status_line-NoBreak status h =
      All-append (λ c. is_break c ≡ false) (codes "HTTP/1.1 ") _ (ground arith)
        (All-append (λ c. is_break c ≡ false) (dec status)
          (codes " " ++ unwrap_or (k.canonical_reason status) [])
          (digits-NoBreak (dec status) (dec-IsDigit status)) (refl, h))

  module _ (status : ℕ) (headers : HeaderMap) (body_len : Option ℕ)
      (head_only keep_alive : Bool) where
    abbrev after_status : Text
    after_status = field_line (codes "Connection") (connection_value k keep_alive) (
        length_line k (declared_length k headers body_len head_only)
        ++ (other_lines k headers ++ codes "\r\n"))

    format_response_head-lines :
        format_response_head k status headers body_len head_only keep_alive
        ≡ status_line status ++ (codes "\r\n" ++ after_status)
    unfolding format_response_head
    format_response_head-lines =
        ap (λ s. codes "HTTP/1.1 " ++ s)
          (sym (
            append_assoc (dec status) (codes " " ++ unwrap_or (k.canonical_reason status) [])
              (codes "\r\n" ++ after_status)))

    read_fields-length_line :
        (fuel : ℕ) (acc : HeaderMap) (o : Option ℕ)
        → OwnFields
        → AllFields k headers
        → suc (length headers) < fuel
        → read_fields k fuel acc (length_line k o ++ (other_lines k headers ++ codes "\r\n"))
          ≡ some (fields (acc ++ (length_field o ++ others headers)) [])
    read_fields-length_line zero acc o own all l = ground (arith, l)
    read_fields-length_line (suc fuel) acc none own all l =
        read_fields-other_lines k (suc fuel) acc headers [] all (omega (arith, l))
    read_fields-length_line (suc fuel) acc (some n) own all l =
        ap (λ s. read_fields k (suc fuel) acc (codes "Content-Length: " ++ s))
          (append_assoc (dec n) (codes "\r\n") (other_lines k headers ++ codes "\r\n"))
        ∙ read_fields-line k fuel acc (codes "Content-Length") (dec n)
            (other_lines k headers ++ codes "\r\n") (own.length n)
        ∙ read_fields-other_lines k fuel (acc ++ length_field (some n)) headers [] all
            (omega (arith, l))
        ∙ ap (λ a. some (fields a [])) (append_assoc acc (length_field (some n)) (others headers))

    -- A client that reads a response head, whose values hold no line break and are names and values
    -- that the crate http takes, finds the status line, and then exactly these fields, in order:
    -- `Connection`, the declared length where there is one, and the readable headers but these two.
    -- Nothing follows them: no value can smuggle in a field or an end of the head.
    pub format_response_head-read_fields :
        (fuel : ℕ)
        → OwnFields
        → AllFields k headers
        → NoBreak (unwrap_or (k.canonical_reason status) [])
        → length headers + 2 < fuel
        → ((read_line (format_response_head k status headers body_len head_only keep_alive)).0
            ≡ status_line status ++ codes "\r\n")
          × (read_fields k fuel []
                (read_line (format_response_head k status headers body_len head_only keep_alive)).1
              ≡ some (
                  fields
                    ((codes "connection", some (connection_value k keep_alive))
                      ∷ (length_field (declared_length k headers body_len head_only)
                          ++ others headers))
                    []))
    format_response_head-read_fields zero own all plain l = ground (arith, l)
    format_response_head-read_fields (suc fuel) own all plain l =
        let split =
          ap read_line format_response_head-lines
          ∙ read_line-crlf (status_line status) after_status (status_line-NoBreak status plain) in
        (
          ap (λ (p : List ℕ × List ℕ). p.0) split,
          ap (λ (p : List ℕ × List ℕ). read_fields k (suc fuel) [] p.1) split
              ∙ read_fields-line k fuel [] (codes "Connection") (connection_value k keep_alive)
                  (length_line k (declared_length k headers body_len head_only)
                    ++ (other_lines k headers ++ codes "\r\n"))
                  (own.connection keep_alive)
              ∙ read_fields-length_line fuel
                  ((codes "connection", some (connection_value k keep_alive)) ∷ [])
                  (declared_length k headers body_len head_only) own all (omega (arith, l)),
        )
