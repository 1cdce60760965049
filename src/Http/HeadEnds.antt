-- ===== src/Http/HeadEnds.antt =====
-- The loop of `parse_request_head` of src/blocking_http.rs ends.
use ferro_s.Base.{
  ℕ, zero, suc, ◌<◌, ◌≡◌, refl, List, [], ◌∷◌, ◌++◌, some, Text, codes, is_empty, trim, length,
  Bool-cases, Option-cases, inl, inr, arith,
}
use ferro_s.Headers.{HeaderMap}
use ferro_s.Http.{read_line}
use ferro_s.Http.Framing.{length-read_line, shorter-read_line}
use ferro_s.Http.Heads.{
  HttpCrate, unexpected_eof, invalid_data, ParsedHead, parsed, refused, first_is_http11,
  ParsedFields, fields, malformed, header_field, trim_breaks, read_fields, parse_words,
  parse_request_head, split_whitespace,
}

module _ (k : HttpCrate) where
  after_field :
      (r : ParsedFields) (fuel : ℕ) (acc : HeaderMap) (rest : List ℕ)
      → ((acc : HeaderMap) → (p : ParsedFields) × (read_fields k fuel acc rest ≡ some p))
      → (p : ParsedFields) × ((elim r [
        | malformed message ↦ some (malformed message)
        | fields field _ ↦ read_fields k fuel (acc ++ field) rest
      ])
          ≡ some p)
  after_field (malformed message) fuel acc rest h = (malformed message, refl)
  after_field (fields field left) fuel acc rest h = h (acc ++ field)

  read_fields_ends :
      (fuel : ℕ) (acc : HeaderMap) (s : List ℕ)
      → length s < fuel
      → (p : ParsedFields) × (read_fields k fuel acc s ≡ some p)
  unfolding read_fields
  read_fields_ends zero acc s h = ground (arith, h)
  read_fields_ends (suc fuel) acc [] h = (fields acc [], unfold read_line in refl)
  read_fields_ends (suc fuel) acc (c ∷ s) h = elim (Bool-cases (is_empty (read_line (c ∷ s)).0)) [
    | inl y ↦ (fields acc (read_line (c ∷ s)).1, rw y refl)
    | inr n ↦ elim (Bool-cases (is_empty (trim_breaks (read_line (c ∷ s)).0))) [
      | inl y ↦ (fields acc (read_line (c ∷ s)).1, rw (n, y) refl)
      | inr o ↦
          rw (n, o)
            (after_field (header_field k (trim_breaks (read_line (c ∷ s)).0)) fuel acc
              (read_line (c ∷ s)).1
              (λ acc.
                read_fields_ends fuel acc (read_line (c ∷ s)).1
                  (omega (arith, h, shorter-read_line c s))))
    ]
  ]

  parse_words_at :
      (fuel : ℕ) (m target : Text) (parts : List Text) (rest : List ℕ) {method : Text}
      (p : ParsedFields)
      → k.method m ≡ some method
      → read_fields k fuel [] rest ≡ some p
      → (r : ParsedHead) × (parse_words k fuel (m ∷ target ∷ parts) rest ≡ some r)
  unfolding parse_words
  parse_words_at fuel m target parts rest (malformed message) e f =
      (refused invalid_data message, rw (parse_words, e, f) refl)
  parse_words_at fuel m target parts rest {method} (fields headers after) e f = (
    parsed
        (record {
          method = method;
          target = target;
          headers = headers;
          http11 = first_is_http11 parts;
        })
        after,
    rw (parse_words, e, f) refl,
  )

  parse_words_ends :
      (fuel : ℕ) (words : List Text) (rest : List ℕ)
      → length rest < fuel
      → (r : ParsedHead) × (parse_words k fuel words rest ≡ some r)
  unfolding parse_words
  parse_words_ends fuel [] rest h = (refused invalid_data (codes "missing method"), refl)
  parse_words_ends fuel (m ∷ []) rest h = (refused invalid_data (codes "missing target"), refl)
  parse_words_ends fuel (m ∷ target ∷ parts) rest h = elim (Option-cases (k.method m)) [
    | inl e ↦ (refused invalid_data (codes "invalid method"), rw (parse_words, e) refl)
    | inr (method, e) ↦
        let (p, f) = read_fields_ends fuel [] rest h in
        parse_words_at fuel m target parts rest p e f
  ]

  -- With more fuel than there are bytes, reading a head ends: with the head and the rest of the
  -- bytes, or with an error.
  pub parse_request_head_ends :
      (fuel : ℕ) (s : List ℕ)
      → length s < fuel
      → (r : ParsedHead) × (parse_request_head k fuel s ≡ some r)
  unfolding parse_request_head
  parse_request_head_ends fuel s h = elim (Bool-cases (is_empty (trim (read_line s).0))) [
    | inl y ↦ (refused unexpected_eof (codes "empty request"), rw y refl)
    | inr n ↦ rw n (
        parse_words_ends fuel (split_whitespace (trim_breaks (read_line s).0)) (read_line s).1
          (omega (arith, h, length-read_line s)))
  ]
