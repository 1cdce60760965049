-- ===== src/Connection/Consumed.antt =====
-- What a request takes of the bytes that a connection of src/main.rs holds.
use ferro_s.Base.{
  ℕ, zero, suc, ◌+◌, ◌%◌, ◌^◌, ◌<◌, ◌≤◌, ◌≡◌, refl, List, [], ◌∷◌, ◌++◌, Option, none, some, Text,
  is_empty, trim, length, Bool-cases, Option-cases, inl, inr, arith, ltb, ◌==◌, u64_mod,
}
use ferro_s.Base.Strings.{trim_start, trim_end}
use ferro_s.Headers.{HeaderMap}
use ferro_s.Http.{
  BodyPlan, empty, fixed, chunked, ok, read_line, read_exact, chunk_size, skip_trailer, read_chunk,
  read_chunks, read_body,
}
use ferro_s.Http.Framing.{length-read_line, shorter-read_line, length-read_chunk, length-read_exact}
use ferro_s.Http.Heads.{
  HttpCrate, RequestHead, ParsedFields, parsed, fields, malformed, header_field, trim_breaks,
  read_fields, parse_words, parse_request_head, split_whitespace,
}

length-skip_trailer : (fuel : ℕ) (s : List ℕ) → length (skip_trailer fuel s) ≤ length s
unfolding skip_trailer
length-skip_trailer zero s = omega arith
length-skip_trailer (suc fuel) s = elim (Bool-cases (is_empty (read_line s).0)) [
  | inl y ↦ rw y (length-read_line s)
  | inr n ↦ elim (Bool-cases (is_empty (trim (read_line s).0))) [
    | inl y ↦ rw (n, y) (length-read_line s)
    | inr o ↦
        rw (n, o) (omega (arith, length-skip_trailer fuel (read_line s).1, length-read_line s))
  ]
]

length-read_chunks :
    (fuel limit : ℕ) (body s : List ℕ) {b rest : List ℕ}
    → read_chunks fuel limit body s ≡ some (ok b rest)
    → length rest ≤ length s
unfolding read_chunks
length-read_chunks zero limit body s h = ground (arith, h)
length-read_chunks (suc fuel) limit body s {b} {rest} h =
    elim (Option-cases (chunk_size (read_line s).0)) [
      | inl e ↦ ground (arith, h, e)
      | inr (size, e) ↦ elim (Bool-cases (size == 0)) [
        | inl z ↦ ground (
          arith,
          h,
          e,
          z,
          length-read_line s,
          length-skip_trailer (suc (length (read_line s).1)) (read_line s).1,
        )
        | inr nz ↦ elim (Bool-cases (ltb limit ((length body + size) % u64_mod))) [
          | inl big ↦ ground (arith, h, e, nz, big)
          | inr fits ↦ elim (Bool-cases (ltb size (2 ^ 63))) [
            | inr huge ↦ ground (arith, h, e, nz, fits, huge)
            | inl small ↦ elim (Option-cases (read_chunk body size (read_line s).1)) [
              | inl f ↦ ground (arith, h, e, nz, fits, small, f)
              | inr ((body', left), f) ↦ omega (
                arith,
                length-read_line s,
                length-read_chunk body size (read_line s).1 f,
                length-read_chunks fuel limit body' left {b = b} {rest = rest}
                    (ground (arith, h, e, nz, fits, small, f)),
              )
            ]
          ]
        ]
      ]
    ]

-- A body takes no byte twice.
pub length-read_body :
    (fuel limit : ℕ) (plan : BodyPlan) (s : List ℕ) {b rest : List ℕ}
    → read_body fuel s plan limit ≡ some (ok b rest)
    → length rest ≤ length s
unfolding read_body
length-read_body fuel limit empty s h = ground (arith, h)
length-read_body fuel limit (fixed n) s h = elim (Bool-cases (ltb limit n)) [
  | inl big ↦ ground (arith, h, big)
  | inr fits ↦ elim (Option-cases (read_exact n s)) [
    | inl e ↦ ground (arith, h, fits, e)
    | inr ((buf, left), e) ↦ ground (arith, h, fits, e, length-read_exact n s e)
  ]
]
length-read_body fuel limit chunked s h = length-read_chunks fuel limit [] s h

module _ (k : HttpCrate) where
  length-after_field :
      (r : ParsedFields) (fuel : ℕ) (acc : HeaderMap) (left : List ℕ) {headers : HeaderMap}
      {rest : List ℕ}
      → ((acc : HeaderMap)
          → read_fields k fuel acc left ≡ some (fields headers rest)
          → length rest ≤ length left)
      → (elim r [
        | malformed message ↦ some (malformed message)
        | fields field _ ↦ read_fields k fuel (acc ++ field) left
      ])
        ≡ some (fields headers rest)
      → length rest ≤ length left
  length-after_field (malformed message) fuel acc left h e = ground (arith, e)
  length-after_field (fields field _) fuel acc left h e = h (acc ++ field) e

  length-read_fields :
      (fuel : ℕ) (acc : HeaderMap) (s : List ℕ) {headers : HeaderMap} {rest : List ℕ}
      → read_fields k fuel acc s ≡ some (fields headers rest)
      → length rest ≤ length s
  unfolding read_fields
  length-read_fields zero acc s h = ground (arith, h)
  length-read_fields (suc fuel) acc s {headers} {rest} h =
      elim (Bool-cases (is_empty (read_line s).0)) [
        | inl y ↦ ground (arith, rw y at h, length-read_line s)
        | inr n ↦ elim (Bool-cases (is_empty (trim_breaks (read_line s).0))) [
          | inl y ↦ ground (arith, rw (n, y) at h, length-read_line s)
          | inr o ↦ omega (
            arith,
            length-read_line s,
            length-after_field (header_field k (trim_breaks (read_line s).0)) fuel acc
                (read_line s).1 {rest = rest}
                (λ acc. length-read_fields fuel acc (read_line s).1 {rest = rest}) (rw (n, o) at h),
          )
        ]
      ]

  length-parse_words_at :
      (fuel : ℕ) (m target : Text) (parts : List Text) (left : List ℕ) {method : Text}
      {o : Option ParsedFields} {head : RequestHead} {after : List ℕ}
      → k.method m ≡ some method
      → read_fields k fuel [] left ≡ o
      → ((h : HeaderMap) (r : List ℕ) → o ≡ some (fields h r) → length r ≤ length left)
      → parse_words k fuel (m ∷ target ∷ parts) left ≡ some (parsed head after)
      → length after ≤ length left
  unfolding parse_words
  length-parse_words_at fuel m target parts left {o = none} e f g h =
      ground (arith, rw (parse_words, e, f) at h)
  length-parse_words_at fuel m target parts left {o = some (malformed message)} e f g h =
      ground (arith, rw (parse_words, e, f) at h)
  length-parse_words_at fuel m target parts left {o = some (fields hs r)} e f g h =
      ground (arith, rw (parse_words, e, f) at h, g hs r refl)

  length-parse_words :
      (fuel : ℕ) (words : List Text) (left : List ℕ) {head : RequestHead} {after : List ℕ}
      → parse_words k fuel words left ≡ some (parsed head after)
      → length after ≤ length left
  unfolding parse_words
  length-parse_words fuel [] left h = ground (arith, h)
  length-parse_words fuel (m ∷ []) left h = ground (arith, h)
  length-parse_words fuel (m ∷ target ∷ parts) left {head} {after} h =
      elim (Option-cases (k.method m)) [
        | inl e ↦ ground (arith, rw (parse_words, e) at h)
        | inr (method, e) ↦
            length-parse_words_at fuel m target parts left {head = head} e refl
              (λ hs r e. length-read_fields fuel [] left e) h
      ]

  -- A head takes at least a byte.
  pub length-parse_request_head :
      (fuel : ℕ) (s : List ℕ) {head : RequestHead} {after : List ℕ}
      → parse_request_head k fuel s ≡ some (parsed head after)
      → length after < length s
  unfolding parse_request_head
  length-parse_request_head fuel [] h =
      unfold read_line trim trim_start trim_end in ground (arith, h)
  length-parse_request_head fuel (c ∷ s) {head} {after} h =
      elim (Bool-cases (is_empty (trim (read_line (c ∷ s)).0))) [
        | inl y ↦ ground (arith, rw (parse_request_head, y) at h)
        | inr n ↦ omega (
          arith,
          shorter-read_line c s,
          length-parse_words fuel (split_whitespace (trim_breaks (read_line (c ∷ s)).0))
              (read_line (c ∷ s)).1 {head = head} (rw (parse_request_head, n) at h),
        )
      ]
