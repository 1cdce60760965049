-- ===== src/Http/Framing.antt =====
-- `read_body` and `read_chunked` of src/blocking_http.rs.
use ferro_s.Base.{
  ℕ, zero, suc, ◌+◌, ◌%◌, ◌^◌, ◌≤◌, ◌<◌, ◌≡◌, refl, List, [], ◌∷◌, ◌++◌, some, false, length, drop,
  Bool-cases, Option-cases, inl, inr, arith, length-append, length-take_le, ltb, ◌==◌, u64_mod,
}
use ferro_s.Base.Run.{texts}
use ferro_s.Http.{
  BodyPlan, empty, fixed, chunked, ReadBody, ok, failed, panic, read_line, read_exact, chunk_size,
  skip_trailer, read_chunk, read_chunks, read_body,
}

length-drop_le : (n : ℕ) (s : List ℕ) → length (drop n s) ≤ length s
length-drop_le zero s = omega arith
length-drop_le (suc n) [] = omega arith
length-drop_le (suc n) (c ∷ s) = omega (arith, length-drop_le n s)

pub length-read_exact :
    (n : ℕ) (s : List ℕ) {chunk rest : List ℕ}
    → read_exact n s ≡ some (chunk, rest)
    → (length chunk ≤ n) × (length rest ≤ length s)
length-read_exact n s h = ground (arith, length-take_le n s, length-drop_le n s)

pub length-read_line : (s : List ℕ) → length (read_line s).1 ≤ length s
unfolding read_line
length-read_line [] = omega arith
length-read_line (c ∷ s) = ground (arith, length-read_line s)

pub shorter-read_line : (c : ℕ) (s : List ℕ) → length (read_line (c ∷ s)).1 < length (c ∷ s)
unfolding read_line
shorter-read_line c s = ground (arith, length-read_line s)

pub length-read_chunk :
    (body : List ℕ) (size : ℕ) (s : List ℕ) {body' rest : List ℕ}
    → read_chunk body size s ≡ some (body', rest)
    → (length body' ≤ length body + size) × (length rest ≤ length s)
unfolding read_chunk
length-read_chunk body size s {body'} {rest} h = elim (Option-cases (read_exact size s)) [
  | inl e ↦ ground (arith, h, e)
  | inr ((chunk, after), e) ↦ elim (Option-cases (read_exact 2 after)) [
    | inl f ↦ ground (arith, h, e, f)
    | inr ((crlf, left), f) ↦
        let same : some (body ++ chunk, left) ≡ some (body', rest) = rw (e, f) at h in
        ground (
          arith,
          same,
          length-append body chunk,
          length-read_exact size s e,
          length-read_exact 2 after f,
        )
  ]
]

within_limit :
    (limit size n : ℕ)
    → limit < 2 ^ 63
    → n ≤ limit
    → size < 2 ^ 63
    → ltb limit ((n + size) % u64_mod) ≡ false
    → n + size ≤ limit
within_limit limit size n a b c h = ground arith

read_chunks-within :
    (fuel limit : ℕ) (body s : List ℕ) {b rest : List ℕ}
    → limit < 2 ^ 63
    → length body ≤ limit
    → read_chunks fuel limit body s ≡ some (ok b rest)
    → length b ≤ limit
unfolding read_chunks
read_chunks-within zero limit body s a p h = ground (arith, h)
read_chunks-within (suc fuel) limit body s {b} {rest} a p h =
    elim (Option-cases (chunk_size (read_line s).0)) [
      | inl e ↦ ground (arith, h, e)
      | inr (size, e) ↦ elim (Bool-cases (size == 0)) [
        | inl z ↦ ground (arith, h, e, z, p)
        | inr nz ↦ elim (Bool-cases (ltb limit ((length body + size) % u64_mod))) [
          | inl big ↦ ground (arith, h, e, nz, big)
          | inr fits ↦ elim (Bool-cases (ltb size (2 ^ 63))) [
            | inr huge ↦ ground (arith, h, e, nz, fits, huge)
            | inl small ↦ elim (Option-cases (read_chunk body size (read_line s).1)) [
              | inl f ↦ ground (arith, h, e, nz, fits, small, f)
              | inr ((body', left), f) ↦
                  read_chunks-within fuel limit body' left {rest = rest} a
                    (omega (
                      arith,
                      length-read_chunk body size (read_line s).1 f,
                      within_limit limit size (length body) a p (ground (arith, small)) fits,
                    ))
                    (ground (arith, h, e, nz, fits, small, f))
            ]
          ]
        ]
      ]
    ]

-- A request body that is read is never longer than the limit, whatever its framing says, for a limit
-- below 2^63.
pub read_body-within :
    (fuel limit : ℕ) (plan : BodyPlan) (s : List ℕ) {b rest : List ℕ}
    → limit < 2 ^ 63
    → read_body fuel s plan limit ≡ some (ok b rest)
    → length b ≤ limit
unfolding read_body
read_body-within fuel limit empty s a h = ground (arith, h)
read_body-within fuel limit (fixed n) s a h = elim (Bool-cases (ltb limit n)) [
  | inl big ↦ ground (arith, h, big)
  | inr fits ↦ elim (Option-cases (read_exact n s)) [
    | inl e ↦ ground (arith, h, fits, e)
    | inr ((buf, left), e) ↦ ground (arith, h, fits, e, length-read_exact n s e)
  ]
]
read_body-within fuel limit chunked s a h = read_chunks-within fuel limit [] s a (omega arith) h

read_chunks_ends :
    (fuel limit : ℕ) (body s : List ℕ)
    → length s < fuel
    → (r : ReadBody) × (read_chunks fuel limit body s ≡ some r)
unfolding read_chunks
read_chunks_ends zero limit body s h = absurd (omega arith)
read_chunks_ends (suc fuel) limit body [] h =
    (failed, unfold read_chunks read_line chunk_size texts in refl)
read_chunks_ends (suc fuel) limit body (c ∷ s) h =
    elim (Option-cases (chunk_size (read_line (c ∷ s)).0)) [
      | inl e ↦ (failed, rw (read_chunks, e))
      | inr (size, e) ↦ elim (Bool-cases (size == 0)) [
        | inl z ↦ (
          ok body (skip_trailer (suc (length (read_line (c ∷ s)).1)) (read_line (c ∷ s)).1),
          rw (read_chunks, e, z),
        )
        | inr nz ↦ elim (Bool-cases (ltb limit ((length body + size) % u64_mod))) [
          | inl big ↦ (failed, rw (read_chunks, e, nz, big))
          | inr fits ↦ elim (Bool-cases (ltb size (2 ^ 63))) [
            | inr huge ↦ (panic, rw (read_chunks, e, nz, fits, huge))
            | inl small ↦ elim (Option-cases (read_chunk body size (read_line (c ∷ s)).1)) [
              | inl f ↦ (failed, rw (read_chunks, e, nz, fits, small, f))
              | inr ((body', left), f) ↦
                  rw (read_chunks, e, nz, fits, small, f)
                    (read_chunks_ends fuel limit body' left (
                      omega (
                        arith,
                        length-read_chunk body size (read_line (c ∷ s)).1 f,
                        shorter-read_line c s,
                      )))
            ]
          ]
        ]
      ]
    ]

-- With a fuel past the number of bytes that are left, reading a body ends: with the body, an error
-- or a panic.
pub read_body_ends :
    (fuel limit : ℕ) (plan : BodyPlan) (s : List ℕ)
    → length s < fuel
    → (r : ReadBody) × (read_body fuel s plan limit ≡ some r)
unfolding read_body
read_body_ends fuel limit empty s h = (ok [] s, refl)
read_body_ends fuel limit (fixed n) s h = elim (Bool-cases (ltb limit n)) [
  | inl big ↦ (failed, rw big)
  | inr fits ↦ elim (Option-cases (read_exact n s)) [
    | inl e ↦ (failed, rw (fits, e))
    | inr ((buf, left), e) ↦ (ok buf left, rw (fits, e))
  ]
]
read_body_ends fuel limit chunked s h = read_chunks_ends fuel limit [] s h
