-- ===== src/Objects/Served.antt =====
-- The bytes that `get_object` of src/handlers/object.rs serves, against the headers it declares.
use ferro_s.Base.{
  ℕ, zero, suc, ◌+◌, ◌-◌, ◌≤◌, ◌<◌, ◌≡◌, refl, sym, ap, ◌∙◌, ◌⊎◌, inl, inr, List, [], ◌∷◌, ◌++◌,
  Option, some, Bool, false, Text, codes, text_eq, length, take, drop, Option-cases, Bool-cases,
  arith,
}
use mathlib.Core.Path.{subst}
use ferro_s.Base.Decimal.{dec}
use ferro_s.Metadata.{Metadata}
use ferro_s.Range.{RangeRequest, satisfiable, unsatisfiable, invalid, parse_range}
use ferro_s.Range.Bounds.{Fits, parse_range-Fits}
use ferro_s.FilePath.{FilePath}
use ferro_s.State.{AppState, CacheOps, map_get}
use ferro_s.Headers.{header_text, has_acl_query}
use ferro_s.Api.Documents.{Response, Body, empty, whole_file, bytes_of}
use ferro_s.Objects.Disk.{DiskOps}
use ferro_s.Objects.Env.{Env, ObjectRequest}
use ferro_s.Objects.Flow.{World, Flow, reply, run, response_of}
use ferro_s.Objects.Resolve.{Resolves}
use ferro_s.Objects.Resolve.Steps.{after_key, after_bucket, after_path, after_some}
use ferro_s.Objects.Read.{
  full_response, partial_response, unsatisfiable_response, range_response, file_response,
  get_object,
}

-- The bytes of a body that comes from a file.
abbrev pub sent : Body → List ℕ
sent (whole_file bytes) = bytes
sent (bytes_of start len bytes) = take len (drop start bytes)
sent _ = []

length-take : (n : ℕ) (xs : List ℕ) → n ≤ length xs → length (take n xs) ≡ n
length-take zero xs h = refl
length-take (suc n) [] h = ground (arith, h)
length-take (suc n) (x ∷ xs) h = omega (arith, length-take n xs (omega (arith, h)))

length-drop : (n : ℕ) (xs : List ℕ) → length (drop n xs) ≡ length xs - n
length-drop zero xs = omega arith
length-drop (suc n) [] = omega arith
length-drop (suc n) (x ∷ xs) = omega (arith, length-drop n xs)

abbrev pub header_of : Response → Text → Option Text
header_of resp name = map_get resp.headers name

-- The whole object, with its length.
pub record IsWhole (bytes : List ℕ) (resp : Response) : Type 0 where
  pub status : resp.status ≡ 200
  pub all : sent resp.body ≡ bytes
  pub content_length : header_of resp (codes "content-length") ≡ some (dec (length bytes))

-- The bytes from `start` to `end`, of which there is at least one, with their number and their
-- place.
pub record IsPart (bytes : List ℕ) (start end : ℕ) (resp : Response) : Type 0 where
  pub status : resp.status ≡ 206
  pub in_order : start ≤ end
  pub inside : end < length bytes
  pub slice : sent resp.body ≡ take (end - start + 1) (drop start bytes)
  pub count : length (sent resp.body) ≡ end - start + 1
  pub content_length :
      header_of resp (codes "content-length") ≡ some (dec (length (sent resp.body)))
  pub content_range :
      header_of resp (codes "content-range")
      ≡ some (
          codes "bytes "
          ++ (dec start ++ (codes "-" ++ (dec end ++ (codes "/" ++ dec (length bytes))))))

abbrev pub IsUnsatisfiable : Response → Type 0
IsUnsatisfiable resp = (resp.status ≡ 416) × (resp.body ≡ empty)

abbrev pub IsFramed : List ℕ → Response → Type 0
IsFramed bytes resp =
    IsWhole bytes resp ⊎ ((start end : ℕ) × IsPart bytes start end resp) ⊎ IsUnsatisfiable resp

module _ (env : Env) (m : Metadata) (bytes : List ℕ) (size : m.len ≡ length bytes) where
  pub full_response-IsWhole : IsWhole bytes (full_response env m bytes)
  unfolding full_response map_get text_eq
  full_response-IsWhole = record {
    status = refl;
    all = refl;
    content_length = ap (λ n. some (dec n)) size;
  }

  partial_response-IsPart :
      (start end : ℕ)
      → start ≤ end
      → end < m.len
      → IsPart bytes start end (partial_response env m bytes start end)
  unfolding partial_response map_get text_eq
  partial_response-IsPart start end h k =
      let n : length (take (end - start + 1) (drop start bytes)) ≡ end - start + 1 =
        length-take (end - start + 1) (drop start bytes)
          (omega (arith, length-drop start bytes, h, k, size)) in
      record {
        status = refl;
        in_order = h;
        inside = omega (arith, k, size);
        slice = refl;
        count = n;
        content_length = ap (λ n. some (dec n)) (sym n);
        content_range =
            ap
              (λ n.
                some (
                  codes "bytes "
                  ++ (dec start ++ (codes "-" ++ (dec end ++ (codes "/" ++ dec n))))))
              size;
      }

  range_response-IsFramed :
      (seek : ℕ → Bool) (r : RangeRequest)
      → Fits m.len r
      → IsFramed bytes (range_response env m bytes seek r)
  unfolding range_response unsatisfiable_response
  range_response-IsFramed seek (satisfiable start end) f = elim (Bool-cases (seek start)) [
    | inl y ↦ rw y (inr (inl (start, end, partial_response-IsPart start end f.0 f.1)))
    | inr n ↦ rw n (inl full_response-IsWhole)
  ]
  range_response-IsFramed seek unsatisfiable f = inr (inr (refl, refl))
  range_response-IsFramed seek invalid f = inl full_response-IsWhole

  file_response-IsFramed :
      (req : ObjectRequest) (seek : ℕ → Bool)
      → has_acl_query req.query ≡ false
      → IsFramed bytes (file_response env req m bytes seek)
  unfolding file_response
  file_response-IsFramed req seek plain =
      elim (Option-cases (header_text req.headers (codes "range"))) [
        | inl e ↦ rw (file_response, plain, e) (inl full_response-IsWhole)
        | inr (r, e) ↦
            rw (file_response, plain, e)
              (range_response-IsFramed seek (parse_range r m.len) (parse_range-Fits r m.len))
      ]

module _ {S C : Type 0} (disk : DiskOps S) (cache : CacheOps C) (env : Env) (state : AppState C)
    (req : ObjectRequest) {key : Text} {storage path : FilePath} {bytes : List ℕ} {m : Metadata}
    (w : World S C) where
  pub get_object-file :
      Resolves env state req key storage path
      → disk.open_file w.disk path ≡ some bytes
      → disk.metadata w.disk path ≡ some m
      → get_object disk cache env state req w
        ≡ (reply (file_response env req m bytes (disk.seek w.disk path)), w)
  unfolding get_object
  get_object-file r opened stat =
      after_key disk cache env state w req _ r.decoded
      ∙ after_bucket disk cache env state w req.bucket _ r.configured
      ∙ after_path disk cache env state w storage key _ r.contained
      ∙ after_some w _ _ opened
      ∙ after_some w _ _ stat

  -- A GET that resolves to a file, which opens and whose metadata give its length, and that does
  -- not ask for the ACL, changes nothing and is answered with the whole file (200), with the bytes
  -- of a range that lies inside it and is not empty (206), or with none (416). The `Content-Length`
  -- of the first two is the number of bytes that are sent, and the `Content-Range` of a part says
  -- where its bytes stand, whatever the Range header.
  pub get_object-IsFramed :
      Resolves env state req key storage path
      → disk.open_file w.disk path ≡ some bytes
      → disk.metadata w.disk path ≡ some m
      → m.len ≡ length bytes
      → has_acl_query req.query ≡ false
      → IsFramed bytes (run (get_object disk cache env state req) w).0
        × ((run (get_object disk cache env state req) w).1 ≡ w)
  get_object-IsFramed r opened stat size plain =
      let e = get_object-file r opened stat in
      (
        subst (λ (p : Flow Response × World S C). IsFramed bytes (response_of p.0)) (sym e)
            (file_response-IsFramed env m bytes size req (disk.seek w.disk path) plain),
        ap (λ (p : Flow Response × World S C). p.1) e,
      )
