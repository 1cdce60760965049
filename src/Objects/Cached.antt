-- ===== src/Objects/Cached.antt =====
-- The stat cache between `put_object` and `head_object` of src/handlers/object.rs.
use ferro_s.Base.{
  ℕ, ◌≡◌, refl, sym, ap, ◌∙◌, ◌⊎◌, inl, inr, List, Option, none, some, false, not, Text, codes,
  text_eq, length, Option-cases, Bool-cases, arith,
}
use mathlib.Core.Path.{subst}
use ferro_s.Base.Decimal.{dec}
use ferro_s.Metadata.{Metadata, mod_time, etag}
use ferro_s.FilePath.{FilePath}
use ferro_s.State.{AppState, CacheOps, CacheLaws, CachedStat, map_get}
use ferro_s.Headers.{header_text, has_acl_query}
use ferro_s.Api.Documents.{Response}
use ferro_s.Api.Errors.{to_response}
use ferro_s.Objects.Disk.{DiskOps, DiskLaws, ReadLaws}
use ferro_s.Objects.Env.{Env, ObjectRequest}
use ferro_s.Objects.Flow.{World, Flow, reply, next, run, response_of, ◌>>=◌}
use ferro_s.Objects.Ensures.{Ensures, Outcome}
use ferro_s.Objects.Names.{cache_key}
use ferro_s.Objects.Resolve.{Resolves}
use ferro_s.Objects.Resolve.Steps.{after_key, after_bucket, after_path, after_some, after_require}
use ferro_s.Objects.Read.{is_fresh, fresh_entry, head_response, stat_of, stat_object, head_object}
use ferro_s.Objects.Served.{header_of}
use ferro_s.Objects.Write.{Chunk, put_response, put_object}
use ferro_s.Objects.Write.Upload.{upload_bytes}
use ferro_s.Objects.Write.Replaced.{Replaced, Failed, put_body-with}
use ferro_s.Objects.Write.Atomic.{put_object-body}

fresh_entry-some :
    (later : Env) (ttl : ℕ) (o : Option CachedStat) {c : CachedStat}
    → fresh_entry later ttl o ≡ some c
    → o ≡ some c
unfolding fresh_entry
fresh_entry-some later ttl none h = h
fresh_entry-some later ttl (some c) h = elim (Bool-cases (is_fresh later ttl c)) [
  | inl e ↦ ground (arith, rw e at h)
  | inr e ↦ ground (arith, rw e at h)
]

-- What a HEAD answers of a file: its length and the tag of the time it was changed at.
pub record Tells (size : ℕ) (tag : Text) (resp : Response) : Type 0 where
  pub ok : resp.status ≡ 200
  pub size_header : header_of resp (codes "content-length") ≡ some (dec size)
  pub tag_header : header_of resp (codes "etag") ≡ some tag

head_response-Tells : (later : Env) (c : CachedStat) → Tells c.size c.etag (head_response later c)
unfolding head_response text_eq map_get
head_response-Tells later c = record { ok = refl; size_header = refl; tag_header = refl }

pub same_time :
    (now now' : ℕ) (m : Metadata) {t : ℕ} → m.modified ≡ some t → mod_time now m ≡ mod_time now' m
unfolding mod_time
same_time now now' m h = rw h refl

told :
    (later when : Env) (m : Metadata) {size : ℕ} {tag : Text}
    → m.len ≡ size
    → etag (mod_time when.now m) m.len ≡ tag
    → Tells size tag (head_response later (stat_of when m))
unfolding stat_of
told later when m {size} {tag} len same =
    let told_of = head_response-Tells later (stat_of when m) in
    record {
      ok = told_of.ok;
      size_header = told_of.size_header ∙ ap (λ n. some (dec n)) len;
      tag_header = told_of.tag_header ∙ ap (λ x. some x) same;
    }

module _ {S C : Type 0} (disk : DiskOps S) (cache : CacheOps C) (env : Env) (state : AppState C)
    (laws : DiskLaws disk) (cache_laws : CacheLaws cache) (path : FilePath) where
  -- What is cached under the key, if anything, is the stat of the file, whose tag the response has.
  pub record Primed (key : Text) (resp : Response) (w : World S C) : Type 0 where
    pub meta : Metadata
    pub stat : disk.metadata w.disk path ≡ some meta
    pub cached : (u : CachedStat) → cache.get w.cache key ≡ some u → u ≡ stat_of env meta
    pub tagged : header_of resp (codes "etag") ≡ some (etag (mod_time env.now meta) meta.len)

  module _ (old : Option (List ℕ)) (chunks : List Chunk) (key : Text) where
    abbrev pub Put : Response → World S C → Type 0
    Put resp w = Replaced disk cache env state laws path chunks w × Primed key resp w

    put_response-Put :
        Ensures
          (Replaced disk cache env state laws path chunks)
          (put_response disk cache env state key path)
          Put
          (Failed disk cache env state laws path old chunks)
    unfolding put_response ◌>>=◌ to_response map_get text_eq
    put_response-Put = record {
      at = λ w h. elim (Option-cases (disk.metadata w.disk path)) [
        | inl e ↦ rw e (refl, inr (h, e))
        | inr (m, e) ↦ rw e (
          record { holds = h.holds; complete = h.complete },
          record {
            meta = m;
            stat = e;
            cached = λ u f. cache_laws.get-insert_self w.cache key (stat_of env m) f;
            tagged = refl;
          },
        )
      ];
    }

    settled :
        (r : Flow Response × World S C)
        → (response_of r.0).status ≡ 200
        → Outcome Put (Failed disk cache env state laws path old chunks) r
        → Put (response_of r.0) r.1
    settled (reply resp, w) e h = let differ : 500 ≡ 200 = sym h.0 ∙ e in ground (arith, differ)
    settled (next resp, w) e h = h

  pub put_object-Put :
      (req : ObjectRequest) (chunks : List Chunk) {key : Text} {storage : FilePath} (w : World S C)
      → Resolves env state req key storage path
      → has_acl_query req.query ≡ false
      → header_text req.headers (codes "x-amz-copy-source") ≡ none
      → (run (put_object disk cache env state req chunks) w).0.status ≡ 200
      → Put
          (disk.bytes_at w.disk path)
          chunks
          (cache_key req.bucket key)
          (run (put_object disk cache env state req chunks) w).0
          (run (put_object disk cache env state req chunks) w).1
  put_object-Put req chunks {key} w r plain fresh ok =
      let body = put_object-body disk cache env state req chunks w r plain fresh in
      let old = disk.bytes_at w.disk path in
      let k = cache_key req.bucket key in
      subst (λ (p : Flow Response × World S C). Put old chunks k (response_of p.0) p.1) (sym body)
        (settled old chunks k _
          (ap (λ (p : Flow Response × World S C). (response_of p.0).status) (sym body) ∙ ok)
          ((put_body-with disk cache env state laws path old chunks k
              (put_response-Put old chunks k)).at
            w refl))

  stat_object-stat :
      (later : Env) (req : ObjectRequest) {key : Text} {storage : FilePath} (w : World S C)
      {m : Metadata}
      → Resolves later state req key storage path
      → disk.metadata w.disk path ≡ some m
      → m.is_dir ≡ false
      → (run (stat_object disk cache later state req.bucket key) w).0
        ≡ head_response later (stat_of later m)
  unfolding stat_object
  stat_object-stat later req {key} {storage} w {m} r stat file =
      ap (λ (p : Flow Response × World S C). response_of p.0)
        (after_bucket disk cache later state w req.bucket _ r.configured
          ∙ after_path disk cache later state w storage key _ r.contained
          ∙ after_some w _ _ stat
          ∙ after_require w _ _ (ap not file))

  -- A HEAD whose answer, if cached, is the stat of the file at some time, answers with a stat of it.
  head_object-stat :
      (later : Env) (req : ObjectRequest) {key : Text} {storage : FilePath} (w : World S C)
      {m : Metadata}
      → Resolves later state req key storage path
      → disk.metadata w.disk path ≡ some m
      → m.is_dir ≡ false
      → ((u : CachedStat)
          → cache.get w.cache (cache_key req.bucket key) ≡ some u
          → u ≡ stat_of env m)
      → ((run (head_object disk cache later state req) w).0 ≡ head_response later (stat_of env m))
        ⊎ ((run (head_object disk cache later state req) w).0
            ≡ head_response later (stat_of later m))
  unfolding head_object
  head_object-stat later req {key} w {m} r stat file cached =
      let ttl = state.config.stat_cache_ttl_secs in
      let entry = cache.get w.cache (cache_key req.bucket key) in
      let start = after_key disk cache later state w req _ r.decoded in
      elim (Option-cases (fresh_entry later ttl entry)) [
        | inl e ↦ inr (
            ap (λ (p : Flow Response × World S C). response_of p.0) start
            ∙ rw e (stat_object-stat later req w r stat file))
        | inr (c, e) ↦ inl (
            ap (λ (p : Flow Response × World S C). response_of p.0) start
            ∙ rw e (ap (head_response later) (cached c (fresh_entry-some later ttl entry e))))
      ]

  -- A HEAD of an object that was just uploaded, by a PUT answered 200 that is no ACL write and no
  -- copy, answers 200 with the length of the upload and the entity tag the PUT answered with,
  -- whenever it comes and whether the stat cache still answers it or not.
  pub head_object-put_object :
      ReadLaws disk
      → (later : Env) (req : ObjectRequest) (chunks : List Chunk) {key : Text} {storage : FilePath}
        (w : World S C)
      → Resolves env state req key storage path
      → Resolves later state req key storage path
      → has_acl_query req.query ≡ false
      → header_text req.headers (codes "x-amz-copy-source") ≡ none
      → (run (put_object disk cache env state req chunks) w).0.status ≡ 200
      → (tag : Text) × (header_of
            (run (put_object disk cache env state req chunks) w).0
            (codes "etag")
          ≡ some tag)
        × Tells
            (length (upload_bytes chunks))
            tag
            (run
              (head_object disk cache later state req)
              (run (put_object disk cache env state req chunks) w).1).0
  head_object-put_object meta_laws later req chunks {key} w r r' plain fresh ok =
      let done = (run (put_object disk cache env state req chunks) w).1 in
      let (object, primed) = put_object-Put req chunks w r plain fresh ok in
      let m = primed.meta in
      let (t, kept) = meta_laws.modified done.disk path object.holds primed.stat in
      let tag = etag (mod_time env.now m) m.len in
      let size = meta_laws.len done.disk path object.holds primed.stat in
      (
        tag,
        primed.tagged,
        elim (head_object-stat later req done r' primed.stat
            (meta_laws.no_dir done.disk path object.holds primed.stat) primed.cached) [
              | inl e ↦
                  subst (Tells (length (upload_bytes chunks)) tag) (sym e)
                    (told later env m size refl)
              | inr e ↦ subst (Tells (length (upload_bytes chunks)) tag) (sym e) (
                  told later later m size
                    (ap (λ x. etag x m.len) (same_time later.now env.now m kept)))
            ],
      )
