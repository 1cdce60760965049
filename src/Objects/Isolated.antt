-- ===== src/Objects/Isolated.antt =====
-- What a request that addresses one path leaves of the files at the others: the handlers of
-- src/handlers/object.rs.
use ferro_s.Base.{
  ℕ, ◌≡◌, ◌≢◌, refl, ap, ◌∙◌, ◌⊎◌, inl, inr, List, some, true, not, Text, codes, Option-cases,
  Bool-cases,
}
use ferro_s.FilePath.{FilePath, safe_join}
use ferro_s.State.{AppState, CacheOps, map_get}
use ferro_s.Headers.{header_text, has_acl_query}
use ferro_s.Api.Documents.{Response, status_only}
use ferro_s.Api.Errors.{no_such_bucket, access_denied, to_response}
use ferro_s.Objects.Disk.{DiskOps, DiskLaws, CopyLaws}
use ferro_s.Objects.Env.{Env, ObjectRequest}
use ferro_s.Objects.Flow.{World, Flow, reply, run}
use ferro_s.Objects.Names.{cache_key, temp_path_for}
use ferro_s.Objects.Resolve.{Resolves}
use ferro_s.Objects.Resolve.Steps.{
  after_some, no_some, after_require, no_require, after_key, no_key, after_bucket, no_bucket,
  after_path, no_path,
}
use ferro_s.Objects.Refused.{
  Refusal, undecoded, unknown, outside, get_refused, delete_refused, put_refused,
}
use ferro_s.Objects.Read.{fresh_entry, get_object, head_object, stat_object}
use ferro_s.Objects.Write.{Chunk, put_object}
use ferro_s.Objects.Write.Others.{put_object-others, put_object-copy_others}
use ferro_s.Objects.Delete.{delete_object}
use ferro_s.Objects.Delete.Outcome.{bytes-delete_object_ne}

-- The request addresses neither `q` nor a path whose uploads have a temporary file there.
pub record Elsewhere {C : Type 0} (env : Env) (state : AppState C) (req : ObjectRequest)
    (q : FilePath) : Type 0 where
  pub apart :
      (key : Text) (storage path : FilePath) → Resolves env state req key storage path → path ≢ q
  pub temp_apart :
      (key : Text) (storage path : FilePath) (n : ℕ)
      → Resolves env state req key storage path
      → temp_path_for env.pid n path ≢ q

module _ {S C : Type 0} (disk : DiskOps S) (cache : CacheOps C) (env : Env) (state : AppState C)
    (req : ObjectRequest) where
  record Resolved : Type 0 where
    key : Text
    storage : FilePath
    path : FilePath
    resolves : Resolves env state req key storage path

  record IsRefused : Type 0 where
    resp : Response
    refusal : Refusal disk cache env state req resp

  -- A request addresses a path, or it is refused.
  resolved_or_refused : Resolved ⊎ IsRefused
  resolved_or_refused = elim (Option-cases (env.decode req.key)) [
    | inl e ↦ inr (record { resp = status_only 400; refusal = undecoded e refl })
    | inr (key, e) ↦ elim (Option-cases (map_get state.storage_map req.bucket)) [
      | inl f ↦ inr (record {
        resp = to_response env.request_id no_such_bucket (some req.bucket);
        refusal = unknown key e f refl;
      })
      | inr (storage, f) ↦ elim (Option-cases (safe_join storage key)) [
        | inl g ↦ inr (record {
          resp = to_response env.request_id access_denied (some key);
          refusal = outside key storage e f g refl;
        })
        | inr (path, g) ↦ inl (record {
          key = key;
          storage = storage;
          path = path;
          resolves = record { decoded = e; configured = f; contained = g };
        })
      ]
    ]
  ]

  world_of :
      {W : Type 0} {resp : Response} {w : W} {r : Flow Response × W} → r ≡ (reply resp, w) → r.1 ≡ w
  world_of h = ap (λ p. p.1) h

  pub get_object-world : (w : World S C) → (run (get_object disk cache env state req) w).1 ≡ w
  unfolding get_object
  get_object-world w = elim resolved_or_refused [
    | inr x ↦ world_of (get_refused disk cache env state req w x.refusal)
    | inl x ↦
        ap (λ (p : Flow Response × World S C). p.1)
          (after_key disk cache env state w req _ x.resolves.decoded
            ∙ after_bucket disk cache env state w req.bucket _ x.resolves.configured
            ∙ after_path disk cache env state w x.storage x.key _ x.resolves.contained)
        ∙ (elim (Option-cases (disk.open_file w.disk x.path)) [
          | inl e ↦ world_of (no_some w _ _ e)
          | inr (bytes, e) ↦
              ap (λ (p : Flow Response × World S C). p.1) (after_some w _ _ e)
              ∙ (elim (Option-cases (disk.metadata w.disk x.path)) [
                | inl f ↦ world_of (no_some w _ _ f)
                | inr (m, f) ↦ world_of (after_some w _ _ f)
              ])
        ])
  ]

  abbrev disk_of : Flow Response × World S C → S
  disk_of p = p.1.disk

  stat_object-disk :
      (key : Text) (w : World S C)
      → (run (stat_object disk cache env state req.bucket key) w).1.disk ≡ w.disk
  unfolding stat_object
  stat_object-disk key w = elim (Option-cases (map_get state.storage_map req.bucket)) [
    | inl f ↦ ap disk_of (no_bucket disk cache env state w req.bucket _ f)
    | inr (storage, f) ↦
        ap disk_of (after_bucket disk cache env state w req.bucket _ f)
        ∙ (elim (Option-cases (safe_join storage key)) [
          | inl g ↦ ap disk_of (no_path disk cache env state w storage key _ g)
          | inr (path, g) ↦
              ap disk_of (after_path disk cache env state w storage key _ g)
              ∙ (elim (Option-cases (disk.metadata w.disk path)) [
                | inl e ↦ ap disk_of (no_some w _ _ e)
                | inr (m, e) ↦ ap disk_of (after_some w _ _ e) ∙ (elim (Bool-cases (not m.is_dir)) [
                  | inl y ↦ ap disk_of (after_require w _ _ y)
                  | inr n ↦ ap disk_of (no_require w _ _ n)
                ])
              ])
        ])
  ]

  pub head_object-disk :
      (w : World S C) → (run (head_object disk cache env state req) w).1.disk ≡ w.disk
  unfolding head_object
  head_object-disk w = elim (Option-cases (env.decode req.key)) [
    | inl e ↦ ap disk_of (no_key disk cache env state w req _ e)
    | inr (key, e) ↦
        ap disk_of (after_key disk cache env state w req _ e)
        ∙ (elim (Option-cases (
            fresh_entry env state.config.stat_cache_ttl_secs
              (cache.get w.cache (cache_key req.bucket key)))) [
                | inl f ↦ rw f (stat_object-disk key w)
                | inr (c, f) ↦ rw f refl
              ])
  ]

  module _ (laws : DiskLaws disk) (copies : CopyLaws disk) (q : FilePath)
      (away : Elsewhere env state req q) where
    pub delete_object-Elsewhere :
        (w : World S C)
        → disk.bytes_at (run (delete_object disk cache env state req) w).1.disk q
          ≡ disk.bytes_at w.disk q
    delete_object-Elsewhere w = elim resolved_or_refused [
      | inr x ↦
          ap (λ p. disk.bytes_at (disk_of p) q)
            (delete_refused disk cache env state req w x.refusal)
      | inl x ↦
          bytes-delete_object_ne disk cache env state laws req w q x.resolves
            (away.apart x.key x.storage x.path x.resolves)
    ]

    acl_write-world :
        (w : World S C) (chunks : List Chunk)
        → has_acl_query req.query ≡ true
        → (run (put_object disk cache env state req chunks) w).1 ≡ w
    unfolding put_object
    acl_write-world w chunks acl = elim (Option-cases (env.decode req.key)) [
      | inl e ↦ world_of (no_key disk cache env state w req _ e)
      | inr (key, e) ↦
          ap (λ (p : Flow Response × World S C). p.1) (after_key disk cache env state w req _ e)
          ∙ (elim (Option-cases (map_get state.storage_map req.bucket)) [
            | inl f ↦ world_of (no_bucket disk cache env state w req.bucket _ f)
            | inr (storage, f) ↦
                ap (λ (p : Flow Response × World S C). p.1)
                  (after_bucket disk cache env state w req.bucket _ f)
                ∙ rw acl refl
          ])
    ]

    pub put_object-Elsewhere :
        (chunks : List Chunk) (w : World S C)
        → disk.bytes_at (run (put_object disk cache env state req chunks) w).1.disk q
          ≡ disk.bytes_at w.disk q
    put_object-Elsewhere chunks w = elim (Bool-cases (has_acl_query req.query)) [
      | inl acl ↦ ap (λ (v : World S C). disk.bytes_at v.disk q) (acl_write-world w chunks acl)
      | inr plain ↦ elim resolved_or_refused [
        | inr x ↦
            ap (λ p. disk.bytes_at (disk_of p) q)
              (put_refused disk cache env state req w chunks plain x.refusal)
        | inl x ↦ elim (Option-cases (header_text req.headers (codes "x-amz-copy-source"))) [
          | inl none_given ↦
              put_object-others disk cache env state laws req chunks q w x.resolves plain none_given
                (away.apart x.key x.storage x.path x.resolves)
                (away.temp_apart x.key x.storage x.path w.counter x.resolves)
          | inr (copy_source, given) ↦
              put_object-copy_others disk cache env state laws copies req chunks q w x.resolves
                plain given (away.apart x.key x.storage x.path x.resolves)
        ]
      ]
    ]
