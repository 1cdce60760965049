-- ===== src/Objects/Refused.antt =====
-- Requests that no object handler of src/handlers/object.rs takes: the key, the bucket or the path
-- is refused.
use ferro_s.Base.{◌⊎◌}
use ferro_s.Base.{
  ◌≡◌, sym, List, ap, ◌∙◌, inl, inr, Option, none, some, true, false, not, Text, split, is_some,
  Option-cases, Bool-cases, if◌then◌else◌, arith,
}
use ferro_s.FilePath.{FilePath, safe_join}
use ferro_s.FilePath.Contained.{has_dots, safe_join-refuses}
use ferro_s.State.{AppState, CacheOps, CachedStat, map_get}
use ferro_s.Headers.{has_acl_query}
use ferro_s.Api.Documents.{Response, status_only}
use ferro_s.Api.Errors.{no_such_bucket, access_denied, to_response}
use ferro_s.Objects.Disk.{DiskOps}
use ferro_s.Objects.Env.{Env, ObjectRequest}
use ferro_s.Objects.Flow.{World, Flow, reply, Handler, run, response_of, ◌>>=◌}
use ferro_s.Objects.Names.{cache_key}
use ferro_s.Objects.Resolve.Steps.{after_key, no_key, after_bucket, no_bucket, no_path}
use ferro_s.Objects.Read.{
  fresh_entry, decoded_key, bucket_storage, stat_object, get_object, head_object,
}
use ferro_s.Objects.Write.{Chunk, put_object}
use ferro_s.Objects.Delete.{delete_object}

-- What a request is refused with: its key does not decode, its bucket is not configured, or its key
-- has a part `..` between slashes.
unfoldable pub refusal : {C : Type 0} → Env → AppState C → ObjectRequest → Option Response
refusal env state req = elim (env.decode req.key) [
  | none ↦ some (status_only 400)
  | some key ↦
      if not (is_some (map_get state.storage_map req.bucket))
      then some (to_response env.request_id no_such_bucket (some req.bucket))
      else if has_dots (split b'/' key)
      then some (to_response env.request_id access_denied (some key))
      else none
]

safe_join-dots :
    (storage : FilePath) (key : Text)
    → has_dots (split b'/' key) ≡ true
    → safe_join storage key ≡ none
safe_join-dots storage key h = elim (Option-cases (safe_join storage key)) [
  | inl e ↦ e
  | inr (path, e) ↦ ground (arith, h, safe_join-refuses storage key, e)
]

module _ {S C : Type 0} (disk : DiskOps S) (cache : CacheOps C) (env : Env) (state : AppState C)
    (req : ObjectRequest) where
  -- The three ways to be refused.
  pub data Refusal (resp : Response) : Type 0 where
    undecoded : env.decode req.key ≡ none → status_only 400 ≡ resp → Refusal resp
    unknown :
        (key : Text)
        → env.decode req.key ≡ some key
        → map_get state.storage_map req.bucket ≡ none
        → to_response env.request_id no_such_bucket (some req.bucket) ≡ resp
        → Refusal resp
    outside :
        (key : Text) (storage : FilePath)
        → env.decode req.key ≡ some key
        → map_get state.storage_map req.bucket ≡ some storage
        → safe_join storage key ≡ none
        → to_response env.request_id access_denied (some key) ≡ resp
        → Refusal resp

  refusal-Refusal : {resp : Response} → refusal env state req ≡ some resp → Refusal resp
  unfolding refusal
  refusal-Refusal {resp} h = elim (Option-cases (env.decode req.key)) [
    | inl e ↦ undecoded e (ground (arith, rw (refusal, e) at h))
    | inr (key, e) ↦ elim (Option-cases (map_get state.storage_map req.bucket)) [
      | inl f ↦ unknown key e f (ground (arith, rw (refusal, e, f) at h))
      | inr (storage, f) ↦ elim (Bool-cases (has_dots (split b'/' key))) [
        | inl y ↦
            outside key storage e f (safe_join-dots storage key y)
              (ground (arith, rw (refusal, e, f, y) at h))
        | inr n ↦ ground (arith, rw (refusal, e, f, n) at h)
      ]
    ]
  ]

  -- A handler that resolves its request as all do, and then refuses the same keys.
  refused_by :
      {resp : Response} (w : World S C) (g : Text → FilePath → Handler (World S C) Response)
      → ((key : Text) (storage : FilePath)
          → safe_join storage key ≡ none
          → g key storage w ≡ (reply (to_response env.request_id access_denied (some key)), w))
      → Refusal resp
      → (decoded_key disk cache env state req >>= λ key.
            bucket_storage disk cache env state req.bucket >>= λ storage. g key storage)
          w
        ≡ (reply resp, w)
  refused_by w g h (undecoded e r) =
      no_key disk cache env state w req _ e ∙ ap (λ r. (reply r, w)) r
  refused_by w g h (unknown key e f r) =
      after_key disk cache env state w req _ e
      ∙ no_bucket disk cache env state w req.bucket _ f
      ∙ ap (λ r. (reply r, w)) r
  refused_by w g h (outside key storage e f p r) =
      after_key disk cache env state w req _ e
      ∙ after_bucket disk cache env state w req.bucket _ f
      ∙ h key storage p
      ∙ ap (λ r. (reply r, w)) r

  pub get_refused :
      {resp : Response} (w : World S C)
      → Refusal resp
      → get_object disk cache env state req w ≡ (reply resp, w)
  unfolding get_object
  get_refused w r =
      refused_by w _ (λ key storage p. no_path disk cache env state w storage key _ p) r

  pub delete_refused :
      {resp : Response} (w : World S C)
      → Refusal resp
      → delete_object disk cache env state req w ≡ (reply resp, w)
  unfolding delete_object
  delete_refused w r =
      refused_by w _ (λ key storage p. no_path disk cache env state w storage key _ p) r

  pub put_refused :
      {resp : Response} (w : World S C) (chunks : List Chunk)
      → has_acl_query req.query ≡ false
      → Refusal resp
      → put_object disk cache env state req chunks w ≡ (reply resp, w)
  unfolding put_object
  put_refused w chunks plain r =
      refused_by w _ (λ key storage p. rw plain (no_path disk cache env state w storage key _ p)) r

  pub stat_refused :
      {resp : Response} (w : World S C) (key : Text)
      → env.decode req.key ≡ some key
      → Refusal resp
      → stat_object disk cache env state req.bucket key w ≡ (reply resp, w)
  unfolding stat_object
  stat_refused w key d (undecoded e r) =
      let no_text : some key ≡ none = sym d ∙ e in ground (arith, no_text)
  stat_refused w key d (unknown key' e f r) =
      no_bucket disk cache env state w req.bucket _ f ∙ ap (λ r. (reply r, w)) r
  stat_refused w key d (outside key' storage e f p r) =
      let one : some key' ≡ some key = sym e ∙ d in
      let same : key' ≡ key = ground (arith, one) in
      after_bucket disk cache env state w req.bucket _ f
      ∙ no_path disk cache env state w storage key _ (ap (safe_join storage) (sym same) ∙ p)
      ∙ ap (λ k. (reply (to_response env.request_id access_denied (some k)), w)) (sym same)
      ∙ ap (λ r. (reply r, w)) r

  head_at :
      {resp : Response} (w : World S C) (key : Text)
      → env.decode req.key ≡ some key
      → fresh_entry env state.config.stat_cache_ttl_secs
          (cache.get w.cache (cache_key req.bucket key))
        ≡ none
      → Refusal resp
      → head_object disk cache env state req w ≡ (reply resp, w)
  unfolding head_object
  head_at w key d n r = after_key disk cache env state w req _ d ∙ (rw n (stat_refused w key d r))

  head_undecoded :
      (w : World S C)
      → env.decode req.key ≡ none
      → head_object disk cache env state req w ≡ (reply (status_only 400), w)
  unfolding head_object
  head_undecoded w e = no_key disk cache env state w req _ e

  head_refused :
      {resp : Response} (w : World S C)
      → ((key : Text)
          → env.decode req.key ≡ some key
          → fresh_entry env state.config.stat_cache_ttl_secs
              (cache.get w.cache (cache_key req.bucket key))
            ≡ none)
      → Refusal resp
      → head_object disk cache env state req w ≡ (reply resp, w)
  head_refused w stale (undecoded e r) = head_undecoded w e ∙ ap (λ r. (reply r, w)) r
  head_refused w stale (unknown key e f r) = head_at w key e (stale key e) (unknown key e f r)
  head_refused w stale (outside key storage e f p r) =
      head_at w key e (stale key e) (outside key storage e f p r)

  ran :
      {resp : Response} {w : World S C} (m : Handler (World S C) Response)
      → m w ≡ (reply resp, w)
      → run m w ≡ (resp, w)
  ran m h = ap (λ (p : Flow Response × World S C). (response_of p.0, p.1)) h

  -- The stat cache has a fresh entry under the key of the request.
  pub record IsCached (w : World S C) : Type 0 where
    key : Text
    entry : CachedStat
    decoded : env.decode req.key ≡ some key
    fresh :
        fresh_entry env state.config.stat_cache_ttl_secs
          (cache.get w.cache (cache_key req.bucket key))
        ≡ some entry

  head_refused_or_IsCached :
      {resp : Response} (w : World S C)
      → Refusal resp
      → (head_object disk cache env state req w ≡ (reply resp, w)) ⊎ IsCached w
  head_refused_or_IsCached w r = elim (Option-cases (env.decode req.key)) [
    | inl e ↦ inl (head_refused w (λ key d. absurd (ground (arith, e, d))) r)
    | inr (key, e) ↦
        elim (Option-cases (
          fresh_entry env state.config.stat_cache_ttl_secs
            (cache.get w.cache (cache_key req.bucket key)))) [
              | inl f ↦ inl (head_at w key e f r)
              | inr (c, f) ↦ inr (record { key = key; entry = c; decoded = e; fresh = f })
            ]
  ]

  -- A request whose key does not decode is answered with 400 by all object handlers, one for a
  -- bucket that is not configured with NoSuchBucket, and one whose key has a part `..` between
  -- slashes with AccessDenied, in this order, and nothing changes: every GET and every DELETE;
  -- every HEAD, unless the stat cache has a fresh entry under its key; and every PUT, unless its
  -- query asks for the ACL.
  pub refusal-handlers :
      {resp : Response} (w : World S C) (chunks : List Chunk)
      → refusal env state req ≡ some resp
      → (run (get_object disk cache env state req) w ≡ (resp, w))
        × (run (delete_object disk cache env state req) w ≡ (resp, w))
        × ((run (head_object disk cache env state req) w ≡ (resp, w)) ⊎ IsCached w)
        × ((run (put_object disk cache env state req chunks) w ≡ (resp, w))
            ⊎ (has_acl_query req.query ≡ true))
  refusal-handlers w chunks h =
      let r = refusal-Refusal h in
      (
        ran (get_object disk cache env state req) (get_refused w r),
        ran (delete_object disk cache env state req) (delete_refused w r),
        elim (head_refused_or_IsCached w r) [
          | inl e ↦ inl (ran (head_object disk cache env state req) e)
          | inr c ↦ inr c
        ],
        elim (Bool-cases (has_acl_query req.query)) [
          | inl acl ↦ inr acl
          | inr plain ↦
              inl (ran (put_object disk cache env state req chunks) (put_refused w chunks plain r))
        ],
      )
