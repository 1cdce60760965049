-- ===== src/Objects/Gone.antt =====
-- A DELETE and the HEAD that comes after it: `delete_object` and `head_object` of
-- src/handlers/object.rs.
use ferro_s.Base.{
  ◌≡◌, ap, ◌∙◌, ◌∷◌, inl, inr, none, some, true, not, Text, length, Option-cases, arith,
}
use ferro_s.FilePath.{FilePath}
use ferro_s.State.{AppState, CacheOps, CacheLaws}
use ferro_s.Api.Documents.{Response}
use ferro_s.Api.Errors.{no_such_key, to_response}
use ferro_s.Objects.Disk.{DiskOps, DiskLaws, ReadLaws}
use ferro_s.Objects.Env.{Env, ObjectRequest}
use ferro_s.Objects.Flow.{World, Flow, reply, run, response_of}
use ferro_s.Objects.Names.{cache_key}
use ferro_s.Objects.Resolve.{Resolves}
use ferro_s.Objects.Resolve.Steps.{
  after_key, after_bucket, after_path, after_some, no_some, no_require,
}
use ferro_s.Objects.Read.{fresh_entry, stat_object, head_object}
use ferro_s.Objects.Delete.Outcome.{after_delete, bytes-delete_object_self, cache-delete_object}

module _ {S C : Type 0} (disk : DiskOps S) (cache : CacheOps C) (env : Env) (state : AppState C)
    (read_laws : ReadLaws disk) (req : ObjectRequest) {key : Text} {storage path : FilePath}
    (r : Resolves env state req key storage path) where
  stat_object-gone :
      (w : World S C)
      → disk.bytes_at w.disk path ≡ none
      → stat_object disk cache env state req.bucket key w
        ≡ (reply (to_response env.request_id no_such_key (some key)), w)
  unfolding stat_object
  stat_object-gone w gone =
      after_bucket disk cache env state w req.bucket _ r.configured
      ∙ after_path disk cache env state w storage key _ r.contained
      ∙ (elim (Option-cases (disk.metadata w.disk path)) [
        | inl e ↦ no_some w _ _ e
        | inr (m, e) ↦
            after_some w _ _ e ∙ no_require w _ _ (ap not (read_laws.gone w.disk path gone e))
      ])

  head_object-gone :
      (w : World S C)
      → cache.get w.cache (cache_key req.bucket key) ≡ none
      → disk.bytes_at w.disk path ≡ none
      → run (head_object disk cache env state req) w
        ≡ (to_response env.request_id no_such_key (some key), w)
  unfolding head_object fresh_entry
  head_object-gone w forgotten gone =
      let answer : Flow Response × World S C =
        (reply (to_response env.request_id no_such_key (some key)), w) in
      let found : head_object disk cache env state req w ≡ answer =
        after_key disk cache env state w req _ r.decoded ∙ rw forgotten (stat_object-gone w gone) in
      ap (λ (p : Flow Response × World S C). (response_of p.0, p.1)) found

module _ {S C : Type 0} (disk : DiskOps S) (cache : CacheOps C) (env : Env) (state : AppState C)
    (laws : DiskLaws disk) (cache_laws : CacheLaws cache) (read_laws : ReadLaws disk) where
  -- After a DELETE that resolves and removes the file, a HEAD of the same request answers
  -- NoSuchKey, whenever it comes: the stat cache does not answer for the file that is gone. Nothing
  -- changes then.
  pub head_object-delete_object :
      (later : Env) (req : ObjectRequest) {key : Text} {storage path : FilePath} (w : World S C)
      → Resolves env state req key storage path
      → Resolves later state req key storage path
      → (disk.remove_file w.disk path).1 ≡ true
      → run (head_object disk cache later state req) (after_delete disk cache env state req w) ≡ (
        to_response later.request_id no_such_key (some key),
        after_delete disk cache env state req w,
      )
  head_object-delete_object later req {key} {storage} {path} w r r' removed =
      let k = cache_key req.bucket key in
      head_object-gone disk cache later state read_laws req r'
        (after_delete disk cache env state req w)
        (cache-delete_object disk cache env state cache_laws req w (0 ∷ k) r removed
          (λ e. ground (arith, ap (λ (t : Text). length t) e))).0
        (bytes-delete_object_self disk cache env state laws req w r removed).1
