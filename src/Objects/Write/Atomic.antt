-- ===== src/Objects/Write/Atomic.antt =====
-- `put_object` of src/handlers/object.rs as a whole, for a request that resolves to a path and is no
-- ACL write and no copy.
use ferro_s.Base.{ℕ, ◌≡◌, refl, ◌⊎◌, inl, inr, List, Option, none, false, Text, codes}
use ferro_s.FilePath.{FilePath}
use ferro_s.State.{AppState, CacheOps}
use ferro_s.Api.Documents.{Response}
use ferro_s.Headers.{header_text, has_acl_query}
use ferro_s.Objects.Disk.{DiskOps, DiskLaws}
use ferro_s.Objects.Env.{Env, ObjectRequest}
use ferro_s.Objects.Resolve.{Resolves}
use ferro_s.Objects.Flow.{World, Flow, reply, next, run, response_of, ◌>>=◌}
use ferro_s.Objects.Ensures.{Outcome}
use ferro_s.Objects.Names.{cache_key}
use ferro_s.Objects.Read.{decoded_key, bucket_storage, object_path}
use ferro_s.Objects.Write.{Chunk, put_body, put_object}
use ferro_s.Objects.Write.Replaced.{Replaced, Succeeded, Failed, put_body-outcome}

module _ {S C : Type 0} (disk : DiskOps S) (cache : CacheOps C) (env : Env)
    (state : AppState C) where
  pub put_object-body :
      (req : ObjectRequest) (chunks : List Chunk) {key : Text} {storage path : FilePath}
      (w : World S C)
      → Resolves env state req key storage path
      → has_acl_query req.query ≡ false
      → header_text req.headers (codes "x-amz-copy-source") ≡ none
      → put_object disk cache env state req chunks w
        ≡ put_body disk cache env state (cache_key req.bucket key) path chunks w
  unfolding put_object decoded_key bucket_storage object_path ◌>>=◌
  put_object-body req chunks w r no_acl no_copy =
      rw r.decoded (rw r.configured (rw no_acl (rw r.contained (rw no_copy))))

  module _ (laws : DiskLaws disk) where
    settled :
        (path : FilePath) (old : Option (List ℕ)) (chunks : List Chunk)
        (r : Flow Response × World S C)
        → Outcome
            (Succeeded disk cache env state laws path old chunks)
            (Failed disk cache env state laws path old chunks)
            r
        → ((response_of r.0).status ≡ 200) × Replaced disk cache env state laws path chunks r.1
          ⊎ ((response_of r.0).status ≡ 500)
            × ((disk.bytes_at r.1.disk path ≡ old)
                ⊎ Replaced disk cache env state laws path chunks r.1
                  × (disk.metadata r.1.disk path ≡ none))
    settled path old chunks (reply resp, w) h = inr h
    settled path old chunks (next resp, w) h = inl h

    -- An upload, by a request that resolves, is no ACL write and no copy, is all or nothing. It
    -- answers 200 with the object replaced by the whole body, which came through to its end; or it
    -- answers 500 with the object as it was, or, where the metadata of the new object could not be
    -- read in the end, with the object replaced by the whole body.
    pub put_object_atomic :
        (req : ObjectRequest) (chunks : List Chunk) {key : Text} {storage path : FilePath}
        (w : World S C)
        → Resolves env state req key storage path
        → has_acl_query req.query ≡ false
        → header_text req.headers (codes "x-amz-copy-source") ≡ none
        → ((run (put_object disk cache env state req chunks) w).0.status ≡ 200)
            × Replaced disk cache env state laws path chunks
                (run (put_object disk cache env state req chunks) w).1
          ⊎ ((run (put_object disk cache env state req chunks) w).0.status ≡ 500)
            × ((disk.bytes_at (run (put_object disk cache env state req chunks) w).1.disk path
                  ≡ disk.bytes_at w.disk path)
                ⊎ Replaced disk cache env state laws path chunks
                    (run (put_object disk cache env state req chunks) w).1
                  × (disk.metadata (run (put_object disk cache env state req chunks) w).1.disk path
                      ≡ none))
    put_object_atomic req chunks {key} {storage} {path} w r no_acl no_copy =
        rw (put_object-body req chunks w r no_acl no_copy) (
          settled path (disk.bytes_at w.disk path) chunks _ (
            (put_body-outcome disk cache env state laws path (disk.bytes_at w.disk path) chunks
                (cache_key req.bucket key)).at
              w refl))
