-- ===== src/Objects/Write/Copied.antt =====
-- What a copy of `copy_object` of src/handlers/object.rs does to the disk and to the cache.
pub mod Steps
use ferro_s.Base.{◌≡◌, ◌≢◌, refl, sym, ◌∙◌, List, some, false, Text, codes, arith}
use ferro_s.Objects.Write.Copied.Steps.{Copies, tested, settled}
use mathlib.Core.Path.{subst}
use ferro_s.FilePath.{FilePath, safe_join}
use ferro_s.State.{AppState, CacheOps, CacheLaws, map_get}
use ferro_s.Headers.{header_text, has_acl_query}
use ferro_s.Api.Documents.{Response}
use ferro_s.Api.Errors.{no_such_key, invalid_request, to_response}
use ferro_s.Objects.Disk.{DiskOps, DiskLaws, CopyLaws}
use ferro_s.Objects.Env.{Env, ObjectRequest}
use ferro_s.Objects.Flow.{World, Flow, run, response_of}
use ferro_s.Objects.Names.{cache_key, parse_copy_source}
use ferro_s.Objects.Resolve.{Resolves}
use ferro_s.Objects.Resolve.Steps.{after_some, after_bucket, after_path}
use ferro_s.Objects.Write.{copy_object, put_object, Chunk}
use ferro_s.Objects.Write.CopyRefused.{put_object-copy}

module _ {S C : Type 0} (disk : DiskOps S) (cache : CacheOps C) (env : Env) (state : AppState C)
    (laws : DiskLaws disk) (copies : CopyLaws disk) (cache_laws : CacheLaws cache) where
  errors :
      (key : Text)
      → ((to_response env.request_id no_such_key (some key)).status ≢ 200)
        × ((to_response env.request_id invalid_request (some key)).status ≢ 200)
  unfolding to_response
  errors key = (λ e. ground (arith, e), λ e. ground (arith, e))

  copy_object-Copies :
      (bucket key copy_source : Text) {source path storage : FilePath}
      {source_bucket source_key : Text} (ne : source ≢ path) (w : World S C)
      → parse_copy_source env.decode copy_source ≡ some (source_bucket, source_key)
      → map_get state.storage_map source_bucket ≡ some storage
      → safe_join storage source_key ≡ some source
      → Copies disk cache env state laws copies cache_laws source path ne w.disk
          (cache_key bucket key)
          (run (copy_object disk cache env state bucket key path copy_source) w).0
          (run (copy_object disk cache env state bucket key path copy_source) w).1
  unfolding copy_object
  copy_object-Copies bucket key copy_source {source} {path} {storage} {source_bucket} {source_key}
        ne w parsed configured contained =
      subst
        (λ (p : Flow Response × World S C).
          Copies disk cache env state laws copies cache_laws source path ne w.disk
            (cache_key bucket key) (response_of p.0) p.1)
        (sym (
          after_some w _ _ parsed
          ∙ after_bucket disk cache env state w source_bucket _ configured
          ∙ after_path disk cache env state w storage source_key _ contained))
        (settled disk cache env state laws copies cache_laws source path ne w.disk
          (cache_key bucket key) _
          ((tested disk cache env state laws copies cache_laws source path ne w.disk
              (cache_key bucket key) _ _ _ _ (errors source_key).0 (errors key).1).at
            w (λ q other. refl)))

  -- A PUT that resolves, is no ACL write and asks for a copy from another path, which resolves too, is answered 200,
  -- and then its path has the bytes of the source and nothing is cached under its key; or it is
  -- answered with an error. Either way every other file, the source among them, is as it was.
  pub put_object-Copies :
      (req : ObjectRequest) (chunks : List Chunk) {key copy_source source_bucket source_key : Text}
      {storage source_storage source path : FilePath} (ne : source ≢ path) (w : World S C)
      → Resolves env state req key storage path
      → has_acl_query req.query ≡ false
      → header_text req.headers (codes "x-amz-copy-source") ≡ some copy_source
      → parse_copy_source env.decode copy_source ≡ some (source_bucket, source_key)
      → map_get state.storage_map source_bucket ≡ some source_storage
      → safe_join source_storage source_key ≡ some source
      → Copies disk cache env state laws copies cache_laws source path ne w.disk
          (cache_key req.bucket key)
          (run (put_object disk cache env state req chunks) w).0
          (run (put_object disk cache env state req chunks) w).1
  put_object-Copies req chunks {key} {copy_source} {source = source} {path} ne w r plain given
        parsed configured contained =
      subst
        (λ (p : Flow Response × World S C).
          Copies disk cache env state laws copies cache_laws source path ne w.disk
            (cache_key req.bucket key) (response_of p.0) p.1)
        (sym (put_object-copy disk cache env state req chunks w r plain given))
        (copy_object-Copies req.bucket key copy_source ne w parsed configured contained)
