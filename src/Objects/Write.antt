-- ===== src/Objects/Write.antt =====
-- `put_object` and `copy_object` of src/handlers/object.rs. A disk call that fails leaves a flag;
-- the handlers test it where the source does.
pub mod TempPath
pub mod Upload
pub mod Replaced
pub mod Atomic
pub mod CopyRefused
pub mod Copied
pub mod Others
use ferro_s.Base.{
  ℕ, List, [], ◌∷◌, Option, none, some, Bool, true, false, not, Text, codes, if◌then◌else◌,
}
use ferro_s.Metadata.{Metadata, mod_time, etag}
use ferro_s.FilePath.{FilePath, parent}
use ferro_s.FilePath.Equal.{path_eq}
use ferro_s.State.{AppState, CacheOps}
use ferro_s.Headers.{header_text, has_acl_query}
use ferro_s.Api.Documents.{Response, empty, copied, status_only}
use ferro_s.Api.Errors.{no_such_key, internal_error, invalid_request}
use ferro_s.Objects.Disk.{DiskOps}
use ferro_s.Objects.Env.{Env, ObjectRequest}
use ferro_s.Objects.Flow.{World, next, Handler, ◌>>=◌, ◌>>◌, answer, some_or, require}
use ferro_s.Objects.Names.{cache_key, temp_path_for, bump, parse_copy_source}
use ferro_s.Objects.Read.{fail, failure, stat_of, decoded_key, bucket_storage, object_path}

-- One item of the request body's stream: a chunk, or the error of a broken upload.
pub data Chunk : Type 0 where
  bytes : List ℕ → Chunk
  broken : Chunk

module _ {S C : Type 0} (disk : DiskOps S) (cache : CacheOps C) (env : Env)
    (state : AppState C) where
  -- A disk call, with its flag.
  abbrev pub call : (S → S × Bool) → Handler (World S C) Bool
  call op w = let (s, ok) = op w.disk in (next ok, record w { disk = s })

  unfoldable pub ensure_parent_dir : FilePath → Handler (World S C) Bool
  ensure_parent_dir path = elim (parent path) [
    | some dir ↦ call (λ s. disk.create_dir_all s dir)
    | none ↦ λ w. (next true, w)
  ]

  unfoldable pub create_retrying_on_pruned_dir : FilePath → FilePath → Handler (World S C) Bool
  unfolding ensure_parent_dir
  create_retrying_on_pruned_dir path temp_path = do
    created ← call (λ s. disk.create s temp_path)
    if created then (λ w. (next true, w)) else do
      again ← ensure_parent_dir path
      if again then call (λ s. disk.create s temp_path) else (λ w. (next false, w))

  -- `let _ = fs::remove_file(&temp_path).await; return InternalError`.
  unfoldable pub abandon : {A : Type 0} → FilePath → Handler (World S C) A
  abandon temp_path = do
    removed ← call (λ s. disk.remove_file s temp_path)
    fail disk cache env state internal_error none

  -- `if !b { abandon }`.
  unfoldable pub or_abandon : FilePath → Bool → Handler (World S C) (Unit {0})
  unfolding abandon
  or_abandon temp_path true = λ w. (next tt, w)
  or_abandon temp_path false = abandon temp_path

  -- The loop over the body's stream.
  unfoldable pub write_chunks : FilePath → List Chunk → Handler (World S C) (Unit {0})
  unfolding or_abandon abandon
  write_chunks temp_path [] = λ w. (next tt, w)
  write_chunks temp_path (broken ∷ chunks) = abandon temp_path
  write_chunks temp_path (bytes b ∷ chunks) = do
    ok ← call (λ s. disk.write_all s temp_path b)
    or_abandon temp_path ok
    write_chunks temp_path chunks

  -- `state.config.fsync && file.sync_all().await.is_err()`.
  unfoldable pub maybe_sync : FilePath → Handler (World S C) Bool
  maybe_sync temp_path =
      if state.config.fsync then call (λ s. disk.sync_all s temp_path) else (λ w. (next true, w))

  -- The upload, from the temporary file to the rename.
  unfoldable pub upload : FilePath → FilePath → List Chunk → Handler (World S C) (Unit {0})
  unfolding create_retrying_on_pruned_dir write_chunks maybe_sync or_abandon
  upload path temp_path chunks = do
    created ← create_retrying_on_pruned_dir path temp_path
    require created (failure disk cache env state internal_error none)
    write_chunks temp_path chunks
    flushed ← call (λ s. disk.flush s temp_path)
    or_abandon temp_path flushed
    synced ← maybe_sync temp_path
    or_abandon temp_path synced
    renamed ← call (λ s. disk.rename s temp_path path)
    or_abandon temp_path renamed

  abbrev pub forget : Text → Handler (World S C) (Unit {0})
  forget key w = (next tt, record w { cache = cache.remove w.cache key })

  -- The stat cache is primed with the metadata of the new object.
  unfoldable pub put_response : Text → FilePath → Handler (World S C) Response
  put_response key path w =
      (do
        m ← some_or (disk.metadata w.disk path) (failure disk cache env state internal_error none)
        λ w'. (
          next (record {
            status = 200;
            headers = (codes "etag", etag (mod_time env.now m) m.len) ∷ [];
            body = empty;
          }),
          record w' { cache = cache.insert w'.cache key (stat_of env m) },
        ))
        w

  unfoldable pub fresh_temp : FilePath → Handler (World S C) FilePath
  fresh_temp path w =
      (next (temp_path_for env.pid w.counter path), record w { counter = bump w.counter })

  unfoldable pub put_body : Text → FilePath → List Chunk → Handler (World S C) Response
  put_body key path chunks = do
    made ← ensure_parent_dir path
    require made (failure disk cache env state internal_error none)
    temp_path ← fresh_temp path
    upload path temp_path chunks
    forget key
    put_response key path

  -- `fs::metadata(&source_path)`, which must be there and no directory.
  abbrev pub is_object : Option Metadata → Bool
  is_object none = false
  is_object (some m) = not m.is_dir

  -- Whether both paths resolve, to one file.
  abbrev pub same_file : Option FilePath → Option FilePath → Bool
  same_file (some a) (some b) = path_eq a b
  same_file (some a) none = false
  same_file none b = false

  -- `fs::copy`, once more if the destination's directory had been pruned.
  unfoldable pub copy_retrying : FilePath → FilePath → Handler (World S C) Bool
  unfolding ensure_parent_dir
  copy_retrying source_path destination_path = do
    done ← call (λ s. disk.copy s source_path destination_path)
    if done then (λ w. (next true, w)) else do
      again ← ensure_parent_dir destination_path
      if again then call (λ s. disk.copy s source_path destination_path) else (λ w. (next false, w))

  unfoldable pub copy_response : FilePath → Handler (World S C) Response
  copy_response path w =
      (do
        m ← some_or (disk.metadata w.disk path) (failure disk cache env state internal_error none)
        λ w'. (
          next (record {
            status = 200;
            headers = (codes "content-type", codes "application/xml") ∷ [];
            body = copied (record {
              last_modified = env.rfc3339 (mod_time env.now m);
              etag = etag (mod_time env.now m) m.len;
            });
          }),
          w',
        ))
        w

  unfoldable pub copy_object : Text → Text → FilePath → Text → Handler (World S C) Response
  copy_object destination_bucket destination_key destination_path copy_source = do
    (source_bucket, source_key) ←
        some_or (parse_copy_source env.decode copy_source) (status_only 400)
    source_storage ← bucket_storage disk cache env state source_bucket
    source_path ← object_path disk cache env state source_storage source_key
    λ w.
        (do
          require (is_object (disk.metadata w.disk source_path))
              (failure disk cache env state no_such_key (some source_key))
          require
              (not (
                same_file (disk.canonicalize w.disk source_path)
                  (disk.canonicalize w.disk destination_path)))
              (failure disk cache env state invalid_request (some destination_key))
          made ← ensure_parent_dir destination_path
          require made (failure disk cache env state internal_error none)
          done ← copy_retrying source_path destination_path
          require done (failure disk cache env state internal_error none)
          forget (cache_key destination_bucket destination_key)
          copy_response destination_path)
          w

  unfoldable pub put_object : ObjectRequest → List Chunk → Handler (World S C) Response
  put_object req chunks = do
    key ← decoded_key disk cache env state req
    storage ← bucket_storage disk cache env state req.bucket
    if has_acl_query req.query then answer (status_only 200) else do
      path ← object_path disk cache env state storage key
      elim (header_text req.headers (codes "x-amz-copy-source")) [
        | some copy_source ↦ copy_object req.bucket key path copy_source
        | none ↦ put_body (cache_key req.bucket key) path chunks
      ]
