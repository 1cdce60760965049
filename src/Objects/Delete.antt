-- ===== src/Objects/Delete.antt =====
-- `delete_object` and `prune_empty_dirs` of src/handlers/object.rs.
pub mod Prune
pub mod Outcome
use ferro_s.Base.{
  ℕ, zero, suc, Option, none, some, Bool, true, false, not, ◌&&◌, Text, if◌then◌else◌, length,
}
use ferro_s.FilePath.{FilePath, parent}
use ferro_s.FilePath.Equal.{path_eq, path_starts_with}
use ferro_s.State.{AppState, CacheOps}
use ferro_s.Api.Documents.{Response, status_only}
use ferro_s.Objects.Disk.{DiskOps}
use ferro_s.Objects.Env.{Env, ObjectRequest}
use ferro_s.Objects.Flow.{World, reply, Handler, ◌>>=◌, ◌>>◌}
use ferro_s.Objects.Names.{cache_key}
use ferro_s.Objects.Read.{decoded_key, bucket_storage, object_path}

module _ {S : Type 0} (disk : DiskOps S) where
  -- The loop of `prune_empty_dirs`. Each round moves to the parent, so the fuel is the number of
  -- the path's components, and one more.
  unfoldable pub prune_from : ℕ → FilePath → FilePath → S → S
  prune_from zero root dir s = s
  prune_from (suc fuel) root dir s = elim (not (path_eq dir root) && path_starts_with dir root) [
    | false ↦ s
    | true ↦
        let (s', removed) = disk.remove_dir s dir in
        elim removed [
          | false ↦ s'
          | true ↦ elim (parent dir) [ none ↦ s' | some above ↦ prune_from fuel root above s' ]
        ]
  ]

  unfoldable pub prune_empty_dirs : FilePath → FilePath → S → S
  unfolding prune_from
  prune_empty_dirs root from s = prune_from (suc (length from)) root from s

  abbrev pub prune_start : Option FilePath → FilePath → S → S
  prune_start none root s = s
  prune_start (some start) root s = prune_empty_dirs root start s

module _ {S C : Type 0} (disk : DiskOps S) (cache : CacheOps C) (env : Env)
    (state : AppState C) where
  -- The removal, and what it does to the cache.
  unfoldable pub remove_object : Text → FilePath → World S C → World S C × Bool
  remove_object key path w =
      let (s, removed) = disk.remove_file w.disk path in
      (
        if removed
            then record w { disk = s; cache = cache.remove w.cache key }
            else record w { disk = s },
        removed,
      )

  unfoldable pub prune_after : FilePath → FilePath → World S C × Bool → World S C
  unfolding prune_empty_dirs
  prune_after storage path (w, removed) =
      if state.config.prune_empty_dirs
      then record w {
        disk = prune_start disk (if removed then parent path else some path) storage w.disk;
      }
      else w

  unfoldable pub delete_object : ObjectRequest → Handler (World S C) Response
  unfolding remove_object prune_after
  delete_object req = do
    key ← decoded_key disk cache env state req
    storage ← bucket_storage disk cache env state req.bucket
    path ← object_path disk cache env state storage key
    λ w. (
      reply (status_only 204),
      prune_after storage path (remove_object (cache_key req.bucket key) path w),
    )
