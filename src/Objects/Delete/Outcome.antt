-- ===== src/Objects/Delete/Outcome.antt =====
-- `delete_object` of src/handlers/object.rs as a whole, for a request that resolves to a path.
use ferro_s.Base.{
  ◌≡◌, ◌≢◌, refl, ap, ◌∙◌, Option, none, some, Bool, true, Text, if◌then◌else◌, arith, Bool-cases,
  inl, inr, ◌||◌, not,
}
use ferro_s.FilePath.{FilePath, parent}
use ferro_s.FilePath.Equal.{path_eq, path_starts_with}
use ferro_s.State.{AppState, CacheOps, CacheLaws}
use ferro_s.Api.Documents.{Response, status_only}
use ferro_s.Objects.Disk.{DiskOps, DiskLaws}
use ferro_s.Objects.Env.{Env, ObjectRequest}
use ferro_s.Objects.Resolve.{Resolves}
use ferro_s.Objects.Flow.{World, Flow, reply, run, response_of, ◌>>=◌}
use ferro_s.Objects.Names.{cache_key}
use ferro_s.Objects.Read.{decoded_key, bucket_storage, object_path}
use ferro_s.Objects.Delete.{prune_start, remove_object, prune_after, delete_object}
use ferro_s.Objects.Delete.Prune.{bytes-prune_empty_dirs, dir-prune_empty_dirs}

module _ {S C : Type 0} (disk : DiskOps S) (cache : CacheOps C) (env : Env)
    (state : AppState C) where
  delete_object-resolved :
      (req : ObjectRequest) {key : Text} {storage path : FilePath} (w : World S C)
      → Resolves env state req key storage path
      → delete_object disk cache env state req w ≡ (
        reply (status_only 204),
        prune_after disk cache env state storage path
            (remove_object disk cache env state (cache_key req.bucket key) path w),
      )
  unfolding delete_object decoded_key bucket_storage object_path ◌>>=◌
  delete_object-resolved req w r = rw r.decoded (rw r.configured (rw r.contained))

  abbrev pub after_delete : ObjectRequest → World S C → World S C
  after_delete req w = (run (delete_object disk cache env state req) w).1

  -- What the removal and the pruning leave of the world.
  abbrev removal : ObjectRequest → Text → FilePath → World S C → World S C × Bool
  removal req key path w = remove_object disk cache env state (cache_key req.bucket key) path w

  after_delete-resolved :
      (req : ObjectRequest) {key : Text} {storage path : FilePath} (w : World S C)
      → Resolves env state req key storage path
      → after_delete req w ≡ prune_after disk cache env state storage path (removal req key path w)
  after_delete-resolved req w r =
      ap (λ (p : Flow Response × World S C). p.1) (delete_object-resolved req w r)

  cache-prune_after :
      (storage path : FilePath) (w : World S C) (removed : Bool)
      → (prune_after disk cache env state storage path (w, removed)).cache ≡ w.cache
  unfolding prune_after
  cache-prune_after storage path w removed = ground arith

  module _ (laws : DiskLaws disk) where
    bytes-prune_start :
        (start : Option FilePath) (root q : FilePath) (s : S)
        → disk.bytes_at (prune_start disk start root s) q ≡ disk.bytes_at s q
    bytes-prune_start none root q s = refl
    bytes-prune_start (some start) root q s = bytes-prune_empty_dirs disk root laws s start q

    bytes-prune_after :
        (storage path : FilePath) (w : World S C) (removed : Bool) (q : FilePath)
        → disk.bytes_at (prune_after disk cache env state storage path (w, removed)).disk q
          ≡ disk.bytes_at w.disk q
    unfolding prune_after
    bytes-prune_after storage path w removed q = elim (Bool-cases state.config.prune_empty_dirs) [
      | inl y ↦
          rw y (bytes-prune_start (if removed then parent path else some path) storage q w.disk)
      | inr n ↦ rw n
    ]

    disk-remove_object :
        (key : Text) (path : FilePath) (w : World S C)
        → (remove_object disk cache env state key path w).0.disk ≡ (disk.remove_file w.disk path).0
    unfolding remove_object
    disk-remove_object key path w = ground arith

    -- A DELETE that resolves keeps, pruning included, the bytes of every file but the one that its
    -- key names.
    pub bytes-delete_object_ne :
        (req : ObjectRequest) {key : Text} {storage path : FilePath} (w : World S C) (q : FilePath)
        → Resolves env state req key storage path
        → path ≢ q
        → disk.bytes_at (after_delete req w).disk q ≡ disk.bytes_at w.disk q
    bytes-delete_object_ne req {key} {storage} {path} w q r ne =
        ap (λ (v : World S C). disk.bytes_at v.disk q) (after_delete-resolved req w r)
        ∙ bytes-prune_after storage path (removal req key path w).0 (removal req key path w).1 q
        ∙ ap (λ s. disk.bytes_at s q) (disk-remove_object (cache_key req.bucket key) path w)
        ∙ laws.bytes-remove_file_ne w.disk path q ne

    -- A DELETE that resolves and whose removal succeeds leaves no file at the key's path, and
    -- answers 204.
    pub bytes-delete_object_self :
        (req : ObjectRequest) {key : Text} {storage path : FilePath} (w : World S C)
        → Resolves env state req key storage path
        → (disk.remove_file w.disk path).1 ≡ true
        → ((run (delete_object disk cache env state req) w).0 ≡ status_only 204)
          × (disk.bytes_at (after_delete req w).disk path ≡ none)
    bytes-delete_object_self req {key} {storage} {path} w r done = (
      ap (λ (p : Flow Response × World S C). response_of p.0) (delete_object-resolved req w r),
      ap (λ (v : World S C). disk.bytes_at v.disk path) (after_delete-resolved req w r)
          ∙ bytes-prune_after storage path (removal req key path w).0 (removal req key path w).1
              path
          ∙ ap (λ s. disk.bytes_at s path) (disk-remove_object (cache_key req.bucket key) path w)
          ∙ laws.bytes-remove_file_self w.disk path done,
    )

    dir-prune_start :
        (start : Option FilePath) (root q : FilePath) (s : S)
        → (path_eq q root || not (path_starts_with q root)) ≡ true
        → disk.dir_at (prune_start disk start root s) q ≡ disk.dir_at s q
    dir-prune_start none root q s h = refl
    dir-prune_start (some start) root q s h = dir-prune_empty_dirs disk root laws s start q h

    dir-prune_after :
        (storage path : FilePath) (w : World S C) (removed : Bool) (q : FilePath)
        → (path_eq q storage || not (path_starts_with q storage)) ≡ true
        → disk.dir_at (prune_after disk cache env state storage path (w, removed)).disk q
          ≡ disk.dir_at w.disk q
    unfolding prune_after
    dir-prune_after storage path w removed q h = elim (Bool-cases state.config.prune_empty_dirs) [
      | inl y ↦
          rw y (dir-prune_start (if removed then parent path else some path) storage q w.disk h)
      | inr n ↦ rw n
    ]

    -- A DELETE that resolves never takes away the bucket's storage directory, nor any directory
    -- outside it, whether the object was there or not.
    pub dir-delete_object :
        (req : ObjectRequest) {key : Text} {storage path : FilePath} (w : World S C) (q : FilePath)
        → Resolves env state req key storage path
        → (path_eq q storage || not (path_starts_with q storage)) ≡ true
        → disk.dir_at (after_delete req w).disk q ≡ disk.dir_at w.disk q
    dir-delete_object req {key} {storage} {path} w q r h =
        ap (λ (v : World S C). disk.dir_at v.disk q) (after_delete-resolved req w r)
        ∙ dir-prune_after storage path (removal req key path w).0 (removal req key path w).1 q h
        ∙ ap (λ s. disk.dir_at s q) (disk-remove_object (cache_key req.bucket key) path w)
        ∙ laws.dir-remove_file w.disk path q

  module _ (cache_laws : CacheLaws cache) where
    cache-remove_object_self :
        (key : Text) (path : FilePath) (w : World S C)
        → (disk.remove_file w.disk path).1 ≡ true
        → cache.get (remove_object disk cache env state key path w).0.cache key ≡ none
    unfolding remove_object
    cache-remove_object_self key path w done = rw done (cache_laws.get-remove_self w.cache key)

    cache-remove_object_ne :
        (key j : Text) (path : FilePath) (w : World S C)
        → key ≢ j
        → cache.get (remove_object disk cache env state key path w).0.cache j ≡ cache.get w.cache j
    unfolding remove_object
    cache-remove_object_ne key j path w ne = elim (Bool-cases (disk.remove_file w.disk path).1) [
      | inl y ↦ rw y (cache_laws.get-remove_ne w.cache key j ne)
      | inr n ↦ rw n
    ]

    -- After a DELETE that resolves and removed the file, the stat cache holds nothing under the
    -- deleted key, and under every other key what it held before.
    pub cache-delete_object :
        (req : ObjectRequest) {key : Text} {storage path : FilePath} (w : World S C) (j : Text)
        → Resolves env state req key storage path
        → (disk.remove_file w.disk path).1 ≡ true
        → cache_key req.bucket key ≢ j
        → (cache.get (after_delete req w).cache (cache_key req.bucket key) ≡ none)
          × (cache.get (after_delete req w).cache j ≡ cache.get w.cache j)
    cache-delete_object req {key} {storage} {path} w j r done ne =
        let kept =
          ap (λ (v : World S C). v.cache) (after_delete-resolved req w r)
          ∙ cache-prune_after storage path (removal req key path w).0 (removal req key path w).1 in
        (
          ap (λ c. cache.get c (cache_key req.bucket key)) kept
              ∙ cache-remove_object_self (cache_key req.bucket key) path w done,
          ap (λ c. cache.get c j) kept
              ∙ cache-remove_object_ne (cache_key req.bucket key) j path w ne,
        )
