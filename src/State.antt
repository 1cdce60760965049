-- ===== src/State.antt =====
-- The server's configuration and shared state: src/config.rs, src/cache.rs, src/state.rs and
-- `build_state` of src/lib.rs. The stat cache is the crate quick_cache: its operations are the
-- parameters of `CacheOps`, and what the handlers rely on is `CacheLaws`.
use ferro_s.Base.{
  ℕ, List, [], ◌∷◌, Option, none, some, Bool, true, Text, text_eq, ◌≡◌, ◌≢◌, if◌then◌else◌,
  unwrap_or, foldl,
}
use ferro_s.FilePath.{FilePath}

pub record BucketConfig : Type 0 where
  pub name : Text
  pub storage : FilePath

pub record AuthConfig : Type 0 where
  pub access_key : Text
  pub secret_key : Text

pub record Config : Type 0 where
  pub port : ℕ
  pub endpoint : Text
  pub verbose : Bool
  pub cache_size : ℕ
  pub stat_cache_ttl_secs : ℕ
  pub fsync : Bool
  pub request_timeout_secs : ℕ
  pub prune_empty_dirs : Bool
  pub auth : Option AuthConfig
  pub buckets : List BucketConfig

-- A parsed config.yaml, where the fields with a default may be missing.
pub record ConfigFile : Type 0 where
  pub port : ℕ
  pub endpoint : Text
  pub verbose : Bool
  pub cache_size : Option ℕ
  pub stat_cache_ttl_secs : Option ℕ
  pub fsync : Option Bool
  pub request_timeout_secs : Option ℕ
  pub prune_empty_dirs : Option Bool
  pub auth : Option AuthConfig
  pub buckets : List BucketConfig

abbrev pub default_cache_size : ℕ
default_cache_size = 10000

abbrev pub default_stat_cache_ttl_secs : ℕ
default_stat_cache_ttl_secs = 30

abbrev pub default_fsync : Bool
default_fsync = true

abbrev pub default_request_timeout_secs : ℕ
default_request_timeout_secs = 30

abbrev pub default_prune_empty_dirs : Bool
default_prune_empty_dirs = true

unfoldable pub with_defaults : ConfigFile → Config
with_defaults f = record {
  port = f.port;
  endpoint = f.endpoint;
  verbose = f.verbose;
  cache_size = unwrap_or f.cache_size default_cache_size;
  stat_cache_ttl_secs = unwrap_or f.stat_cache_ttl_secs default_stat_cache_ttl_secs;
  fsync = unwrap_or f.fsync default_fsync;
  request_timeout_secs = unwrap_or f.request_timeout_secs default_request_timeout_secs;
  prune_empty_dirs = unwrap_or f.prune_empty_dirs default_prune_empty_dirs;
  auth = f.auth;
  buckets = f.buckets;
}

-- `cached_at` is in nanoseconds of the monotonic clock.
pub record CachedStat : Type 0 where
  pub size : ℕ
  pub mod_time : ℕ
  pub etag : Text
  pub cached_at : ℕ

-- `HashMap::insert` and `get`: the last bucket of a name wins.
unfoldable pub map_insert {ℓ} : {V : Type ℓ} → Text → V → List (Text × V) → List (Text × V)
map_insert k v [] = (k, v) ∷ []
map_insert k v ((j, w) ∷ m) =
    let rest = map_insert k v m in if text_eq j k then (k, v) ∷ m else (j, w) ∷ rest

unfoldable pub map_get {ℓ} : {V : Type ℓ} → List (Text × V) → Text → Option V
map_get [] k = none
map_get ((j, v) ∷ m) k = if text_eq j k then some v else map_get m k

abbrev pub insert_bucket : List (Text × FilePath) → BucketConfig → List (Text × FilePath)
insert_bucket m b = map_insert b.name b.storage m

-- The loop of `build_state`.
unfoldable pub build_storage_map : List BucketConfig → List (Text × FilePath)
build_storage_map bs = foldl insert_bucket [] bs

pub record CacheOps (C : Type 0) : Type 0 where
  pub new : ℕ → C
  pub get : C → Text → Option CachedStat
  pub insert : C → Text → CachedStat → C
  pub remove : C → Text → C

-- An entry may be evicted at any insertion, also the one that is inserted; no other entry changes.
pub record CacheLaws {C : Type 0} (ops : CacheOps C) : Type 0 where
  pub get-new : (n : ℕ) (k : Text) → ops.get (ops.new n) k ≡ none
  pub get-insert_self :
      (c : C) (k : Text) (v : CachedStat) {u : CachedStat}
      → ops.get (ops.insert c k v) k ≡ some u
      → u ≡ v
  pub get-insert_ne :
      (c : C) (k j : Text) (v : CachedStat) {u : CachedStat}
      → k ≢ j
      → ops.get (ops.insert c k v) j ≡ some u
      → ops.get c j ≡ some u
  pub get-remove_self : (c : C) (k : Text) → ops.get (ops.remove c k) k ≡ none
  pub get-remove_ne : (c : C) (k j : Text) → k ≢ j → ops.get (ops.remove c k) j ≡ ops.get c j

pub record AppState (C : Type 0) : Type 0 where
  pub config : Config
  pub cache : C
  pub storage_map : List (Text × FilePath)

unfoldable pub build_state : {C : Type 0} → CacheOps C → Config → AppState C
build_state ops config = record {
  config = config;
  cache = ops.new config.cache_size;
  storage_map = build_storage_map config.buckets;
}
