-- ===== src/Buckets/Tests.antt =====
-- Two buckets of one name, and the properties at that configuration.
use ferro_s.Base.{[], ◌∷◌, none, some, false, true, codes, ◌≡◌, text_eq}
use ferro_s.State.{Config, map_get, build_state}
use ferro_s.Objects.MemCache.{mem_cache}
use ferro_s.Buckets.{head_bucket}
use ferro_s.Buckets.Configured.{map_get-build_state, head_bucket-build_state}

abbrev config : Config
config = record {
  port = 9000;
  endpoint = codes "localhost";
  verbose = false;
  cache_size = 10;
  stat_cache_ttl_secs = 30;
  fsync = true;
  request_timeout_secs = 30;
  prune_empty_dirs = true;
  auth = none;
  buckets =
      record { name = codes "a"; storage = codes "old" ∷ [] }
      ∷ record { name = codes "a"; storage = codes "new" ∷ [] }
      ∷ [];
}

map_get-build_state_example :
    map_get (build_state mem_cache config).storage_map (codes "a") ≡ some (codes "new" ∷ [])
unfolding text_eq
map_get-build_state_example = map_get-build_state mem_cache config (codes "a")

head_bucket-build_state_example :
    (head_bucket (build_state mem_cache config) [] (codes "b")).status ≡ 404
unfolding text_eq
head_bucket-build_state_example = head_bucket-build_state mem_cache config [] (codes "b")
