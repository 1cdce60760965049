-- ===== src/Objects/Tests.antt =====
-- Requests against a disk and a cache in memory, and the properties at inputs that meet their
-- hypotheses.
mod Answers
mod Stored
use ferro_s.Base.{
  List, [], ◌∷◌, none, some, true, false, codes, ◌≡◌, ◌≢◌, ◌⊎◌, refl, arith, ap, text_eq, length,
  ◌+◌,
}
use ferro_s.Base.Run.{texts}
use ferro_s.FilePath.{
  FilePath, safe_join, components, first_components, body_components, part_component,
  join_components,
}
use ferro_s.FilePath.Equal.{path_eq}
use ferro_s.State.{
  Config, AppState, CachedStat, with_defaults, build_state, build_storage_map, map_insert, map_get,
}
use ferro_s.Api.Documents.{status_only}
use ferro_s.Headers.{header_text, has_acl_query, any_acl}
use ferro_s.Objects.Env.{Env, ObjectRequest}
use ferro_s.Objects.Resolve.{Resolves}
use ferro_s.Objects.Flow.{World, run}
use ferro_s.Objects.Write.{Chunk, bytes, put_object}
use ferro_s.Objects.Write.Replaced.{Replaced}
use ferro_s.Objects.Write.Atomic.{put_object_atomic}
use ferro_s.Objects.Delete.{prune_from, delete_object}
use ferro_s.Objects.Delete.Outcome.{
  after_delete, bytes-delete_object_ne, bytes-delete_object_self, dir-delete_object,
}
use ferro_s.Objects.Delete.Prune.{prune_from-fuel}
use ferro_s.Objects.MemDisk.{MemDisk, mem_disk, mem_disk-DiskLaws}
use ferro_s.Objects.MemCache.{MemCache, mem_cache}

abbrev pub storage : FilePath
storage = codes "data" ∷ []

abbrev pub target : FilePath
target = codes "data" ∷ codes "a" ∷ codes "b" ∷ []

abbrev pub env : Env
env = record {
  decode = λ t. some t;
  http_date = λ t. [];
  rfc3339 = λ t. [];
  now = 0;
  instant = 0;
  pid = 1;
  request_id = [];
}

abbrev pub config : Config
unfolding with_defaults
config = with_defaults (record {
  endpoint = codes "0.0.0.0";
  port = 9000;
  verbose = false;
  cache_size = none;
  stat_cache_ttl_secs = none;
  fsync = none;
  request_timeout_secs = none;
  prune_empty_dirs = some true;
  auth = none;
  buckets = record { name = codes "photos"; storage = storage } ∷ [];
})

abbrev pub state : AppState MemCache
unfolding build_state build_storage_map map_insert
state = build_state mem_cache config

abbrev pub req : ObjectRequest
req = record { bucket = codes "photos"; key = codes "a/b"; query = none; headers = [] }

-- One object, and something cached under its key and another.
abbrev stat : CachedStat
stat = record { size = 1; mod_time = 0; etag = []; cached_at = 0 }

abbrev pub world : World MemDisk MemCache
world = record {
  disk = record { files = (target, 7 ∷ []) ∷ []; dirs = λ p. true };
  cache = (codes "photos/a/b", stat) ∷ (codes "photos/c", stat) ∷ [];
  counter = 0;
}

pub req-Resolves : Resolves env state req (codes "a/b") storage target
unfolding state build_state build_storage_map map_insert config with_defaults map_get safe_join
    components first_components body_components part_component join_components texts
req-Resolves = record { decoded = refl; configured = refl; contained = refl }

pub no_acl : has_acl_query req.query ≡ false
unfolding has_acl_query any_acl
no_acl = refl

pub no_copy : header_text req.headers (codes "x-amz-copy-source") ≡ none
unfolding header_text
no_copy = refl

abbrev pub chunks : List Chunk
chunks = bytes (1 ∷ 2 ∷ []) ∷ bytes (3 ∷ []) ∷ []

abbrev put : World MemDisk MemCache
put = (run (put_object mem_disk mem_cache env state req chunks) world).1

put_object_atomic_example :
    ((run (put_object mem_disk mem_cache env state req chunks) world).0.status ≡ 200)
      × Replaced mem_disk mem_cache env state mem_disk-DiskLaws target chunks put
    ⊎ ((run (put_object mem_disk mem_cache env state req chunks) world).0.status ≡ 500)
      × ((mem_disk.bytes_at put.disk target ≡ some (7 ∷ []))
          ⊎ Replaced mem_disk mem_cache env state mem_disk-DiskLaws target chunks put
            × (mem_disk.metadata put.disk target ≡ none))
unfolding path_eq text_eq
put_object_atomic_example =
    put_object_atomic mem_disk mem_cache env state mem_disk-DiskLaws req chunks world req-Resolves
      no_acl no_copy

pub removed : (mem_disk.remove_file world.disk target).1 ≡ true
unfolding path_eq text_eq
removed = refl

abbrev pub other : FilePath
other = codes "data" ∷ codes "c" ∷ []

pub target-other : target ≢ other
target-other e = ground (arith, ap (λ (p : FilePath). length p) e)

bytes-delete_object_self_example :
    ((run (delete_object mem_disk mem_cache env state req) world).0 ≡ status_only 204)
    × (mem_disk.bytes_at (after_delete mem_disk mem_cache env state req world).disk target ≡ none)
bytes-delete_object_self_example =
    bytes-delete_object_self mem_disk mem_cache env state mem_disk-DiskLaws req world req-Resolves
      removed

bytes-delete_object_ne_example :
    mem_disk.bytes_at (after_delete mem_disk mem_cache env state req world).disk other
    ≡ mem_disk.bytes_at world.disk other
bytes-delete_object_ne_example =
    bytes-delete_object_ne mem_disk mem_cache env state mem_disk-DiskLaws req world other
      req-Resolves target-other

dir-delete_object_example :
    mem_disk.dir_at (after_delete mem_disk mem_cache env state req world).disk storage ≡ true
unfolding path_eq text_eq
dir-delete_object_example =
    dir-delete_object mem_disk mem_cache env state mem_disk-DiskLaws req world storage req-Resolves
      refl

prune_from-fuel_example :
    prune_from mem_disk (4 + 5) storage target world.disk
    ≡ prune_from mem_disk 4 storage target world.disk
prune_from-fuel_example = prune_from-fuel mem_disk storage 4 5 target world.disk (omega arith)
