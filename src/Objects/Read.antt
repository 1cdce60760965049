-- ===== src/Objects/Read.antt =====
-- `get_object` and `head_object` of src/handlers/object.rs.
use ferro_s.Base.{
  ℕ, ◌+◌, ◌-◌, ◌*◌, List, [], ◌∷◌, ◌++◌, Option, none, some, Bool, not, Text, codes, ltb,
  if◌then◌else◌,
}
use ferro_s.Base.Decimal.{dec}
use ferro_s.Metadata.{Metadata, mod_time, etag}
use ferro_s.Range.{RangeRequest, satisfiable, unsatisfiable, invalid, parse_range}
use ferro_s.FilePath.{FilePath, safe_join}
use ferro_s.State.{AppState, CacheOps, CachedStat, map_get}
use ferro_s.Headers.{header_text, has_acl_query}
use ferro_s.Api.Documents.{Response, empty, acl, whole_file, bytes_of, status_only}
use ferro_s.Api.Errors.{
  S3ErrorType, no_such_key, no_such_bucket, access_denied, internal_error, to_response,
}
use ferro_s.Objects.Disk.{DiskOps}
use ferro_s.Objects.Env.{Env, ObjectRequest}
use ferro_s.Objects.Flow.{World, reply, Handler, ◌>>=◌, ◌>>◌, answer, some_or, require}
use ferro_s.Objects.Names.{cache_key}

abbrev pub owner_id : Text
owner_id = codes "75aa57f09aa0c8caeab4f8c24e99d10f8e7faeebf76c078efc7c6caea54ba06a"

abbrev pub object_acl_response : Response
object_acl_response = record {
  status = 200;
  headers = (codes "content-type", codes "application/xml") ∷ [];
  body = acl (record {
    owner_id = owner_id;
    owner_display_name = codes "Owner";
    grantee_xsi_type = codes "CanonicalUser";
    grantee_id = owner_id;
    grantee_display_name = codes "Owner";
    permission = codes "FULL_CONTROL";
  });
}

-- The headers of a cached or fresh stat.
abbrev pub stat_headers : Env → ℕ → ℕ → Text → List (Text × Text)
stat_headers env size time tag =
    (codes "content-length", dec size)
    ∷ (codes "accept-ranges", codes "bytes")
    ∷ (codes "etag", tag)
    ∷ (codes "last-modified", env.http_date time)
    ∷ []

-- The whole file.
unfoldable pub full_response : Env → Metadata → List ℕ → Response
full_response env m bytes = record {
  status = 200;
  headers =
      (codes "content-type", codes "application/octet-stream")
      ∷ stat_headers env m.len (mod_time env.now m) (etag (mod_time env.now m) m.len);
  body = whole_file bytes;
}

unfoldable pub partial_response : Env → Metadata → List ℕ → ℕ → ℕ → Response
partial_response env m bytes start end = record {
  status = 206;
  headers =
      (codes "content-type", codes "application/octet-stream")
      ∷ (codes "content-length", dec (end - start + 1))
      ∷ (
        codes "content-range",
        codes "bytes " ++ (dec start ++ (codes "-" ++ (dec end ++ (codes "/" ++ dec m.len)))),
      )
      ∷ (codes "accept-ranges", codes "bytes")
      ∷ (codes "etag", etag (mod_time env.now m) m.len)
      ∷ (codes "last-modified", env.http_date (mod_time env.now m))
      ∷ [];
  body = bytes_of start (end - start + 1) bytes;
}

unfoldable pub unsatisfiable_response : Metadata → Response
unsatisfiable_response m = record {
  status = 416;
  headers = (codes "content-range", codes "bytes */" ++ dec m.len) ∷ [];
  body = empty;
}

-- The answer to a range request; `seek` says whether seeking to a position succeeds.
unfoldable pub range_response : Env → Metadata → List ℕ → (ℕ → Bool) → RangeRequest → Response
range_response env m bytes seek (satisfiable start end) =
    if seek start then partial_response env m bytes start end else full_response env m bytes
range_response env m bytes seek unsatisfiable = unsatisfiable_response m
range_response env m bytes seek invalid = full_response env m bytes

unfoldable pub file_response : Env → ObjectRequest → Metadata → List ℕ → (ℕ → Bool) → Response
file_response env req m bytes seek =
    if has_acl_query req.query
    then object_acl_response
    else elim (header_text req.headers (codes "range")) [
      | none ↦ full_response env m bytes
      | some range_header ↦ range_response env m bytes seek (parse_range range_header m.len)
    ]

-- `c.cached_at.elapsed() < ttl`, in nanoseconds.
unfoldable pub is_fresh : Env → ℕ → CachedStat → Bool
is_fresh env ttl_secs c = ltb (env.instant - c.cached_at) (ttl_secs * 1000000000)

-- `.filter(…)` on the cache's entry.
unfoldable pub fresh_entry : Env → ℕ → Option CachedStat → Option CachedStat
unfolding is_fresh
fresh_entry env ttl_secs none = none
fresh_entry env ttl_secs (some c) = if is_fresh env ttl_secs c then some c else none

unfoldable pub head_response : Env → CachedStat → Response
head_response env c = record {
  status = 200;
  headers = stat_headers env c.size c.mod_time c.etag;
  body = empty;
}

unfoldable pub stat_of : Env → Metadata → CachedStat
stat_of env m = record {
  size = m.len;
  mod_time = mod_time env.now m;
  etag = etag (mod_time env.now m) m.len;
  cached_at = env.instant;
}

module _ {S C : Type 0} (disk : DiskOps S) (cache : CacheOps C) (env : Env)
    (state : AppState C) where
  abbrev pub fail : {A : Type 0} → S3ErrorType → Option Text → Handler (World S C) A
  fail e resource = answer (to_response env.request_id e resource)

  abbrev pub failure : S3ErrorType → Option Text → Response
  failure e resource = to_response env.request_id e resource

  -- The key, the bucket and the path that every object handler resolves first.
  unfoldable pub decoded_key : ObjectRequest → Handler (World S C) Text
  decoded_key req = some_or (env.decode req.key) (status_only 400)

  unfoldable pub bucket_storage : Text → Handler (World S C) FilePath
  bucket_storage bucket =
      some_or (map_get state.storage_map bucket) (failure no_such_bucket (some bucket))

  unfoldable pub object_path : FilePath → Text → Handler (World S C) FilePath
  object_path storage key = some_or (safe_join storage key) (failure access_denied (some key))

  unfoldable pub get_object : ObjectRequest → Handler (World S C) Response
  get_object req = do
    key ← decoded_key req
    storage ← bucket_storage req.bucket
    path ← object_path storage key
    λ w.
        (do
          bytes ← some_or (disk.open_file w.disk path) (failure no_such_key (some key))
          m ← some_or (disk.metadata w.disk path) (failure internal_error none)
          answer (file_response env req m bytes (disk.seek w.disk path)))
          w

  -- Past the cache: the file is read and its stat is cached.
  unfoldable pub stat_object : Text → Text → Handler (World S C) Response
  stat_object bucket key = do
    storage ← bucket_storage bucket
    path ← object_path storage key
    λ w.
        (do
          m ← some_or (disk.metadata w.disk path) (failure no_such_key (some key))
          require (not m.is_dir) (failure no_such_key (some key))
          λ w'. (
            reply (head_response env (stat_of env m)),
            record w' { cache = cache.insert w'.cache (cache_key bucket key) (stat_of env m) },
          ))
          w

  unfoldable pub head_object : ObjectRequest → Handler (World S C) Response
  head_object req = do
    key ← decoded_key req
    λ w.
        elim (fresh_entry env state.config.stat_cache_ttl_secs
          (cache.get w.cache (cache_key req.bucket key))) [
            | some c ↦ (reply (head_response env c), w)
            | none ↦ stat_object req.bucket key w
          ]
