-- ===== src/Server/Tests.antt =====
-- A request without credentials, and the property at it.
use ferro_s.Base.{[], ◌∷◌, none, some, true, false, codes, ◌≡◌, ◌⊎◌, refl}
use ferro_s.State.{AuthConfig, AppState, with_defaults, build_state, build_storage_map, map_insert}
use ferro_s.Api.Documents.{status_only}
use ferro_s.Api.Errors.{access_denied, request_timeout, to_response}
use ferro_s.Listing.Tree.{dir, nil}
use ferro_s.Auth.Crypto.{Crypto}
use ferro_s.Auth.Middleware.Sound.{Authenticated}
use ferro_s.Objects.Env.{Env}
use ferro_s.Objects.Flow.{World}
use ferro_s.Objects.MemDisk.{MemDisk, mem_disk}
use ferro_s.Objects.MemCache.{MemCache, mem_cache}
use ferro_s.Server.{Call, Axum, Around, object_delete, auth_request}
use ferro_s.Server.Guarded.{answered, api_router-Authenticated}

abbrev env : Env
env = record {
  decode = λ t. some t;
  http_date = λ t. [];
  rfc3339 = λ t. [];
  now = 0;
  instant = 0;
  pid = 1;
  request_id = [];
}

abbrev cfg : AuthConfig
cfg = record { access_key = codes "user"; secret_key = codes "secret" }

abbrev state : AppState MemCache
unfolding build_state build_storage_map map_insert with_defaults
state = build_state mem_cache (
    with_defaults (record {
      endpoint = codes "0.0.0.0";
      port = 9000;
      verbose = false;
      cache_size = none;
      stat_cache_ttl_secs = none;
      fsync = none;
      request_timeout_secs = none;
      prune_empty_dirs = none;
      auth = some cfg;
      buckets = record { name = codes "photos"; storage = codes "data" ∷ [] } ∷ [];
    }))

-- Every path is an object's, and every method deletes it.
abbrev axum : Axum
axum = record {
  matched = λ ps path. some (codes "/:bucket/*key", codes "photos" ∷ codes "a" ∷ []);
  pick = λ methods method. some object_delete;
  list_params = λ q. none;
  presign_params = λ q. none;
  not_found = status_only 404;
  method_not_allowed = status_only 405;
  rejected = status_only 400;
}

abbrev around : Around MemDisk MemCache
around = record {
  auth_now = 0;
  tree = λ s bucket. dir true nil;
  joined = true;
  late = λ n. false;
  cut_off = λ w. w;
}

abbrev world : World MemDisk MemCache
world = record {
  disk = record { files = (codes "data" ∷ codes "a" ∷ [], 7 ∷ []) ∷ []; dirs = λ p. true };
  cache = [];
  counter = 0;
}

abbrev call : Call
call = record {
  method = codes "DELETE";
  path = codes "/photos/a";
  query = none;
  headers = [];
  body = [];
}

-- Every function of the crates as the identity, where it can be.
abbrev crypto : Crypto
crypto = record {
  sha256 = λ b. b;
  hmac_sha256 = λ k b. k;
  hex_encode = λ b. b;
  base64_decode = λ t. none;
  from_utf8 = λ b. none;
  encode = λ t. t;
  decode = λ t. none;
  to_lowercase = λ t. t;
  to_uppercase = λ t. t;
  parse_date = λ t. none;
  format_date = λ n. [];
  format_day = λ n. [];
}

configured : state.config.auth ≡ some cfg
unfolding state with_defaults build_state
configured = refl

api_router-Authenticated_example :
    Authenticated crypto cfg 0 (auth_request call)
    ⊎ (((answered mem_disk mem_cache env state crypto axum around call world).1 ≡ world)
        × (((answered mem_disk mem_cache env state crypto axum around call world).0
              ≡ to_response [] access_denied none)
            ⊎ ((answered mem_disk mem_cache env state crypto axum around call world).0
                ≡ to_response [] request_timeout none)))
api_router-Authenticated_example =
    api_router-Authenticated mem_disk mem_cache env state crypto axum around call world cfg
      configured
