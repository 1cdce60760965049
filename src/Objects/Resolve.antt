-- ===== src/Objects/Resolve.antt =====
-- How every object handler resolves a request: key, bucket, path, each with its own error.
pub mod Steps
use ferro_s.Base.{some, Text, ◌≡◌}
use ferro_s.FilePath.{FilePath, safe_join}
use ferro_s.State.{AppState, map_get}
use ferro_s.Objects.Env.{Env, ObjectRequest}

-- The request's key decodes, its bucket is configured, and the key stays in the bucket.
pub record Resolves {C : Type 0} (env : Env) (state : AppState C) (req : ObjectRequest) (key : Text)
    (storage path : FilePath) : Type 0 where
  pub decoded : env.decode req.key ≡ some key
  pub configured : map_get state.storage_map req.bucket ≡ some storage
  pub contained : safe_join storage key ≡ some path
