-- ===== src/Objects/Resolve/Steps.antt =====
-- The steps by which every object handler of src/handlers/object.rs resolves a request: each goes
-- on, or answers at once.
use ferro_s.Base.{◌≡◌, refl, Option, none, some, Bool, true, false, Text}
use ferro_s.FilePath.{FilePath, safe_join}
use ferro_s.State.{AppState, CacheOps, map_get}
use ferro_s.Api.Documents.{Response, status_only}
use ferro_s.Api.Errors.{no_such_bucket, access_denied, to_response}
use ferro_s.Objects.Disk.{DiskOps}
use ferro_s.Objects.Env.{Env, ObjectRequest}
use ferro_s.Objects.Flow.{World, reply, Handler, ◌>>=◌, ◌>>◌, some_or, require}
use ferro_s.Objects.Read.{decoded_key, bucket_storage, object_path}

module _ {W A B : Type 0} (w : W) where
  pub after_some :
      {o : Option A} {a : A} (resp : Response) (f : A → Handler W B)
      → o ≡ some a
      → (some_or o resp >>= f) w ≡ f a w
  unfolding ◌>>=◌
  after_some resp f e = rw e refl

  pub no_some :
      {o : Option A} (resp : Response) (f : A → Handler W B)
      → o ≡ none
      → (some_or o resp >>= f) w ≡ (reply resp, w)
  unfolding ◌>>=◌
  no_some resp f e = rw e refl

module _ {W B : Type 0} (w : W) where
  pub after_require :
      {b : Bool} (resp : Response) (m : Handler W B) → b ≡ true → (require b resp >> m) w ≡ m w
  unfolding ◌>>=◌
  after_require resp m e = rw e refl

  pub no_require :
      {b : Bool} (resp : Response) (m : Handler W B)
      → b ≡ false
      → (require b resp >> m) w ≡ (reply resp, w)
  unfolding ◌>>=◌
  no_require resp m e = rw e refl

module _ {S C B : Type 0} (disk : DiskOps S) (cache : CacheOps C) (env : Env) (state : AppState C)
    (w : World S C) where
  pub after_key :
      (req : ObjectRequest) {key : Text} (f : Text → Handler (World S C) B)
      → env.decode req.key ≡ some key
      → (decoded_key disk cache env state req >>= f) w ≡ f key w
  unfolding decoded_key ◌>>=◌
  after_key req f e = rw e refl

  pub no_key :
      (req : ObjectRequest) (f : Text → Handler (World S C) B)
      → env.decode req.key ≡ none
      → (decoded_key disk cache env state req >>= f) w ≡ (reply (status_only 400), w)
  unfolding decoded_key ◌>>=◌
  no_key req f e = rw e refl

  pub after_bucket :
      (bucket : Text) {storage : FilePath} (f : FilePath → Handler (World S C) B)
      → map_get state.storage_map bucket ≡ some storage
      → (bucket_storage disk cache env state bucket >>= f) w ≡ f storage w
  unfolding bucket_storage ◌>>=◌
  after_bucket bucket f e = rw e refl

  pub no_bucket :
      (bucket : Text) (f : FilePath → Handler (World S C) B)
      → map_get state.storage_map bucket ≡ none
      → (bucket_storage disk cache env state bucket >>= f) w
        ≡ (reply (to_response env.request_id no_such_bucket (some bucket)), w)
  unfolding bucket_storage ◌>>=◌
  no_bucket bucket f e = rw e refl

  pub no_path :
      (storage : FilePath) (key : Text) (f : FilePath → Handler (World S C) B)
      → safe_join storage key ≡ none
      → (object_path disk cache env state storage key >>= f) w
        ≡ (reply (to_response env.request_id access_denied (some key)), w)
  unfolding object_path ◌>>=◌
  no_path storage key f e = rw e refl

  pub after_path :
      (storage : FilePath) (key : Text) {path : FilePath} (f : FilePath → Handler (World S C) B)
      → safe_join storage key ≡ some path
      → (object_path disk cache env state storage key >>= f) w ≡ f path w
  unfolding object_path ◌>>=◌
  after_path storage key f e = rw e refl
