-- ===== src/Buckets/Configured.antt =====
-- The map that `build_state` of src/lib.rs makes of the configured buckets.
use ferro_s.Base.{
  List, [], ◌∷◌, Option, none, some, Bool, false, ◌||◌, Text, text_eq, text_eq_sound, text_eq_refl,
  is_some, if◌then◌else◌, ◌≡◌, refl, ap, ◌∙◌, Bool-cases, inl, inr, foldl, arith,
}
use ferro_s.FilePath.{FilePath}
use ferro_s.State.{
  BucketConfig, Config, CacheOps, map_insert, map_get, insert_bucket, build_storage_map,
  build_state,
}
use ferro_s.Api.Errors.{to_response}
use ferro_s.Buckets.{head_bucket}

-- The storage of the last bucket with a name, or `old`.
abbrev pub last_storage : Text → List BucketConfig → Option FilePath → Option FilePath
last_storage name [] old = old
last_storage name (b ∷ bs) old =
    last_storage name bs (if text_eq b.name name then some b.storage else old)

abbrev pub is_configured : Text → List BucketConfig → Bool
is_configured name [] = false
is_configured name (b ∷ bs) = text_eq b.name name || is_configured name bs

map_get-map_insert {ℓ} :
    {V : Type ℓ} (k : Text) (v : V) (m : List (Text × V)) (j : Text)
    → map_get (map_insert k v m) j ≡ (if text_eq k j then some v else map_get m j)
unfolding map_get map_insert
map_get-map_insert k v [] j = refl
map_get-map_insert k v ((i, w) ∷ m) j = elim (Bool-cases (text_eq i k)) [
  | inl same ↦ rw (same, text_eq_sound i k same) (ground arith)
  | inr other ↦
      rw (other, map_get-map_insert k v m j)
        (ground (arith, text_eq_sound k j, text_eq_sound i j, text_eq_refl k, other))
]

map_get-foldl :
    (m : List (Text × FilePath)) (bs : List BucketConfig) (name : Text)
    → map_get (foldl insert_bucket m bs) name ≡ last_storage name bs (map_get m name)
map_get-foldl m [] name = refl
map_get-foldl m (b ∷ bs) name =
    map_get-foldl (insert_bucket m b) bs name
    ∙ ap (last_storage name bs) (map_get-map_insert b.name b.storage m name)

-- A request for a bucket finds the storage of the last bucket configured under that name, and
-- nothing under a name that is not configured.
pub map_get-build_state :
    {C : Type 0} (cache : CacheOps C) (config : Config) (name : Text)
    → map_get (build_state cache config).storage_map name ≡ last_storage name config.buckets none
unfolding build_state build_storage_map
map_get-build_state cache config name =
    map_get-foldl [] config.buckets name
    ∙ ap (last_storage name config.buckets) (unfold map_get in refl)

is_some-last_storage :
    (name : Text) (bs : List BucketConfig) (old : Option FilePath)
    → is_some (last_storage name bs old) ≡ (is_some old || is_configured name bs)
is_some-last_storage name [] old = ground arith
is_some-last_storage name (b ∷ bs) old = elim (Bool-cases (text_eq b.name name)) [
  | inl y ↦ rw (y, is_some-last_storage name bs (some b.storage)) (ground arith)
  | inr n ↦ rw (n, is_some-last_storage name bs old) refl
]

-- HEAD of a bucket answers 200 for exactly the configured names, and 404 for every other.
pub head_bucket-build_state :
    {C : Type 0} (cache : CacheOps C) (config : Config) (request_id name : Text)
    → (head_bucket (build_state cache config) request_id name).status
      ≡ (if is_configured name config.buckets then 200 else 404)
unfolding head_bucket to_response
head_bucket-build_state cache config request_id name =
    rw (map_get-build_state cache config name, is_some-last_storage name config.buckets none)
      (ground arith)
