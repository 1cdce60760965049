-- ===== src/Objects/Write/Replaced.antt =====
-- `put_object` of src/handlers/object.rs from the parent directory to its response: the outcomes.
use ferro_s.Base.{
  ℕ, ◌≡◌, ◌≢◌, refl, List, Option, none, some, true, Text, Option-cases, inl, inr, ◌⊎◌,
}
use ferro_s.FilePath.{FilePath}
use ferro_s.State.{AppState, CacheOps}
use ferro_s.Api.Documents.{Response}
use ferro_s.Api.Errors.{to_response}
use ferro_s.Objects.Disk.{DiskOps, DiskLaws}
use ferro_s.Objects.Env.{Env}
use ferro_s.Objects.Flow.{World, ◌>>=◌}
use ferro_s.Objects.Ensures.{Ensures, Ensures-bind, Ensures-require, Ensures-fact, Ensures-conseq}
use ferro_s.Objects.Write.{
  Chunk, ensure_parent_dir, upload, forget, put_response, fresh_temp, put_body,
}
use ferro_s.Objects.Write.TempPath.{temp_path_for-ne}
use ferro_s.Objects.Write.Upload.{upload_bytes, is_complete, ensure_parent-bytes, upload-Holds}

module _ {S C : Type 0} (disk : DiskOps S) (cache : CacheOps C) (env : Env) (state : AppState C)
    (laws : DiskLaws disk) (path : FilePath) where
  -- The object was replaced, by all the bytes of an upload that came through.
  pub record Replaced (chunks : List Chunk) (w : World S C) : Type 0 where
    pub holds : disk.bytes_at w.disk path ≡ some (upload_bytes chunks)
    pub complete : is_complete chunks ≡ true

  module _ (old : Option (List ℕ)) (chunks : List Chunk) where
    abbrev pub Before : World S C → Type 0
    Before w = disk.bytes_at w.disk path ≡ old

    -- A PUT that fails leaves the object as it was, or, where only its metadata could not be read in
    -- the end, replaced.
    abbrev pub Failed : Response → World S C → Type 0
    Failed resp w =
        (resp.status ≡ 500) × (Before w ⊎ Replaced chunks w × (disk.metadata w.disk path ≡ none))

    abbrev pub Succeeded : Response → World S C → Type 0
    Succeeded resp w = (resp.status ≡ 200) × Replaced chunks w

    fresh_temp-ne :
        Ensures Before
          (fresh_temp disk cache env state path)
          (λ temp w. Before w × (temp ≢ path))
          Failed
    unfolding fresh_temp
    fresh_temp-ne = record { at = λ w h. (h, temp_path_for-ne env.pid w.counter path) }

    upload-Replaced :
        (temp : FilePath)
        → Ensures
            (λ w. Before w × (temp ≢ path))
            (upload disk cache env state path temp chunks)
            (λ _ w. Replaced chunks w)
            Failed
    upload-Replaced temp = Ensures-fact _ λ ne.
        Ensures-conseq _ _ _ (upload-Holds disk cache env state laws path temp ne old chunks)
          (λ _ w h. record { holds = h.0; complete = h.1 }) (λ resp w h. (h.0, inl h.1))

    forget-Replaced :
        (key : Text)
        → Ensures
            (Replaced chunks)
            (forget disk cache env state key)
            (λ _ w. Replaced chunks w)
            Failed
    forget-Replaced key = record { at = λ w h. record { holds = h.holds; complete = h.complete } }

    put_response-Succeeded :
        (key : Text)
        → Ensures (Replaced chunks) (put_response disk cache env state key path) Succeeded Failed
    unfolding put_response ◌>>=◌ to_response
    put_response-Succeeded key = record {
      at = λ w h. elim (Option-cases (disk.metadata w.disk path)) [
        | inl e ↦ rw e (refl, inr (h, e))
        | inr (m, e) ↦ rw e (refl, record { holds = h.holds; complete = h.complete })
      ];
    }

    -- Whatever the response ensures of an object that was replaced, the PUT ensures.
    pub put_body-with :
        (key : Text) {post : Response → World S C → Type 0}
        → Ensures (Replaced chunks) (put_response disk cache env state key path) post Failed
        → Ensures Before (put_body disk cache env state key path chunks) post Failed
    unfolding put_body
    put_body-with key last =
        Ensures-bind (ensure_parent_dir disk cache env state path) _
          (ensure_parent-bytes disk cache env state laws Failed path path old)
          λ made.
            Ensures-require made _ _ (λ w h. (unfold to_response in refl, inl h))
              λ _. Ensures-bind (fresh_temp disk cache env state path) _ fresh_temp-ne λ temp.
                Ensures-bind (upload disk cache env state path temp chunks) _ (upload-Replaced temp)
                  λ _.
                    Ensures-bind (forget disk cache env state key) _ (forget-Replaced key) λ _. last

    pub put_body-outcome :
        (key : Text)
        → Ensures Before (put_body disk cache env state key path chunks) Succeeded Failed
    put_body-outcome key = put_body-with key (put_response-Succeeded key)
