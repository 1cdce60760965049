-- ===== src/Objects/Write/Upload.antt =====
-- The upload of `put_object` of src/handlers/object.rs, step by step: the bytes at the object's path
-- and at the temporary file's.
use ferro_s.Base.{
  ℕ, ◌≡◌, ◌≢◌, refl, ◌∙◌, List, [], ◌∷◌, ◌++◌, Option, some, Bool, true, false, if◌then◌else◌,
  Bool-cases, Option-cases, inl, inr, append_assoc, append-nil,
}
use ferro_s.FilePath.{FilePath, parent}
use ferro_s.State.{AppState, CacheOps}
use ferro_s.Api.Documents.{Response}
use ferro_s.Api.Errors.{to_response}
use ferro_s.Objects.Disk.{DiskOps, DiskLaws}
use ferro_s.Objects.Env.{Env}
use ferro_s.Objects.Flow.{World, next, Handler, ◌>>=◌}
use ferro_s.Objects.Ensures.{
  Ensures, Ensures-bind, Ensures-require, Ensures-pre, Ensures-fact, Ensures-conseq,
}
use ferro_s.Objects.Write.{
  Chunk, bytes, broken, call, ensure_parent_dir, create_retrying_on_pruned_dir, abandon, or_abandon,
  write_chunks, maybe_sync, upload,
}

-- The bytes of an upload, up to the first broken chunk.
abbrev pub upload_bytes : List Chunk → List ℕ
upload_bytes [] = []
upload_bytes (bytes b ∷ chunks) = b ++ upload_bytes chunks
upload_bytes (broken ∷ chunks) = []

-- Whether the stream ended without an error.
abbrev pub is_complete : List Chunk → Bool
is_complete [] = true
is_complete (bytes b ∷ chunks) = is_complete chunks
is_complete (broken ∷ chunks) = false

module _ {S C : Type 0} (disk : DiskOps S) (cache : CacheOps C) (env : Env) (state : AppState C)
    (laws : DiskLaws disk) where
  pub ensure_parent-bytes :
      (early : Response → World S C → Type 0) (path q : FilePath) (old : Option (List ℕ))
      → Ensures
          (λ w. disk.bytes_at w.disk q ≡ old)
          (ensure_parent_dir disk cache env state path)
          (λ _ w. disk.bytes_at w.disk q ≡ old)
          early
  unfolding ensure_parent_dir
  ensure_parent-bytes early path q old = elim (Option-cases (parent path)) [
    | inl e ↦ rw (e, ensure_parent_dir) (record { at = λ w h. h })
    | inr (dir, e) ↦
        rw (e, ensure_parent_dir)
          (record { at = λ w h. laws.bytes-create_dir_all w.disk dir q ∙ h })
  ]

module _ {S C : Type 0} (disk : DiskOps S) (cache : CacheOps C) (env : Env) (state : AppState C)
    (laws : DiskLaws disk) (path temp : FilePath) (ne : temp ≢ path) (old : Option (List ℕ)) where
  abbrev Kept : World S C → Type 0
  Kept w = disk.bytes_at w.disk path ≡ old

  abbrev Temp : List ℕ → World S C → Type 0
  Temp b w = disk.bytes_at w.disk temp ≡ some b

  -- The path still holds what it held, and the temporary file holds `b`.
  abbrev Staged : List ℕ → World S C → Type 0
  Staged b w = Kept w × Temp b w

  -- An early reply is a 500, with the path as it was.
  abbrev Early : Response → World S C → Type 0
  Early resp w = (resp.status ≡ 500) × Kept w

  abandon-Kept :
      {A : Type 0} (post : A → World S C → Type 0)
      → Ensures Kept (abandon disk cache env state temp) post Early
  unfolding abandon to_response ◌>>=◌
  abandon-Kept post = record {
    at = λ w h. (refl, laws.bytes-remove_file_ne w.disk temp path ne ∙ h);
  }

  or_abandon-Staged :
      (b : List ℕ) (ok : Bool)
      → Ensures
          (λ w. Kept w × (ok ≡ true → Temp b w))
          (or_abandon disk cache env state temp ok)
          (λ _ w. Staged b w)
          Early
  unfolding or_abandon
  or_abandon-Staged b true = record { at = λ w h. (h.0, h.1 refl) }
  or_abandon-Staged b false = record {
    at = λ w h. (abandon-Kept {A = Unit {0}} (λ _ w. Staged b w)).at w h.0;
  }

  write-Staged :
      (b chunk : List ℕ)
      → Ensures
          (Staged b)
          (call disk cache env state (λ s. disk.write_all s temp chunk))
          (λ ok w. Kept w × (ok ≡ true → Temp (b ++ chunk) w))
          Early
  write-Staged b chunk = record {
    at = λ w h. (
      laws.bytes-write_ne w.disk temp path chunk ne ∙ h.0,
      λ ok. laws.bytes-write_self w.disk temp chunk h.1 ok,
    );
  }

  rechunk :
      {F : Type 0} {pre : World S C → Type 0} {m : Handler (World S C) (Unit {0})} (b c d : List ℕ)
      → Ensures pre m (λ _ w. Staged ((b ++ c) ++ d) w × F) Early
      → Ensures pre m (λ _ w. Staged (b ++ (c ++ d)) w × F) Early
  rechunk b c d h = rw (append_assoc b c d) at h

  write_chunks-Staged :
      (b : List ℕ) (chunks : List Chunk)
      → Ensures
          (Staged b)
          (write_chunks disk cache env state temp chunks)
          (λ _ w. Staged (b ++ upload_bytes chunks) w × (is_complete chunks ≡ true))
          Early
  unfolding write_chunks
  write_chunks-Staged b [] = record { at = λ w h. (rw append-nil h, refl) }
  write_chunks-Staged b (broken ∷ chunks) = record {
    at = λ w h. (abandon-Kept {A = Unit {0}} (λ _ w. Staged (b ++ []) w × (false ≡ true))).at w h.0;
  }
  write_chunks-Staged b (bytes c ∷ chunks) =
      Ensures-bind (call disk cache env state (λ s. disk.write_all s temp c)) _ (write-Staged b c)
        (λ ok.
          Ensures-bind (or_abandon disk cache env state temp ok) _ (or_abandon-Staged (b ++ c) ok)
            (λ _. rechunk b c (upload_bytes chunks) (write_chunks-Staged (b ++ c) chunks)))

  abbrev MaybeStaged : List ℕ → Bool → World S C → Type 0
  MaybeStaged b ok w = Kept w × (ok ≡ true → Temp b w)

  create-Staged :
      Ensures Kept (call disk cache env state (λ s. disk.create s temp)) (MaybeStaged []) Early
  create-Staged = record {
    at = λ w h. (laws.bytes-create_ne w.disk temp path ne ∙ h, laws.bytes-create_self w.disk temp);
  }

  second_create :
      (again : Bool)
      → Ensures Kept
          (if again
            then call disk cache env state (λ s. disk.create s temp)
            else (λ w. (next false, w)))
          (MaybeStaged [])
          Early
  second_create true = create-Staged
  second_create false = record { at = λ w h. (h, λ e. cc) }

  after_create :
      (created : Bool)
      → Ensures
          (MaybeStaged [] created)
          (if created then (λ w. (next true, w)) else do
            again ← ensure_parent_dir disk cache env state path
            if again
                then call disk cache env state (λ s. disk.create s temp)
                else (λ w. (next false, w)))
          (MaybeStaged [])
          Early
  after_create true = record { at = λ w h. (h.0, λ _. h.1 refl) }
  after_create false = record {
    at = λ w h.
        (Ensures-bind (ensure_parent_dir disk cache env state path) _
            (ensure_parent-bytes disk cache env state laws Early path path old) second_create).at
          w h.0;
  }

  create_retrying-Staged :
      Ensures Kept
        (create_retrying_on_pruned_dir disk cache env state path temp)
        (MaybeStaged [])
        Early
  unfolding create_retrying_on_pruned_dir
  create_retrying-Staged =
      Ensures-bind (call disk cache env state (λ s. disk.create s temp)) _ create-Staged
        after_create

  flush-Staged :
      (b : List ℕ)
      → Ensures
          (Staged b)
          (call disk cache env state (λ s. disk.flush s temp))
          (MaybeStaged b)
          Early
  flush-Staged b = record {
    at = λ w h.
        (laws.bytes-flush w.disk temp path ∙ h.0, λ _. laws.bytes-flush w.disk temp temp ∙ h.1);
  }

  maybe_sync-Staged :
      (b : List ℕ) → Ensures (Staged b) (maybe_sync disk cache env state temp) (MaybeStaged b) Early
  unfolding maybe_sync
  maybe_sync-Staged b = elim (Bool-cases state.config.fsync) [
    | inl y ↦ rw y (record {
      at = λ w h. (
        laws.bytes-sync_all w.disk temp path ∙ h.0,
        λ _. laws.bytes-sync_all w.disk temp temp ∙ h.1,
      );
    })
    | inr n ↦ rw n (record { at = λ w h. (h.0, λ _. h.1) })
  ]

  abbrev Holds : List ℕ → World S C → Type 0
  Holds b w = disk.bytes_at w.disk path ≡ some b

  rename-Holds :
      (b : List ℕ)
      → Ensures
          (Staged b)
          (call disk cache env state (λ s. disk.rename s temp path))
          (λ ok w. (ok ≡ true → Holds b w) × (ok ≡ false → Kept w))
          Early
  rename-Holds b = record {
    at = λ w h. (
      λ ok. laws.bytes-rename_self w.disk temp path ok ∙ h.1,
      λ bad. laws.bytes-rename_failed w.disk temp path path bad ∙ h.0,
    );
  }

  settle :
      (b : List ℕ) (ok : Bool)
      → Ensures
          (λ w. (ok ≡ true → Holds b w) × (ok ≡ false → Kept w))
          (or_abandon disk cache env state temp ok)
          (λ _ w. Holds b w)
          Early
  unfolding or_abandon
  settle b true = record { at = λ w h. h.0 refl }
  settle b false = record {
    at = λ w h. (abandon-Kept {A = Unit {0}} (λ _ w. Holds b w)).at w (h.1 refl);
  }

  pub upload-Holds :
      (chunks : List Chunk)
      → Ensures Kept
          (upload disk cache env state path temp chunks)
          (λ _ w. Holds (upload_bytes chunks) w × (is_complete chunks ≡ true))
          Early
  unfolding upload
  upload-Holds chunks =
      let b = upload_bytes chunks in
      Ensures-bind (create_retrying_on_pruned_dir disk cache env state path temp) _
        create_retrying-Staged
        λ created.
          Ensures-require created _ _ (λ w h. (unfold to_response in refl, h.0))
            λ made.
              Ensures-bind (write_chunks disk cache env state temp chunks) _
                (Ensures-pre (Staged []) _ (λ w h. (h.0, h.1 made)) (write_chunks-Staged [] chunks))
                λ _. Ensures-fact _ λ complete.
                  Ensures-bind (call disk cache env state (λ s. disk.flush s temp)) _
                    (flush-Staged b)
                    λ flushed.
                      Ensures-bind (or_abandon disk cache env state temp flushed) _
                        (or_abandon-Staged b flushed)
                        λ _.
                          Ensures-bind (maybe_sync disk cache env state temp) _
                            (maybe_sync-Staged b)
                            λ synced.
                              Ensures-bind (or_abandon disk cache env state temp synced) _
                                (or_abandon-Staged b synced)
                                λ _.
                                  Ensures-bind
                                    (call disk cache env state (λ s. disk.rename s temp path)) _
                                    (rename-Holds b)
                                    λ renamed.
                                      Ensures-conseq _ Early _ (settle b renamed)
                                        (λ _ w h. (h, complete)) (λ _ w h. h)
