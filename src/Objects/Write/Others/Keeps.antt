-- ===== src/Objects/Write/Others/Keeps.antt =====
-- The steps of `put_object` and `copy_object` of src/handlers/object.rs keep the bytes of other
-- files.
use ferro_s.Base.{
  ℕ, ◌≡◌, ◌≢◌, sym, ◌∙◌, inl, inr, List, [], ◌∷◌, Option, none, some, Bool, true, false, Text,
  Option-cases, Bool-cases, if◌then◌else◌,
}
use ferro_s.FilePath.{FilePath, parent}
use ferro_s.State.{AppState, CacheOps}
use ferro_s.Api.Documents.{Response}
use ferro_s.Objects.Disk.{DiskOps, DiskLaws, CopyLaws}
use ferro_s.Objects.Env.{Env}
use ferro_s.Objects.Flow.{World, Flow, reply, next, Handler, ◌>>=◌, some_or}
use ferro_s.Objects.Ensures.{Ensures, Outcome, Ensures-bind, Ensures-require}
use ferro_s.Objects.Names.{cache_key}
use ferro_s.Objects.Write.{
  Chunk, bytes, broken, call, ensure_parent_dir, create_retrying_on_pruned_dir, abandon, or_abandon,
  write_chunks, maybe_sync, upload, forget, put_response, copy_retrying, copy_response, copy_object,
}
use ferro_s.Objects.Read.{bucket_storage, object_path}

module _ {S C : Type 0} (disk : DiskOps S) (cache : CacheOps C) (env : Env) (state : AppState C)
    (laws : DiskLaws disk) (path q : FilePath) (other : path ≢ q) (old : Option (List ℕ)) where
  abbrev pub Kept : World S C → Type 0
  Kept w = disk.bytes_at w.disk q ≡ old

  abbrev pub Anyway : {A : Type 0} → A → World S C → Type 0
  Anyway a w = Kept w

  -- A handler that keeps the bytes at `q`, however it ends.
  abbrev pub Keeps : {A : Type 0} → Handler (World S C) A → Type 0
  Keeps m = Ensures Kept m Anyway Anyway

  pub either_way :
      (r : Flow Response × World S C)
      → Outcome {W = World S C} {A = Response} Anyway Anyway r
      → Kept r.1
  either_way (reply resp, w) h = h
  either_way (next resp, w) h = h

  Keeps-call :
      (op : S → S × Bool)
      → ((s : S) → disk.bytes_at (op s).0 q ≡ disk.bytes_at s q)
      → Keeps (call disk cache env state op)
  Keeps-call op h = record { at = λ w kept. h w.disk ∙ kept }

  pub ensure_parent-Keeps : Keeps (ensure_parent_dir disk cache env state path)
  unfolding ensure_parent_dir
  ensure_parent-Keeps = elim (Option-cases (parent path)) [
    | inl e ↦ rw (e, ensure_parent_dir) (record { at = λ w h. h })
    | inr (dir, e) ↦
        rw (e, ensure_parent_dir) (Keeps-call _ (λ s. laws.bytes-create_dir_all s dir q))
  ]

  module _ (temp : FilePath) (ne : temp ≢ q) where
    create-Keeps : Keeps (call disk cache env state (λ s. disk.create s temp))
    create-Keeps = Keeps-call _ (λ s. laws.bytes-create_ne s temp q ne)

    create_again-Keeps :
        (again : Bool)
        → Keeps (
            if again
            then call disk cache env state (λ s. disk.create s temp)
            else (λ w. (next false, w)))
    create_again-Keeps true = create-Keeps
    create_again-Keeps false = record { at = λ w h. h }

    created_once-Keeps :
        (created : Bool)
        → Keeps (
            if created
            then (λ w. (next true, w))
            else (ensure_parent_dir disk cache env state path >>= λ again.
                if again
                then call disk cache env state (λ s. disk.create s temp)
                else (λ w. (next false, w))))
    created_once-Keeps true = record { at = λ w h. h }
    created_once-Keeps false =
        Ensures-bind (ensure_parent_dir disk cache env state path) _ ensure_parent-Keeps
          create_again-Keeps

    create_retrying-Keeps : Keeps (create_retrying_on_pruned_dir disk cache env state path temp)
    unfolding create_retrying_on_pruned_dir
    create_retrying-Keeps = Ensures-bind _ _ create-Keeps created_once-Keeps

    abandon-Keeps : {A : Type 0} → Keeps (abandon disk cache env state {A = A} temp)
    unfolding abandon
    abandon-Keeps =
        Ensures-bind _ _ (Keeps-call _ (λ s. laws.bytes-remove_file_ne s temp q ne))
          λ removed. record { at = λ w h. h }

    or_abandon-Keeps : (b : Bool) → Keeps (or_abandon disk cache env state temp b)
    unfolding or_abandon
    or_abandon-Keeps true = record { at = λ w h. h }
    or_abandon-Keeps false = abandon-Keeps

    write_chunks-Keeps :
        (chunks : List Chunk) → Keeps (write_chunks disk cache env state temp chunks)
    unfolding write_chunks
    write_chunks-Keeps [] = record { at = λ w h. h }
    write_chunks-Keeps (broken ∷ chunks) = abandon-Keeps
    write_chunks-Keeps (bytes b ∷ chunks) =
        Ensures-bind _ _ (Keeps-call _ (λ s. laws.bytes-write_ne s temp q b ne))
          λ ok. Ensures-bind _ _ (or_abandon-Keeps ok) λ _. write_chunks-Keeps chunks

    maybe_sync-Keeps : Keeps (maybe_sync disk cache env state temp)
    unfolding maybe_sync
    maybe_sync-Keeps = elim (Bool-cases state.config.fsync) [
      | inl y ↦ rw (maybe_sync, y) (Keeps-call _ (λ s. laws.bytes-sync_all s temp q))
      | inr n ↦ rw (maybe_sync, n) (record { at = λ w h. h })
    ]

    pub upload-Keeps : (chunks : List Chunk) → Keeps (upload disk cache env state path temp chunks)
    unfolding upload
    upload-Keeps chunks = Ensures-bind _ _ create_retrying-Keeps λ created.
        Ensures-require created _ _ (λ w h. h)
          λ _. Ensures-bind _ _ (write_chunks-Keeps chunks) λ _.
            Ensures-bind _ _ (Keeps-call _ (λ s. laws.bytes-flush s temp q)) λ flushed.
              Ensures-bind _ _ (or_abandon-Keeps flushed) λ _.
                Ensures-bind _ _ maybe_sync-Keeps λ synced.
                  Ensures-bind _ _ (or_abandon-Keeps synced) λ _.
                    Ensures-bind _ _
                      (Keeps-call _ (λ s. laws.bytes-rename_ne s temp path q ne other))
                      λ renamed. or_abandon-Keeps renamed

  pub put_response-Keeps : (key : Text) → Keeps (put_response disk cache env state key path)
  unfolding put_response ◌>>=◌
  put_response-Keeps key = record {
    at = λ w h. elim (Option-cases (disk.metadata w.disk path)) [
      | inl e ↦ rw e h
      | inr (m, e) ↦ rw e h
    ];
  }

  Keeps-some_or : {A : Type 0} (o : Option A) (resp : Response) → Keeps (some_or o resp)
  Keeps-some_or none resp = record { at = λ w h. h }
  Keeps-some_or (some a) resp = record { at = λ w h. h }

  module _ (copies : CopyLaws disk) where
    copy-Keeps :
        (source : FilePath) → Keeps (call disk cache env state (λ s. disk.copy s source path))
    copy-Keeps source =
        Keeps-call _ (λ s. copies.bytes-copy_ne s source path q (λ e. other (sym e)))

    copy_again-Keeps :
        (source : FilePath) (again : Bool)
        → Keeps (
            if again
            then call disk cache env state (λ s. disk.copy s source path)
            else (λ w. (next false, w)))
    copy_again-Keeps source true = copy-Keeps source
    copy_again-Keeps source false = record { at = λ w h. h }

    copied_once-Keeps :
        (source : FilePath) (done : Bool)
        → Keeps (
            if done
            then (λ w. (next true, w))
            else (ensure_parent_dir disk cache env state path >>= λ again.
                if again
                then call disk cache env state (λ s. disk.copy s source path)
                else (λ w. (next false, w))))
    copied_once-Keeps source true = record { at = λ w h. h }
    copied_once-Keeps source false =
        Ensures-bind (ensure_parent_dir disk cache env state path) _ ensure_parent-Keeps
          (copy_again-Keeps source)

    copy_retrying-Keeps :
        (source : FilePath) → Keeps (copy_retrying disk cache env state source path)
    unfolding copy_retrying
    copy_retrying-Keeps source = Ensures-bind _ _ (copy-Keeps source) (copied_once-Keeps source)

    copy_response-Keeps : Keeps (copy_response disk cache env state path)
    unfolding copy_response ◌>>=◌
    copy_response-Keeps = record {
      at = λ w h. elim (Option-cases (disk.metadata w.disk path)) [
        | inl e ↦ rw e h
        | inr (m, e) ↦ rw e h
      ];
    }

    pub copy_object-Keeps :
        (bucket key copy_source : Text)
        → Keeps (copy_object disk cache env state bucket key path copy_source)
    unfolding copy_object bucket_storage object_path
    copy_object-Keeps bucket key copy_source = Ensures-bind _ _ (Keeps-some_or _ _) λ named.
        Ensures-bind _ _ (Keeps-some_or _ _) λ storage.
          Ensures-bind _ _ (Keeps-some_or _ _) λ source. record {
            at = λ w h.
                (Ensures-require _ _ _ (λ w h. h)
                    λ _.
                      Ensures-require _ _ _ (λ w h. h)
                        λ _.
                          Ensures-bind (ensure_parent_dir disk cache env state path) _
                            ensure_parent-Keeps
                            λ made.
                              Ensures-require made _ _ (λ w h. h)
                                λ _. Ensures-bind _ _ (copy_retrying-Keeps source) λ done.
                                  Ensures-require done _ _ (λ w h. h)
                                    λ _.
                                      Ensures-bind
                                        (forget disk cache env state (cache_key bucket key)) _
                                        (record { at = λ w h. h }) λ _. copy_response-Keeps).at
                  w h;
          }
