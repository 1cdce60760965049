-- ===== src/Objects/Write/Others.antt =====
-- The other files of a disk, during an upload by `put_object` of src/handlers/object.rs.
pub mod Keeps
use ferro_s.Objects.Write.Others.Keeps.{
  Kept, Anyway, either_way, upload-Keeps, put_response-Keeps, copy_object-Keeps,
}
use ferro_s.Base.{
  ℕ, ◌≡◌, ◌≢◌, refl, sym, ap, ◌∙◌, inl, inr, List, Option, none, some, false, Text, codes,
  Option-cases,
}
use ferro_s.FilePath.{FilePath, parent}
use ferro_s.State.{AppState, CacheOps}
use ferro_s.Headers.{header_text, has_acl_query}
use ferro_s.Objects.Disk.{DiskOps, DiskLaws, CopyLaws}
use ferro_s.Objects.Env.{Env, ObjectRequest}
use ferro_s.Objects.Flow.{World, run}
use ferro_s.Objects.Ensures.{Ensures, Ensures-bind, Ensures-require, Ensures-fact}
use ferro_s.Objects.Names.{cache_key, temp_path_for}
use ferro_s.Objects.Resolve.{Resolves}
use ferro_s.Objects.Write.{
  Chunk, ensure_parent_dir, forget, fresh_temp, put_body, copy_object, put_object,
}
use ferro_s.Objects.Write.CopyRefused.{put_object-copy}
use ferro_s.Objects.Write.Atomic.{put_object-body}

module _ {S C : Type 0} (disk : DiskOps S) (cache : CacheOps C) (env : Env) (state : AppState C)
    (laws : DiskLaws disk) (path q : FilePath) (other : path ≢ q) (old : Option (List ℕ)) where
  module _ (n : ℕ) (fresh : temp_path_for env.pid n path ≢ q) where
    -- The temporary file of the upload that comes next is the one of counter `n`.
    abbrev Counted : World S C → Type 0
    Counted w = Kept disk cache env state laws path q other old w × (w.counter ≡ n)

    ensure_parent-Counted :
        Ensures Counted
          (ensure_parent_dir disk cache env state path)
          (λ _ w. Counted w)
          (Anyway disk cache env state laws path q other old)
    unfolding ensure_parent_dir
    ensure_parent-Counted = elim (Option-cases (parent path)) [
      | inl e ↦ rw (e, ensure_parent_dir) (record { at = λ w h. h })
      | inr (dir, e) ↦
          rw (e, ensure_parent_dir)
            (record { at = λ w h. (laws.bytes-create_dir_all w.disk dir q ∙ h.0, h.1) })
    ]

    fresh_temp-ne :
        Ensures Counted
          (fresh_temp disk cache env state path)
          (λ temp w. Kept disk cache env state laws path q other old w × (temp ≢ q))
          (Anyway disk cache env state laws path q other old)
    unfolding fresh_temp
    fresh_temp-ne = record {
      at = λ w h. (h.0, λ e. fresh (ap (λ k. temp_path_for env.pid k path) (sym h.1) ∙ e));
    }

    put_body-Kept :
        (key : Text) (chunks : List Chunk)
        → Ensures Counted
            (put_body disk cache env state key path chunks)
            (Anyway disk cache env state laws path q other old)
            (Anyway disk cache env state laws path q other old)
    unfolding put_body
    put_body-Kept key chunks = Ensures-bind _ _ ensure_parent-Counted λ made.
        Ensures-require made _ _ (λ w h. h.0)
          λ _. Ensures-bind _ _ fresh_temp-ne λ temp.
            Ensures-bind _ _
              (Ensures-fact _
                λ ne. upload-Keeps disk cache env state laws path q other old temp ne chunks)
              λ _.
                Ensures-bind (forget disk cache env state key) _ (record { at = λ w h. h })
                  λ _. put_response-Keeps disk cache env state laws path q other old key

module _ {S C : Type 0} (disk : DiskOps S) (cache : CacheOps C) (env : Env) (state : AppState C)
    (laws : DiskLaws disk) where
  -- An upload, by a request that resolves, is no ACL write and no copy, changes no other file,
  -- however it ends: every path but the object's and that of its temporary file holds what it held.
  pub put_object-others :
      (req : ObjectRequest) (chunks : List Chunk) {key : Text} {storage path : FilePath}
      (q : FilePath) (w : World S C)
      → Resolves env state req key storage path
      → has_acl_query req.query ≡ false
      → header_text req.headers (codes "x-amz-copy-source") ≡ none
      → path ≢ q
      → temp_path_for env.pid w.counter path ≢ q
      → disk.bytes_at (run (put_object disk cache env state req chunks) w).1.disk q
        ≡ disk.bytes_at w.disk q
  put_object-others req chunks {key} {path = path} q w r plain no_copy other fresh =
      rw (put_object-body disk cache env state req chunks w r plain no_copy) (
        either_way disk cache env state laws path q other (disk.bytes_at w.disk q)
          (put_body disk cache env state (cache_key req.bucket key) path chunks w)
          ((put_body-Kept disk cache env state laws path q other (disk.bytes_at w.disk q) w.counter
              fresh (cache_key req.bucket key) chunks).at
            w (refl, refl)))

  -- So does a copy to a path that resolves.
  pub put_object-copy_others :
      CopyLaws disk
      → (req : ObjectRequest) (chunks : List Chunk) {key copy_source : Text}
        {storage path : FilePath} (q : FilePath) (w : World S C)
      → Resolves env state req key storage path
      → has_acl_query req.query ≡ false
      → header_text req.headers (codes "x-amz-copy-source") ≡ some copy_source
      → path ≢ q
      → disk.bytes_at (run (put_object disk cache env state req chunks) w).1.disk q
        ≡ disk.bytes_at w.disk q
  put_object-copy_others copies req chunks {key} {copy_source} {path = path} q w r plain given
        other =
      rw (put_object-copy disk cache env state req chunks w r plain given) (
        either_way disk cache env state laws path q other (disk.bytes_at w.disk q)
          (copy_object disk cache env state req.bucket key path copy_source w)
          ((copy_object-Keeps disk cache env state laws path q other (disk.bytes_at w.disk q) copies
              req.bucket key copy_source).at
            w refl))
