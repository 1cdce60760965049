-- ===== src/Objects/Disk.antt =====
-- The file system that the object handlers call, an interface: the operations of tokio::fs over a
-- state `S`, and what the handlers rely on. Any operation may fail at any time.
use ferro_s.Base.{
  ℕ, List, [], ◌∷◌, ◌++◌, Option, none, some, Bool, true, false, Text, length, ◌≡◌, ◌≢◌,
}
use ferro_s.FilePath.{FilePath}
use ferro_s.Metadata.{Metadata}

-- Each operation that changes the disk says whether it succeeded.
pub record DiskOps (S : Type 0) : Type 0 where
  -- `File::open`, with the bytes that the opened file holds.
  pub open_file : S → FilePath → Option (List ℕ)
  -- `fs::metadata`, and `metadata` of a file that is open.
  pub metadata : S → FilePath → Option Metadata
  pub canonicalize : S → FilePath → Option FilePath
  -- Whether seeking in a file to this position succeeds.
  pub seek : S → FilePath → ℕ → Bool
  pub create_dir_all : S → FilePath → S × Bool
  pub create : S → FilePath → S × Bool
  pub write_all : S → FilePath → List ℕ → S × Bool
  pub flush : S → FilePath → S × Bool
  pub sync_all : S → FilePath → S × Bool
  pub rename : S → FilePath → FilePath → S × Bool
  pub copy : S → FilePath → FilePath → S × Bool
  pub remove_file : S → FilePath → S × Bool
  pub remove_dir : S → FilePath → S × Bool
  -- The bytes of the file at a path, and whether a directory stands there.
  pub bytes_at : S → FilePath → Option (List ℕ)
  pub dir_at : S → FilePath → Bool

-- What POSIX says of these calls, for paths that no link joins.
pub record DiskLaws {S : Type 0} (ops : DiskOps S) : Type 0 where
  pub bytes-create_dir_all :
      (s : S) (d p : FilePath) → ops.bytes_at (ops.create_dir_all s d).0 p ≡ ops.bytes_at s p
  pub bytes-create_ne :
      (s : S) (t p : FilePath) → t ≢ p → ops.bytes_at (ops.create s t).0 p ≡ ops.bytes_at s p
  pub bytes-create_self :
      (s : S) (t : FilePath)
      → (ops.create s t).1 ≡ true
      → ops.bytes_at (ops.create s t).0 t ≡ some []
  pub bytes-write_ne :
      (s : S) (t p : FilePath) (b : List ℕ)
      → t ≢ p
      → ops.bytes_at (ops.write_all s t b).0 p ≡ ops.bytes_at s p
  pub bytes-write_self :
      (s : S) (t : FilePath) (b : List ℕ) {old : List ℕ}
      → ops.bytes_at s t ≡ some old
      → (ops.write_all s t b).1 ≡ true
      → ops.bytes_at (ops.write_all s t b).0 t ≡ some (old ++ b)
  pub bytes-flush : (s : S) (t p : FilePath) → ops.bytes_at (ops.flush s t).0 p ≡ ops.bytes_at s p
  pub bytes-sync_all :
      (s : S) (t p : FilePath) → ops.bytes_at (ops.sync_all s t).0 p ≡ ops.bytes_at s p
  -- `rename` replaces its target at once, or does nothing.
  pub bytes-rename_self :
      (s : S) (t p : FilePath)
      → (ops.rename s t p).1 ≡ true
      → ops.bytes_at (ops.rename s t p).0 p ≡ ops.bytes_at s t
  pub bytes-rename_ne :
      (s : S) (t p q : FilePath)
      → t ≢ q
      → p ≢ q
      → ops.bytes_at (ops.rename s t p).0 q ≡ ops.bytes_at s q
  pub bytes-rename_failed :
      (s : S) (t p q : FilePath)
      → (ops.rename s t p).1 ≡ false
      → ops.bytes_at (ops.rename s t p).0 q ≡ ops.bytes_at s q
  pub bytes-remove_file_ne :
      (s : S) (t p : FilePath) → t ≢ p → ops.bytes_at (ops.remove_file s t).0 p ≡ ops.bytes_at s p
  pub bytes-remove_file_self :
      (s : S) (t : FilePath)
      → (ops.remove_file s t).1 ≡ true
      → ops.bytes_at (ops.remove_file s t).0 t ≡ none
  pub bytes-remove_file_failed :
      (s : S) (t p : FilePath)
      → (ops.remove_file s t).1 ≡ false
      → ops.bytes_at (ops.remove_file s t).0 p ≡ ops.bytes_at s p
  pub dir-remove_file :
      (s : S) (t p : FilePath) → ops.dir_at (ops.remove_file s t).0 p ≡ ops.dir_at s p
  -- `remove_dir` takes away one directory, which is empty, and no file.
  pub bytes-remove_dir :
      (s : S) (d p : FilePath) → ops.bytes_at (ops.remove_dir s d).0 p ≡ ops.bytes_at s p
  pub dir-remove_dir_ne :
      (s : S) (d p : FilePath) → d ≢ p → ops.dir_at (ops.remove_dir s d).0 p ≡ ops.dir_at s p
  pub remove_dir_empty :
      (s : S) (d : FilePath) (name : Text)
      → (ops.remove_dir s d).1 ≡ true
      → ops.bytes_at s (d ++ (name ∷ [])) ≡ none

-- What `fs::metadata` and `File::open` say of a file: it is no directory, its length is that of its
-- bytes, its file system keeps the time of its last change, and what is opened are its bytes.
pub record ReadLaws {S : Type 0} (ops : DiskOps S) : Type 0 where
  pub no_dir :
      (s : S) (p : FilePath) {b : List ℕ} {m : Metadata}
      → ops.bytes_at s p ≡ some b
      → ops.metadata s p ≡ some m
      → m.is_dir ≡ false
  pub len :
      (s : S) (p : FilePath) {b : List ℕ} {m : Metadata}
      → ops.bytes_at s p ≡ some b
      → ops.metadata s p ≡ some m
      → m.len ≡ length b
  pub modified :
      (s : S) (p : FilePath) {b : List ℕ} {m : Metadata}
      → ops.bytes_at s p ≡ some b
      → ops.metadata s p ≡ some m
      → (t : ℕ) × (m.modified ≡ some t)
  pub opened :
      (s : S) (p : FilePath) {b c : List ℕ}
      → ops.bytes_at s p ≡ some b
      → ops.open_file s p ≡ some c
      → c ≡ b
  -- Where no file stands, a directory may.
  pub gone :
      (s : S) (p : FilePath) {m : Metadata}
      → ops.bytes_at s p ≡ none
      → ops.metadata s p ≡ some m
      → m.is_dir ≡ true

-- What `fs::copy` does, from one file to another: it writes no file but its target, which then has
-- the bytes of the source, where it does not fail.
pub record CopyLaws {S : Type 0} (ops : DiskOps S) : Type 0 where
  pub bytes-copy_ne :
      (s : S) (source target q : FilePath)
      → q ≢ target
      → ops.bytes_at (ops.copy s source target).0 q ≡ ops.bytes_at s q
  pub bytes-copy_self :
      (s : S) (source target : FilePath)
      → source ≢ target
      → (ops.copy s source target).1 ≡ true
      → ops.bytes_at (ops.copy s source target).0 target ≡ ops.bytes_at s source
