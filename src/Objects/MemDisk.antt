-- ===== src/Objects/MemDisk.antt =====
-- A disk in memory that meets `DiskLaws`, for the tests: a list of files, and the directories.
use ferro_s.Base.{
  ℕ, List, [], ◌∷◌, ◌++◌, Option, none, some, Bool, true, false, Text, ◌≡◌, ◌≢◌, refl, sym, ap,
  ◌||◌, arith, is_some, Bool-cases, inl, inr, if◌then◌else◌, length, ◌>>=◌,
}
use ferro_s.FilePath.{FilePath, parent}
use ferro_s.FilePath.Equal.{path_eq, path_eq_sound, path_eq_refl}
use ferro_s.Metadata.{Metadata}
use ferro_s.Objects.Disk.{DiskOps, DiskLaws}

pub record MemDisk : Type 0 where
  pub files : List (FilePath × List ℕ)
  pub dirs : FilePath → Bool

abbrev pub lookup : List (FilePath × List ℕ) → FilePath → Option (List ℕ)
lookup [] p = none
lookup ((q, b) ∷ fs) p = if path_eq q p then some b else lookup fs p

abbrev pub erase : FilePath → List (FilePath × List ℕ) → List (FilePath × List ℕ)
erase p [] = []
erase p ((q, b) ∷ fs) = let rest = erase p fs in if path_eq q p then rest else (q, b) ∷ rest

abbrev inside : FilePath → Option FilePath → Bool
inside d none = false
inside d (some p) = path_eq p d

abbrev pub occupied : FilePath → List (FilePath × List ℕ) → Bool
occupied d [] = false
occupied d ((q, b) ∷ fs) = inside d (parent q) || occupied d fs

abbrev with_files : MemDisk → List (FilePath × List ℕ) → MemDisk
with_files s fs = record s { files = fs }

abbrev append_at : MemDisk → FilePath → List ℕ → Option (List ℕ) → MemDisk × Bool
append_at s p b none = (s, false)
append_at s p b (some old) = (with_files s ((p, old ++ b) ∷ s.files), true)

abbrev move_to : MemDisk → FilePath → FilePath → Option (List ℕ) → MemDisk × Bool
move_to s t p none = (s, false)
move_to s t p (some b) = (with_files s ((p, b) ∷ erase t s.files), true)

abbrev pub copy_to : MemDisk → FilePath → Option (List ℕ) → MemDisk × Bool
copy_to s p none = (s, false)
copy_to s p (some b) = (with_files s ((p, b) ∷ s.files), true)

abbrev remove_at : MemDisk → FilePath → Bool → MemDisk × Bool
remove_at s p false = (s, false)
remove_at s p true = (with_files s (erase p s.files), true)

abbrev drop_dir : MemDisk → FilePath → Bool → MemDisk × Bool
drop_dir s d true = (s, false)
drop_dir s d false =
    (record s { dirs = λ q. let old = s.dirs q in if path_eq d q then false else old }, true)

abbrev pub metadata_of : Option (List ℕ) → Option Metadata
metadata_of none = none
metadata_of (some b) = some (record { is_dir = false; modified = some 0; len = length b })

abbrev pub mem_disk : DiskOps MemDisk
mem_disk = record {
  open_file = λ s p. lookup s.files p;
  metadata = λ s p. metadata_of (lookup s.files p);
  canonicalize = λ s p. some p;
  seek = λ s p n. true;
  create_dir_all = λ s p. (s, true);
  create = λ s p. (with_files s ((p, []) ∷ s.files), true);
  write_all = λ s p b. append_at s p b (lookup s.files p);
  flush = λ s p. (s, true);
  sync_all = λ s p. (s, true);
  rename = λ s t p. move_to s t p (lookup s.files t);
  copy = λ s t p. copy_to s p (lookup s.files t);
  remove_file = λ s p. remove_at s p (is_some (lookup s.files p));
  remove_dir = λ s d. drop_dir s d (occupied d s.files);
  bytes_at = λ s p. lookup s.files p;
  dir_at = λ s p. s.dirs p;
}

pub path_eq-ne : (p q : FilePath) → p ≢ q → path_eq p q ≡ false
path_eq-ne p q ne = elim (Bool-cases (path_eq p q)) [
  | inl e ↦ absurd (ne (path_eq_sound p q e))
  | inr e ↦ e
]

lookup-erase_self : (p : FilePath) (fs : List (FilePath × List ℕ)) → lookup (erase p fs) p ≡ none
lookup-erase_self p [] = refl
lookup-erase_self p ((q, b) ∷ fs) = elim (Bool-cases (path_eq q p)) [
  | inl y ↦ rw y (lookup-erase_self p fs)
  | inr n ↦ rw (n, n) (lookup-erase_self p fs)
]

lookup-erase_ne :
    (p r : FilePath) (fs : List (FilePath × List ℕ)) → p ≢ r → lookup (erase p fs) r ≡ lookup fs r
lookup-erase_ne p r [] ne = refl
lookup-erase_ne p r ((q, b) ∷ fs) ne = elim (Bool-cases (path_eq q p)) [
  | inl y ↦
      let e : path_eq q r ≡ false = rw (path_eq_sound q p y) (path_eq-ne p r ne) in
      rw (y, e) (lookup-erase_ne p r fs ne)
  | inr n ↦ rw (n, lookup-erase_ne p r fs ne) refl
]

parent-child : (d : FilePath) (name : Text) → parent (d ++ (name ∷ [])) ≡ some d
unfolding parent
parent-child [] name = refl
parent-child (c ∷ []) name = refl
parent-child (c ∷ x ∷ d) name = ap (λ o. o >>= λ p. some (c ∷ p)) (parent-child (x ∷ d) name)

lookup-child :
    (d : FilePath) (name : Text) (fs : List (FilePath × List ℕ))
    → occupied d fs ≡ false
    → lookup fs (d ++ (name ∷ [])) ≡ none
lookup-child d name [] h = refl
lookup-child d name ((q, b) ∷ fs) h = elim (Bool-cases (path_eq q (d ++ (name ∷ [])))) [
  | inr n ↦ rw n (lookup-child d name fs (ground (arith, h)))
  | inl y ↦
      let e : inside d (parent q) ≡ true =
        rw (path_eq_sound q (d ++ (name ∷ [])) y, parent-child d name) (path_eq_refl d) in
      absurd (ground (arith, h, e))
]

bytes-append_ne :
    (s : MemDisk) (t p : FilePath) (b : List ℕ) (o : Option (List ℕ))
    → t ≢ p
    → lookup (append_at s t b o).0.files p ≡ lookup s.files p
bytes-append_ne s t p b none ne = refl
bytes-append_ne s t p b (some old) ne = rw (path_eq-ne t p ne)

bytes-append_self :
    (s : MemDisk) (t : FilePath) (b : List ℕ) {old : List ℕ} (o : Option (List ℕ))
    → o ≡ some old
    → lookup (append_at s t b o).0.files t ≡ some (old ++ b)
bytes-append_self s t b o e = rw (e, path_eq_refl t)

bytes-move_self :
    (s : MemDisk) (t p : FilePath) (o : Option (List ℕ))
    → (move_to s t p o).1 ≡ true
    → lookup (move_to s t p o).0.files p ≡ o
bytes-move_self s t p none h = ground arith
bytes-move_self s t p (some b) h = rw (path_eq_refl p)

bytes-move_ne :
    (s : MemDisk) (t p q : FilePath) (o : Option (List ℕ))
    → t ≢ q
    → p ≢ q
    → lookup (move_to s t p o).0.files q ≡ lookup s.files q
bytes-move_ne s t p q none ht hp = refl
bytes-move_ne s t p q (some b) ht hp = rw (path_eq-ne p q hp) (lookup-erase_ne t q s.files ht)

bytes-move_failed :
    (s : MemDisk) (t p q : FilePath) (o : Option (List ℕ))
    → (move_to s t p o).1 ≡ false
    → lookup (move_to s t p o).0.files q ≡ lookup s.files q
bytes-move_failed s t p q none h = refl
bytes-move_failed s t p q (some b) h = ground arith

bytes-remove_ne :
    (s : MemDisk) (t p : FilePath) (there : Bool)
    → t ≢ p
    → lookup (remove_at s t there).0.files p ≡ lookup s.files p
bytes-remove_ne s t p true ne = lookup-erase_ne t p s.files ne
bytes-remove_ne s t p false ne = refl

bytes-remove_self :
    (s : MemDisk) (t : FilePath) (there : Bool)
    → (remove_at s t there).1 ≡ true
    → lookup (remove_at s t there).0.files t ≡ none
bytes-remove_self s t true h = lookup-erase_self t s.files
bytes-remove_self s t false h = ground arith

bytes-remove_failed :
    (s : MemDisk) (t p : FilePath) (there : Bool)
    → (remove_at s t there).1 ≡ false
    → lookup (remove_at s t there).0.files p ≡ lookup s.files p
bytes-remove_failed s t p true h = ground arith
bytes-remove_failed s t p false h = refl

dir-remove_at :
    (s : MemDisk) (t p : FilePath) (there : Bool) → (remove_at s t there).0.dirs p ≡ s.dirs p
dir-remove_at s t p true = refl
dir-remove_at s t p false = refl

bytes-drop_dir :
    (s : MemDisk) (d p : FilePath) (full : Bool)
    → lookup (drop_dir s d full).0.files p ≡ lookup s.files p
bytes-drop_dir s d p true = refl
bytes-drop_dir s d p false = refl

dir-drop_dir :
    (s : MemDisk) (d p : FilePath) (full : Bool) → d ≢ p → (drop_dir s d full).0.dirs p ≡ s.dirs p
dir-drop_dir s d p true ne = refl
dir-drop_dir s d p false ne = rw (path_eq-ne d p ne)

drop_dir-empty :
    (s : MemDisk) (d : FilePath) (full : Bool) → (drop_dir s d full).1 ≡ true → full ≡ false
drop_dir-empty s d true h = sym h
drop_dir-empty s d false h = refl

pub mem_disk-DiskLaws : DiskLaws mem_disk
mem_disk-DiskLaws = record {
  bytes-create_dir_all = λ s d p. refl;
  bytes-create_ne = λ s t p ne. rw (path_eq-ne t p ne);
  bytes-create_self = λ s t h. rw (path_eq_refl t);
  bytes-write_ne = λ s t p b ne. bytes-append_ne s t p b (lookup s.files t) ne;
  bytes-write_self = λ s t b e h. bytes-append_self s t b (lookup s.files t) e;
  bytes-flush = λ s t p. refl;
  bytes-sync_all = λ s t p. refl;
  bytes-rename_self = λ s t p h. bytes-move_self s t p (lookup s.files t) h;
  bytes-rename_ne = λ s t p q ht hp. bytes-move_ne s t p q (lookup s.files t) ht hp;
  bytes-rename_failed = λ s t p q h. bytes-move_failed s t p q (lookup s.files t) h;
  bytes-remove_file_ne = λ s t p ne. bytes-remove_ne s t p (is_some (lookup s.files t)) ne;
  bytes-remove_file_self = λ s t h. bytes-remove_self s t (is_some (lookup s.files t)) h;
  bytes-remove_file_failed = λ s t p h. bytes-remove_failed s t p (is_some (lookup s.files t)) h;
  dir-remove_file = λ s t p. dir-remove_at s t p (is_some (lookup s.files t));
  bytes-remove_dir = λ s d p. bytes-drop_dir s d p (occupied d s.files);
  dir-remove_dir_ne = λ s d p ne. dir-drop_dir s d p (occupied d s.files) ne;
  remove_dir_empty =
      λ s d name h. lookup-child d name s.files (drop_dir-empty s d (occupied d s.files) h);
}
