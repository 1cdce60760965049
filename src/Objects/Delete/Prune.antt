-- ===== src/Objects/Delete/Prune.antt =====
-- The pruning of emptied directories, `prune_empty_dirs` of src/handlers/object.rs.
use ferro_s.Base.{
  ℕ, zero, suc, ◌+◌, ◌<◌, ◌≡◌, ◌≢◌, refl, ap, ◌∙◌, [], ◌∷◌, some, Bool, true, false, not, ◌&&◌,
  ◌||◌, length, arith, Bool-cases, Option-cases, inl, inr, ◌⊎◌,
}
use Prim.Native.Nat.add
use ferro_s.FilePath.{FilePath, parent}
use ferro_s.FilePath.Equal.{path_eq, path_starts_with}
use ferro_s.Objects.Disk.{DiskOps, DiskLaws}
use ferro_s.Objects.Delete.{prune_from, prune_empty_dirs}

length-parent : (p : FilePath) {q : FilePath} → parent p ≡ some q → length q < length p
unfolding parent
length-parent [] h = ground arith
length-parent (c ∷ []) h = ground arith
length-parent (c ∷ d ∷ p) {q} h = elim (Option-cases (parent (d ∷ p))) [
  | inl e ↦ ground arith
  | inr (r, e) ↦ ground (arith, length-parent (d ∷ p) e)
]

split_or : (a b : Bool) → (a || not b) ≡ true → (a ≡ true) ⊎ (b ≡ false)
split_or true b h = inl refl
split_or false b h = ground arith

below_ne :
    (root d q : FilePath)
    → path_eq d root ≡ false
    → path_starts_with d root ≡ true
    → (path_eq q root || not (path_starts_with q root)) ≡ true
    → d ≢ q
below_ne root d q ne within out e = elim (split_or (path_eq q root) (path_starts_with q root) out) [
  | inl same ↦ cc (ap (λ t. path_eq t root) e)
  | inr outside ↦ cc (ap (λ t. path_starts_with t root) e)
]

split_and : (a b : Bool) → (not a && b) ≡ true → (a ≡ false) × (b ≡ true)
split_and a b h = ground arith

module _ {S : Type 0} (disk : DiskOps S) (root : FilePath) where
  -- An invariant of the loop: one that each removal below the root keeps.
  prune_from_inv :
      (P : S → Type 0)
      → ((s : S) (d : FilePath)
          → path_eq d root ≡ false
          → path_starts_with d root ≡ true
          → P s
          → P (disk.remove_dir s d).0)
      → (fuel : ℕ) (dir : FilePath) (s : S) → P s
      → P (prune_from disk fuel root dir s)
  unfolding prune_from
  prune_from_inv P keep zero dir s h = h
  prune_from_inv P keep (suc fuel) dir s h =
      elim (Bool-cases (not (path_eq dir root) && path_starts_with dir root)) [
        | inr out ↦ rw (out, prune_from) h
        | inl below ↦
            let (ne, within) = split_and (path_eq dir root) (path_starts_with dir root) below in
            let h' : P (disk.remove_dir s dir).0 = keep s dir ne within h in
            rw (below, prune_from)
              (elim (Bool-cases (disk.remove_dir s dir).1) [
                | inr kept ↦ rw kept h'
                | inl removed ↦ rw removed (elim (Option-cases (parent dir)) [
                  | inl top ↦ rw top h'
                  | inr (above, e) ↦
                      rw e (prune_from_inv P keep fuel above (disk.remove_dir s dir).0 h')
                ])
              ])
      ]

  -- The loop that prunes ends within one round per component of the path and one more: with a fuel
  -- past the number of components, more fuel gives the same disk.
  pub prune_from-fuel :
      (fuel k : ℕ) (dir : FilePath) (s : S)
      → length dir < fuel
      → prune_from disk (fuel + k) root dir s ≡ prune_from disk fuel root dir s
  unfolding prune_from
  prune_from-fuel zero k dir s h = absurd (omega arith)
  prune_from-fuel (suc fuel) k dir s h =
      rw add.suc (elim (Bool-cases (not (path_eq dir root) && path_starts_with dir root)) [
        | inr out ↦ rw (out, prune_from)
        | inl below ↦
            rw (below, prune_from)
              (elim (Bool-cases (disk.remove_dir s dir).1) [
                | inr kept ↦ rw kept
                | inl removed ↦ rw removed (elim (Option-cases (parent dir)) [
                  | inl top ↦ rw top
                  | inr (above, e) ↦ rw e (
                      prune_from-fuel fuel k above (disk.remove_dir s dir).0
                        (omega (arith, length-parent dir e)))
                ])
              ])
      ])

  module _ (laws : DiskLaws disk) (s : S) (from : FilePath) where
    -- Pruning touches no file.
    pub bytes-prune_empty_dirs :
        (q : FilePath) → disk.bytes_at (prune_empty_dirs disk root from s) q ≡ disk.bytes_at s q
    unfolding prune_empty_dirs
    bytes-prune_empty_dirs q =
        prune_from_inv (λ t. disk.bytes_at t q ≡ disk.bytes_at s q)
          (λ t d _ _ h. laws.bytes-remove_dir t d q ∙ h) (suc (length from)) from s refl

    -- The storage directory itself, and every directory outside it, stays, wherever pruning starts.
    pub dir-prune_empty_dirs :
        (q : FilePath)
        → (path_eq q root || not (path_starts_with q root)) ≡ true
        → disk.dir_at (prune_empty_dirs disk root from s) q ≡ disk.dir_at s q
    unfolding prune_empty_dirs
    dir-prune_empty_dirs q out =
        prune_from_inv (λ t. disk.dir_at t q ≡ disk.dir_at s q)
          (λ t d ne within h. laws.dir-remove_dir_ne t d q (below_ne root d q ne within out) ∙ h)
          (suc (length from)) from s refl
