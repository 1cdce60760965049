-- ===== src/FilePath/Equal.antt =====
-- Equality of paths and `Path::starts_with`.
use ferro_s.Base.{
  Bool, true, false, ◌&&◌, [], ◌∷◌, ◌≡◌, refl, text_eq, text_eq_sound, text_eq_refl, arith, ◌++◌,
}
use ferro_s.FilePath.{FilePath}

unfoldable pub path_eq : FilePath → FilePath → Bool
path_eq [] [] = true
path_eq [] (d ∷ q) = false
path_eq (c ∷ p) [] = false
path_eq (c ∷ p) (d ∷ q) = text_eq c d && path_eq p q

-- `p.starts_with(root)`.
unfoldable pub path_starts_with : FilePath → FilePath → Bool
path_starts_with p [] = true
path_starts_with [] (d ∷ q) = false
path_starts_with (c ∷ p) (d ∷ q) = text_eq c d && path_starts_with p q

pub path_eq_sound : (p q : FilePath) → path_eq p q ≡ true → p ≡ q
unfolding path_eq
path_eq_sound [] [] h = refl
path_eq_sound [] (d ∷ q) h = ground arith
path_eq_sound (c ∷ p) [] h = ground arith
path_eq_sound (c ∷ p) (d ∷ q) h = ground (arith, text_eq_sound c d, path_eq_sound p q)

pub path_eq_refl : (p : FilePath) → path_eq p p ≡ true
unfolding path_eq
path_eq_refl [] = refl
path_eq_refl (c ∷ p) = ground (arith, text_eq_refl c, path_eq_refl p)

pub path_starts_with-append : (root rest : FilePath) → path_starts_with (root ++ rest) root ≡ true
unfolding path_starts_with
path_starts_with-append [] rest = refl
path_starts_with-append (c ∷ root) rest =
    ground (arith, text_eq_refl c, path_starts_with-append root rest)
