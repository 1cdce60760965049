-- ===== src/Listing/Order/Ascending.antt =====
-- Lists of keyed values in the order of their keys, none twice.
use ferro_s.Base.{ℕ, zero, suc, ◌≡◌, List, [], ◌∷◌, ◌++◌, true, Text, text_lt, take}

module _ {ℓ} {A : Type ℓ} where
  abbrev pub Below : Text → List (Text × A) → Type 0
  Below k [] = Unit
  Below k ((j, y) ∷ ys) = (text_lt k j ≡ true) × Below k ys

  abbrev pub Ascending : List (Text × A) → Type 0
  Ascending [] = Unit
  Ascending ((k, x) ∷ xs) = Below k xs × Ascending xs

  -- Every key of the first list is below every key of the second.
  abbrev pub Before : List (Text × A) → List (Text × A) → Type 0
  Before [] ys = Unit
  Before ((k, x) ∷ xs) ys = Below k ys × Before xs ys

  pub Below-append :
      (k : Text) (xs ys : List (Text × A)) → Below k xs → Below k ys → Below k (xs ++ ys)
  Below-append k [] ys h i = i
  Below-append k ((j, x) ∷ xs) ys (l, h) i = (l, Below-append k xs ys h i)

  pub Ascending-append :
      (xs ys : List (Text × A)) → Ascending xs → Ascending ys → Before xs ys → Ascending (xs ++ ys)
  Ascending-append [] ys h i b = i
  Ascending-append ((k, x) ∷ xs) ys (l, h) i (b, bs) =
      (Below-append k xs ys l b, Ascending-append xs ys h i bs)

  pub Before-nil : (xs : List (Text × A)) → Before xs []
  Before-nil [] = tt
  Before-nil ((k, x) ∷ xs) = (tt, Before-nil xs)

  pub Before-append :
      (xs ys zs : List (Text × A)) → Before xs ys → Before xs zs → Before xs (ys ++ zs)
  Before-append [] ys zs h i = tt
  Before-append ((k, x) ∷ xs) ys zs (l, h) (r, i) =
      (Below-append k ys zs l r, Before-append xs ys zs h i)

  pub Below-take : (k : Text) (n : ℕ) (xs : List (Text × A)) → Below k xs → Below k (take n xs)
  Below-take k zero xs h = tt
  Below-take k (suc n) [] h = tt
  Below-take k (suc n) ((j, x) ∷ xs) (l, h) = (l, Below-take k n xs h)

  pub Ascending-take : (n : ℕ) (xs : List (Text × A)) → Ascending xs → Ascending (take n xs)
  Ascending-take zero xs h = tt
  Ascending-take (suc n) [] h = tt
  Ascending-take (suc n) ((k, x) ∷ xs) (l, h) = (Below-take k n xs l, Ascending-take n xs h)
