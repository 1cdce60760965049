-- ===== src/Base/Strings/Prefixes.antt =====
-- Prefixes of texts under the lexicographic order, and the first and last occurrence of a text.
use Prim.Native.Nat.{ℕ, ◌≤◌}
use mathlib.Core.Path.{◌≡◌, refl, ap, ◌∙◌}
use mathlib.Core.Logic.{inl, inr}
use mathlib.Core.Bool.{true, false, ◌||◌}
use mathlib.Core.Option.{none, some}
use mathlib.Core.List.{[], ◌∷◌, ◌++◌}
use native.Mathlib.Omega.{arith}
use ferro_s.Base.Tests.{Bool-cases, Option-cases, ==_refl}
use ferro_s.Base.Lists.{length, length-append, drop, All}
use ferro_s.Base.Strings.{Text, text_lt, starts_with, find, rfind, contains}
use ferro_s.Base.Strings.Laws.{Differs}

pub starts_with_refl : (s : Text) → starts_with s s ≡ true
unfolding starts_with
starts_with_refl [] = refl
starts_with_refl (a ∷ s) = ground (arith, starts_with_refl s)

pub starts_with_trans :
    (k g p : Text) → starts_with k g ≡ true → starts_with g p ≡ true → starts_with k p ≡ true
unfolding starts_with
starts_with_trans k g [] h i = refl
starts_with_trans k [] (b ∷ p) h i = ground arith
starts_with_trans [] (a ∷ g) (b ∷ p) h i = ground arith
starts_with_trans (c ∷ k) (a ∷ g) (b ∷ p) h i = ground (arith, starts_with_trans k g p)

-- Of two prefixes of a text one starts with the other.
pub starts_with_total :
    (k a b : Text)
    → starts_with k a ≡ true
    → starts_with k b ≡ true
    → (starts_with a b || starts_with b a) ≡ true
unfolding starts_with
starts_with_total k [] b h i = ground (arith, h, i)
starts_with_total k (x ∷ a) [] h i = refl
starts_with_total [] (x ∷ a) (y ∷ b) h i = ground arith
starts_with_total (c ∷ k) (x ∷ a) (y ∷ b) h i = ground (arith, starts_with_total k a b)

pub starts_with-append_both : (p s t : Text) → starts_with (p ++ s) (p ++ t) ≡ starts_with s t
unfolding starts_with
starts_with-append_both [] s t = refl
starts_with-append_both (a ∷ p) s t = ground (arith, starts_with-append_both p s t)

pub drop-length-append : (p s : Text) → drop (length p) (p ++ s) ≡ s
drop-length-append [] s = refl
drop-length-append (a ∷ p) s = drop-length-append p s

pub text_lt_irrefl : (s : Text) → text_lt s s ≡ false
unfolding text_lt
text_lt_irrefl [] = refl
text_lt_irrefl (a ∷ s) = ground (arith, text_lt_irrefl s)

pub text_lt_trans : (s t u : Text) → text_lt s t ≡ true → text_lt t u ≡ true → text_lt s u ≡ true
unfolding text_lt
text_lt_trans [] t [] h i = ground (arith, h, i)
text_lt_trans [] t (c ∷ u) h i = refl
text_lt_trans (a ∷ s) [] u h i = ground arith
text_lt_trans (a ∷ s) (b ∷ t) [] h i = ground arith
text_lt_trans (a ∷ s) (b ∷ t) (c ∷ u) h i = ground (arith, text_lt_trans s t u)

pub text_lt_total : (s t : Text) → text_lt s t ≡ false → text_lt t s ≡ false → s ≡ t
unfolding text_lt
text_lt_total [] [] h i = refl
text_lt_total [] (b ∷ t) h i = ground arith
text_lt_total (a ∷ s) [] h i = ground arith
text_lt_total (a ∷ s) (b ∷ t) h i = ground (arith, text_lt_total s t)

-- What is below a prefix of a text is below the text.
pub text_lt-starts_with :
    (s g k : Text) → starts_with k g ≡ true → text_lt s g ≡ true → text_lt s k ≡ true
unfolding text_lt starts_with
text_lt-starts_with [] [] k h i = ground arith
text_lt-starts_with [] (b ∷ g) [] h i = ground arith
text_lt-starts_with [] (b ∷ g) (c ∷ k) h i = refl
text_lt-starts_with (a ∷ s) [] k h i = ground arith
text_lt-starts_with (a ∷ s) (b ∷ g) [] h i = ground arith
text_lt-starts_with (a ∷ s) (b ∷ g) (c ∷ k) h i = ground (arith, text_lt-starts_with s g k)

-- What is below a text is below a given prefix of it, or extends that prefix.
pub text_lt-reaches :
    (s g k : Text)
    → starts_with k g ≡ true
    → text_lt s k ≡ true
    → (text_lt s g || starts_with s g) ≡ true
unfolding text_lt starts_with
text_lt-reaches s [] k h i = ground arith
text_lt-reaches [] (b ∷ g) k h i = refl
text_lt-reaches (a ∷ s) (b ∷ g) [] h i = ground arith
text_lt-reaches (a ∷ s) (b ∷ g) (c ∷ k) h i = ground (arith, text_lt-reaches s g k)

-- A text above a prefix's extension and no extension itself is above all of them.
pub text_lt-leaves :
    (g k j : Text)
    → starts_with k g ≡ true
    → starts_with j g ≡ false
    → text_lt k j ≡ true
    → text_lt g j ≡ true
unfolding text_lt starts_with
text_lt-leaves [] k j h i l = ground arith
text_lt-leaves (b ∷ g) [] j h i l = ground arith
text_lt-leaves (b ∷ g) (c ∷ k) [] h i l = ground arith
text_lt-leaves (b ∷ g) (c ∷ k) (a ∷ j) h i l = ground (arith, text_lt-leaves g k j)

-- A text below an extension of a prefix and no extension itself is below the prefix.
pub text_lt-enters :
    (j g k : Text)
    → starts_with k g ≡ true
    → starts_with j g ≡ false
    → text_lt j k ≡ true
    → text_lt j g ≡ true
text_lt-enters j g k h i l = ground (arith, text_lt-reaches j g k h l, i)

-- The order of two texts of which neither starts with the other is that of their extensions.
pub text_lt-apart :
    (a b s t : Text)
    → starts_with b a ≡ false
    → text_lt a b ≡ true
    → text_lt (a ++ s) (b ++ t) ≡ true
unfolding text_lt starts_with
text_lt-apart [] b s t i h = ground arith
text_lt-apart (x ∷ a) [] s t i h = ground arith
text_lt-apart (x ∷ a) (y ∷ b) s t i h = ground (arith, text_lt-apart a b s t)

pub text_lt-append_both : (p s t : Text) → text_lt (p ++ s) (p ++ t) ≡ text_lt s t
unfolding text_lt
text_lt-append_both [] s t = refl
text_lt-append_both (a ∷ p) s t = ground (arith, text_lt-append_both p s t)

pub starts_with-find : (s d : Text) {b : Text} → find s d ≡ some b → starts_with s (b ++ d) ≡ true
unfolding find starts_with
starts_with-find [] d {b} h = elim (Bool-cases (starts_with [] d)) [
  | inl y ↦ ground (arith, h, y)
  | inr n ↦ ground (arith, h, n)
]
starts_with-find (c ∷ s) d {b} h = elim (Bool-cases (starts_with (c ∷ s) d)) [
  | inl y ↦ ground (arith, h, y)
  | inr n ↦ elim (Option-cases (find s d)) [
    | inl e ↦ ground (arith, h, n, e)
    | inr (b', e) ↦ ground (arith, h, n, e, starts_with-find s d e)
  ]
]

starts_with_shorter :
    (k a b : Text)
    → starts_with k a ≡ true
    → starts_with k b ≡ true
    → length a ≤ length b
    → starts_with b a ≡ true
unfolding starts_with
starts_with_shorter k [] b h i l = refl
starts_with_shorter k (x ∷ a) [] h i l = absurd (omega arith)
starts_with_shorter [] (x ∷ a) (y ∷ b) h i l = ground arith
starts_with_shorter (c ∷ k) (x ∷ a) (y ∷ b) h i l = ground (arith, starts_with_shorter k a b)

find_now : (s d : Text) → starts_with s d ≡ true → find s d ≡ some []
unfolding find
find_now [] d h = rw h
find_now (c ∷ s) d h = rw h

find-empty : (d : Text) {b : Text} → find [] d ≡ some b → (b ≡ []) × (d ≡ [])
unfolding find starts_with
find-empty [] h = ground (arith, h)
find-empty (x ∷ d) h = ground (arith, h)

find_later :
    (c : ℕ) (s d : Text) {x : ℕ} {b : Text}
    → find (c ∷ s) d ≡ some (x ∷ b)
    → (c ≡ x) × (find s d ≡ some b) × (starts_with (c ∷ s) d ≡ false)
unfolding find
find_later c s d h = elim (Bool-cases (starts_with (c ∷ s) d)) [
  | inl y ↦ ground (arith, h, y)
  | inr n ↦ elim (Option-cases (find s d)) [
    | inl e ↦ ground (arith, h, n, e)
    | inr (b', e) ↦ ground (arith, h, n, e)
  ]
]

find_cons :
    (c : ℕ) (s d : Text) {b : Text}
    → starts_with (c ∷ s) d ≡ false
    → find s d ≡ some b
    → find (c ∷ s) d ≡ some (c ∷ b)
unfolding find
find_cons c s d n h = rw (n, h)

-- The first occurrence in a text is that in every text with the same beginning, up to its end.
pub find-starts_with :
    (s d s' b : Text) → find s d ≡ some b → starts_with s' (b ++ d) ≡ true → find s' d ≡ some b
find-starts_with s d s' [] h i = find_now s' d i
find-starts_with [] d s' (x ∷ b) h i = absurd (ground (arith, find-empty d h))
find-starts_with (c ∷ s) d [] (x ∷ b) h i = unfold starts_with in ground (arith, i)
find-starts_with (c ∷ s) d (c' ∷ s') (x ∷ b) h i =
    let (same, later, ahead) = find_later c s d h in
    let inner : starts_with s' (b ++ d) ≡ true = unfold starts_with in ground (arith, i) in
    let first : c' ≡ x = unfold starts_with in ground (arith, i) in
    let whole : starts_with (c ∷ s) (x ∷ b ++ d) ≡ true =
      unfold starts_with in ground (arith, same, starts_with-find s d later) in
    elim (Bool-cases (starts_with (c' ∷ s') d)) [
      | inl y ↦ absurd (
          ground (
            arith,
            ahead,
            starts_with_trans (c ∷ s) (x ∷ b ++ d) d whole (
                starts_with_shorter (c' ∷ s') d (x ∷ b ++ d) y i
                  (omega (arith, length-append (x ∷ b) d))),
          ))
      | inr n ↦
          find_cons c' s' d n (find-starts_with s d s' b later inner) ∙ ap (λ z. some (z ∷ b)) first
    ]

-- The text before the first separator.
pub find-separator :
    (sep : ℕ) (inner s : Text)
    → contains inner sep ≡ false
    → find (inner ++ (sep ∷ s)) (sep ∷ []) ≡ some inner
unfolding find starts_with contains
find-separator sep [] s h = ground (arith, ==_refl sep)
find-separator sep (c ∷ inner) s h = ground (arith, h, find-separator sep inner s)

pub rfind-none : (sep : ℕ) (s : Text) → All (Differs sep) s → rfind s sep ≡ none
unfolding rfind
rfind-none sep [] h = refl
rfind-none sep (c ∷ s) (p, h) = rw (rfind-none sep s h, rfind) (rw p)

-- The text before the last separator.
pub rfind-separator :
    (sep : ℕ) (s t : Text) → All (Differs sep) t → rfind (s ++ (sep ∷ t)) sep ≡ some s
unfolding rfind
rfind-separator sep [] t h = rw (rfind-none sep t h, rfind) (rw (==_refl sep))
rfind-separator sep (c ∷ s) t h = rw (rfind-separator sep s t h, rfind)
