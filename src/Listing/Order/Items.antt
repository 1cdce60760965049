-- ===== src/Listing/Order/Items.antt =====
-- The items of a listing, in order: keys, and the common prefixes that stand for groups of keys.
use ferro_s.Base.{
  ◌≡◌, refl, List, [], ◌∷◌, Option, none, some, Bool, true, not, Text, starts_with, Bool-cases,
  Option-cases, inl, inr, arith,
}
use ferro_s.Metadata.{Metadata}
use ferro_s.Listing.Walk.{ListItem, content, prefix, Query, mem_text, common_prefix, content_of}
use ferro_s.Listing.Reference.{KeyFile, shown_as, shown, once}
use ferro_s.Listing.Refinement.Groups.{GroupOf, common_prefix-GroupOf}
use ferro_s.Listing.Refinement.Hidden.{shown-none, shown-some}

abbrev pub Item : Type 0
Item = Text × ListItem

abbrev pub is_unseen : List Text → Item → Bool
is_unseen seen (k, content c) = true
is_unseen seen (k, prefix t) = not (mem_text k seen)

-- How a file shows: alone, under its own key, or in its group.
abbrev pub ShownBy : Query → Text → Item → Type 0
ShownBy q key (k, content c) =
    (key ≡ k) × (starts_with key q.prefix ≡ true) × (common_prefix q key ≡ none)
ShownBy q key (k, prefix t) = (starts_with key k ≡ true) × GroupOf q k

ShownBy-group :
    (q : Query) (key g : Text) (x : Item)
    → some (g, prefix g) ≡ some x
    → starts_with key g ≡ true
    → GroupOf q g
    → ShownBy q key x
ShownBy-group q key g (k, content c) e s h = ground (arith, e)
ShownBy-group q key g (k, prefix t) e s h =
    let is : g ≡ k = ground (arith, e) in (rw (← is) s, rw (← is) h)

ShownBy-key :
    (q : Query) (key : Text) (m : Metadata) (x : Item)
    → some (key, content (content_of q key m)) ≡ some x
    → starts_with key q.prefix ≡ true
    → common_prefix q key ≡ none
    → ShownBy q key x
ShownBy-key q key m (k, content c) e s h = let is : key ≡ k = ground (arith, e) in (is, s, h)
ShownBy-key q key m (k, prefix t) e s h = ground (arith, e)

pub shown_as-ShownBy :
    (q : Query) (key : Text) (m : Option Metadata) (x : Item)
    → shown_as q key m ≡ some x
    → ShownBy q key x
unfolding shown_as
shown_as-ShownBy q key m x e = elim (Bool-cases (starts_with key q.prefix)) [
  | inr n ↦ ground (arith, rw n at e)
  | inl y ↦ elim (Option-cases (common_prefix q key)) [
    | inr (g, c) ↦
        let (s, h) = common_prefix-GroupOf q key y c in ShownBy-group q key g x (rw (y, c) at e) s h
    | inl c ↦ elim (Option-cases m) [
      | inl f ↦ ground (arith, rw (y, c, f) at e)
      | inr (meta, f) ↦ ShownBy-key q key meta x (rw (y, c, f) at e) y c
    ]
  ]
]

-- Whatever holds of what each file shows as, and is not seen yet, holds of all items.
module _ (q : Query) (P : Item → Type 0) where
  abbrev pub Covers : List Text → List KeyFile → Type 0
  Covers seen [] = Unit
  Covers seen ((key, m) ∷ files) =
      ((x : Item) → shown_as q key m ≡ some x → is_unseen seen x ≡ true → P x) × Covers seen files

  is_unseen-cons :
      (g : Text) (seen : List Text) (x : Item)
      → is_unseen (g ∷ seen) x ≡ true
      → is_unseen seen x ≡ true
  unfolding mem_text
  is_unseen-cons g seen (k, content c) h = refl
  is_unseen-cons g seen (k, prefix t) h = ground (arith, h)

  Covers-cons :
      (g : Text) (seen : List Text) (files : List KeyFile)
      → Covers seen files
      → Covers (g ∷ seen) files
  Covers-cons g seen [] h = tt
  Covers-cons g seen ((key, m) ∷ files) (c, h) =
      (λ x e f. c x e (is_unseen-cons g seen x f), Covers-cons g seen files h)

  abbrev pub AllItems : List Item → Type 0
  AllItems [] = Unit
  AllItems (x ∷ xs) = P x × AllItems xs

  once_step :
      (seen : List Text) (x : Item) (items : List Item)
      → (is_unseen seen x ≡ true → P x)
      → AllItems (once seen items)
      → AllItems (once (x.0 ∷ seen) items)
      → AllItems (once seen (x ∷ items))
  unfolding once
  once_step seen (k, content c) items p h g = (p refl, h)
  once_step seen (k, prefix t) items p h g = elim (Bool-cases (mem_text k seen)) [
    | inl y ↦ rw y g
    | inr n ↦ rw n (p (rw n refl), g)
  ]

  pub once-shown :
      (seen : List Text) (files : List KeyFile)
      → Covers seen files
      → AllItems (once seen (shown q files))
  once-shown seen [] h = unfold shown once in tt
  once-shown seen ((key, m) ∷ files) (c, h) = elim (Option-cases (shown_as q key m)) [
    | inl n ↦ rw (shown-none q key m files n) (once-shown seen files h)
    | inr (x, e) ↦ rw (shown-some q key m files e) (
        once_step seen x (shown q files) (c x e) (once-shown seen files h)
          (once-shown (x.0 ∷ seen) files (Covers-cons x.0 seen files h)))
  ]
