-- ===== src/Listing/Order/Groups.antt =====
-- Keys in order show as items in order: the keys of one group stand together, where its common
-- prefix belongs.
use ferro_s.Base.{
  ◌≡◌, sym, ap, ap₂, ◌∙◌, List, [], ◌∷◌, Option, none, some, true, false, Text, text_lt, text_eq,
  text_eq_refl, starts_with, Bool-cases, Option-cases, inl, inr, arith,
}
use ferro_s.Base.Strings.Prefixes.{starts_with_refl, text_lt-leaves, text_lt-enters}
use ferro_s.Listing.Walk.{content, prefix, Query, mem_text, common_prefix}
use ferro_s.Listing.Reference.{KeyFile, shown_as, shown, once}
use ferro_s.Listing.Refinement.Groups.{GroupOf}
use ferro_s.Listing.Refinement.Hidden.{shown-none, shown-some}
use ferro_s.Listing.Order.Ascending.{Below, Ascending}
use ferro_s.Listing.Order.Items.{
  Item, is_unseen, ShownBy, shown_as-ShownBy, Covers, AllItems, once-shown,
}

same_group : {a b : Text} {o : Option Text} → o ≡ some a → o ≡ some b → text_eq a b ≡ true
same_group {a} {b} h k =
    let e : some a ≡ some b = sym h ∙ k in
    let is : a ≡ b = ground (arith, e) in ap (text_eq a) (sym is) ∙ text_eq_refl a

-- A key outside every group is in none.
alone-outside :
    (q : Query) (key g : Text)
    → common_prefix q key ≡ none
    → GroupOf q g
    → starts_with key g ≡ false
alone-outside q key g c h = elim (Bool-cases (starts_with key g)) [
  | inr n ↦ n
  | inl y ↦ let e : none ≡ some g = sym c ∙ (h key y).1 in ground (arith, e)
]

-- Two groups share no key.
groups-apart :
    (q : Query) (key g l : Text)
    → text_eq l g ≡ false
    → common_prefix q key ≡ some l
    → GroupOf q g
    → starts_with key g ≡ false
groups-apart q key g l ne c h = elim (Bool-cases (starts_with key g)) [
  | inr n ↦ n
  | inl y ↦ ground (arith, ne, same_group c (h key y).1)
]

-- What may follow an item: after a common prefix, all but that prefix.
abbrev MayFollow : List Text → Item → Item → Type 0
MayFollow seen (k, content c) x = Unit
MayFollow seen (k, prefix u) x = is_unseen (k ∷ seen) x ≡ true

-- The order of two files is that of their items, where these are not one and the same group.
shown-order :
    (q : Query) (seen : List Text) (f j : Text) (y x : Item)
    → text_lt f j ≡ true
    → ShownBy q f y
    → ShownBy q j x
    → MayFollow seen y x
    → text_lt y.0 x.0 ≡ true
unfolding mem_text
shown-order q seen f j (k, content c) (l, content d) h (e, s, n) (i, t, o) fresh =
    ap₂ text_lt (sym e) (sym i) ∙ h
shown-order q seen f j (k, content c) (l, prefix u) h (e, s, n) (t, g) fresh =
    ap (λ s. text_lt s l) (sym e) ∙ text_lt-enters f l j t (alone-outside q f l n g) h
shown-order q seen f j (k, prefix u) (l, content c) h (s, g) (e, t, n) fresh =
    ap (text_lt k) (sym e) ∙ text_lt-leaves k f j s (alone-outside q j k n g) h
shown-order q seen f j (k, prefix u) (l, prefix v) h (s, g) (t, r) fresh =
    let ne : text_eq l k ≡ false = ground (arith, fresh) in
    let up : text_lt k j ≡ true = text_lt-leaves k f j s (groups-apart q j k l ne (r j t).1 g) h in
    let apart : starts_with k l ≡ false = elim (Bool-cases (starts_with k l)) [
      | inr n ↦ n
      | inl y ↦ ground (arith, ne, same_group (r k y).1 (g k (starts_with_refl k)).1)
    ] in
    text_lt-enters k l j t apart up

Covers-above :
    (q : Query) (seen seen' : List Text) (f : Text) (y : Item) (files : List KeyFile)
    → ((x : Item) → is_unseen seen' x ≡ true → MayFollow seen y x)
    → ShownBy q f y
    → Below f files
    → Covers q (λ x. text_lt y.0 x.0 ≡ true) seen' files
Covers-above q seen seen' f y [] h s b = tt
Covers-above q seen seen' f y ((j, m) ∷ files) h s (l, b) = (
  λ x e fresh. shown-order q seen f j y x l s (shown_as-ShownBy q j m x e) (h x fresh),
  Covers-above q seen seen' f y files h s b,
)

AllItems-Below :
    (q : Query) (k : Text) (items : List Item)
    → AllItems q (λ x. text_lt k x.0 ≡ true) items
    → Below k items
AllItems-Below q k [] h = tt
AllItems-Below q k ((l, x) ∷ items) (b, h) = (b, AllItems-Below q k items h)

once_cons-Ascending :
    (q : Query) (seen : List Text) (f : Text) (y : Item) (files : List KeyFile)
    → ShownBy q f y
    → Below f files
    → ((seen : List Text) → Ascending (once seen (shown q files)))
    → Ascending (once seen (y ∷ shown q files))
unfolding once
once_cons-Ascending q seen f (k, content c) files s b h = (
  AllItems-Below q k (once seen (shown q files)) (
      once-shown q (λ x. text_lt k x.0 ≡ true) seen files
        (Covers-above q seen seen f (k, content c) files (λ x e. tt) s b)),
  h seen,
)
once_cons-Ascending q seen f (k, prefix u) files s b h = elim (Bool-cases (mem_text k seen)) [
  | inl y ↦ rw y (h (k ∷ seen))
  | inr n ↦ rw n (
    AllItems-Below q k (once (k ∷ seen) (shown q files)) (
        once-shown q (λ x. text_lt k x.0 ≡ true) (k ∷ seen) files
          (Covers-above q seen (k ∷ seen) f (k, prefix u) files (λ x e. e) s b)),
    h (k ∷ seen),
  )
]

-- Files in order show as items in order.
pub once-Ascending :
    (q : Query) (files : List KeyFile)
    → Ascending files
    → (seen : List Text) → Ascending (once seen (shown q files))
once-Ascending q [] h seen = unfold once shown in tt
once-Ascending q ((key, m) ∷ files) (b, h) seen = elim (Option-cases (shown_as q key m)) [
  | inl n ↦ rw (shown-none q key m files n) (once-Ascending q files h seen)
  | inr (y, e) ↦ rw (shown-some q key m files e) (
      once_cons-Ascending q seen key y files (shown_as-ShownBy q key m y e) b
        (once-Ascending q files h))
]
