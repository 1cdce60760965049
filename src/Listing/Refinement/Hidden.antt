-- ===== src/Listing/Refinement/Hidden.antt =====
-- Files that add nothing to a reference listing, and the first file of a group.
use ferro_s.Base.{
  ◌≡◌, refl, sym, ap, ◌∙◌, ◌⊎◌, inl, inr, List, [], ◌∷◌, ◌++◌, Option, none, some, true, false, not,
  ◌&&◌, ◌||◌, Text, starts_with, text_eq, text_eq_sound, All, Bool-cases, Option-cases, arith,
  if◌then◌else◌, ◌>>=◌,
}
use mathlib.Core.Path.{subst}
use ferro_s.Base.Strings.Prefixes.{starts_with_total, text_lt-starts_with, text_lt-reaches}
use ferro_s.Metadata.{Metadata}
use ferro_s.Listing.Walk.{
  ListItem, content, prefix, Query, after_start, mem_text, common_prefix, content_of,
  subtree_may_contain, start_reaches,
}
use ferro_s.Listing.Reference.{KeyFile, shown_as, shown, once, past, reference_items}
use ferro_s.Listing.Refinement.Groups.{GroupOf, common_prefix-GroupOf}
use ferro_s.Listing.Refinement.Keys.{Under}

pub shown-none :
    (q : Query) (key : Text) (m : Option Metadata) (more : List KeyFile)
    → shown_as q key m ≡ none
    → shown q ((key, m) ∷ more) ≡ shown q more
unfolding shown
shown-none q key m more e = rw (e, shown)

pub shown-some :
    (q : Query) (key : Text) (m : Option Metadata) (more : List KeyFile) {x : Text × ListItem}
    → shown_as q key m ≡ some x
    → shown q ((key, m) ∷ more) ≡ x ∷ shown q more
unfolding shown
shown-some q key m more e = rw (e, shown)

past-once-prefix :
    (q : Query) (g t : Text) (seen : List Text) (items : List (Text × ListItem))
    → past q.start_after (once seen ((g, prefix t) ∷ items)) ≡ (
        if after_start q.start_after g && not (mem_text g seen)
        then (g, prefix t) ∷ past q.start_after (once (g ∷ seen) items)
        else past q.start_after (once (g ∷ seen) items))
unfolding past once
past-once-prefix q g t seen items = ground arith

module _ (q : Query) where
  -- Two sets of seen groups that agree past the start key.
  abbrev pub SameSeen : List Text → List Text → Type 0
  SameSeen s t = (g : Text) → after_start q.start_after g ≡ true → mem_text g s ≡ mem_text g t

  -- A group that is not past the start key, or was seen.
  abbrev pub IsSettled : List Text → Text → Type 0
  IsSettled seen g = (after_start q.start_after g ≡ false) ⊎ (mem_text g seen ≡ true)

  abbrev Hides : List Text → Option (Text × ListItem) → Type 0
  Hides seen none = Unit
  Hides seen (some (key, content c)) = after_start q.start_after key ≡ false
  Hides seen (some (key, prefix t)) = IsSettled seen key

  abbrev pub AllHidden : List Text → List KeyFile → Type 0
  AllHidden seen files = All (λ (f : KeyFile). Hides seen (shown_as q f.0 f.1)) files

  SameSeen-cons : (k : Text) (s t : List Text) → SameSeen s t → SameSeen (k ∷ s) (k ∷ t)
  unfolding mem_text
  SameSeen-cons k s t h g a = ap (λ b. text_eq g k || b) (h g a)

  SameSeen-settled : (k : Text) (seen : List Text) → IsSettled seen k → SameSeen (k ∷ seen) seen
  unfolding mem_text
  SameSeen-settled k seen h g a = elim (Bool-cases (text_eq g k)) [
    | inr n ↦ rw n
    | inl y ↦ elim h [
      | inl early ↦ ground (arith, a, ap (after_start q.start_after) (text_eq_sound g k y), early)
      | inr known ↦ ground (arith, ap (λ (t : Text). mem_text t seen) (text_eq_sound g k y), known)
    ]
  ]

  past-once :
      (s t : List Text) (items : List (Text × ListItem))
      → SameSeen s t
      → past q.start_after (once s items) ≡ past q.start_after (once t items)
  unfolding past once
  past-once s t [] h = refl
  past-once s t ((key, content c) ∷ items) h = rw (past-once s t items h)
  past-once s t ((key, prefix x) ∷ items) h =
      let tails = past-once (key ∷ s) (key ∷ t) items (SameSeen-cons key s t h) in
      elim (Bool-cases (after_start q.start_after key)) [
        | inl y ↦ elim (Bool-cases (mem_text key t)) [
          | inl m ↦ rw (h key y, m) tails
          | inr m ↦ rw (h key y, m) (rw (y, tails))
        ]
        | inr n ↦ ground (arith, n, tails)
      ]

  pub reference_items-seen :
      (k : Text) (seen : List Text) (files : List KeyFile)
      → IsSettled seen k
      → reference_items q (k ∷ seen) files ≡ reference_items q seen files
  unfolding reference_items
  reference_items-seen k seen files h =
      past-once (k ∷ seen) seen (shown q files) (SameSeen-settled k seen h)

  reference_items-none :
      (seen : List Text) (key : Text) (m : Option Metadata) (more : List KeyFile)
      → shown_as q key m ≡ none
      → reference_items q seen ((key, m) ∷ more) ≡ reference_items q seen more
  unfolding reference_items
  reference_items-none seen key m more e =
      ap (λ l. past q.start_after (once seen l)) (shown-none q key m more e)

  -- A file that is shown by itself.
  pub reference_items-content :
      (seen : List Text) (key : Text) (m : Option Metadata) (more : List KeyFile) {k : Text} {c : _}
      → shown_as q key m ≡ some (k, content c)
      → reference_items q seen ((key, m) ∷ more) ≡ (
          if after_start q.start_after k
          then (k, content c) ∷ reference_items q seen more
          else reference_items q seen more)
  unfolding reference_items once past
  reference_items-content seen key m more e =
      ap (λ l. past q.start_after (once seen l)) (shown-some q key m more e)

  -- A file of a group.
  pub reference_items-group :
      (seen : List Text) (key : Text) (m : Option Metadata) (more : List KeyFile) {g t : Text}
      → shown_as q key m ≡ some (g, prefix t)
      → reference_items q seen ((key, m) ∷ more) ≡ (
          if after_start q.start_after g && not (mem_text g seen)
          then (g, prefix t) ∷ reference_items q (g ∷ seen) more
          else reference_items q (g ∷ seen) more)
  unfolding reference_items
  reference_items-group seen key m more {g} {t} e =
      ap (λ l. past q.start_after (once seen l)) (shown-some q key m more e)
      ∙ past-once-prefix q g t seen (shown q more)

  Hides-skip :
      (seen : List Text) (key : Text) (m : Option Metadata) (more : List KeyFile)
      (o : Option (Text × ListItem))
      → shown_as q key m ≡ o
      → Hides seen o
      → reference_items q seen ((key, m) ∷ more) ≡ reference_items q seen more
  Hides-skip seen key m more none e h = reference_items-none seen key m more e
  Hides-skip seen key m more (some (k, content c)) e h =
      reference_items-content seen key m more e ∙ (rw h)
  Hides-skip seen key m more (some (g, prefix t)) e h =
      let quiet : (after_start q.start_after g && not (mem_text g seen)) ≡ false =
        ground (arith, h) in
      reference_items-group seen key m more e ∙ (rw quiet (reference_items-seen g seen more h))

  pub reference_items-hidden :
      (seen : List Text) (files more : List KeyFile)
      → AllHidden seen files
      → reference_items q seen (files ++ more) ≡ reference_items q seen more
  reference_items-hidden seen [] more h = refl
  reference_items-hidden seen ((key, m) ∷ files) more (p, h) =
      Hides-skip seen key m (files ++ more) (shown_as q key m) refl p
      ∙ reference_items-hidden seen files more h

  Hides-by :
      (seen : List Text) (a b : Option (Text × ListItem)) → a ≡ b → Hides seen b → Hides seen a
  Hides-by seen a b e h = subst (λ o. Hides seen o) (sym e) h

  pub shown_as-GroupOf :
      (g key : Text) (m : Option Metadata)
      → GroupOf q g
      → starts_with key g ≡ true
      → shown_as q key m ≡ some (g, prefix g)
  unfolding shown_as
  shown_as-GroupOf g key m h s = let (inside, group) = h key s in rw (inside, group, shown_as)

  -- All of a settled group is hidden.
  pub GroupOf-hidden :
      (seen : List Text) (g : Text) (files : List KeyFile)
      → GroupOf q g
      → IsSettled seen g
      → Under g files
      → AllHidden seen files
  GroupOf-hidden seen g [] h s u = tt
  GroupOf-hidden seen g ((key, m) ∷ files) h s (k, u) = (
    Hides-by seen (shown_as q key m) (some (g, prefix g)) (shown_as-GroupOf g key m h k) s,
    GroupOf-hidden seen g files h s u,
  )

  pub shown_as-outside :
      (key : Text) (m : Option Metadata)
      → starts_with key q.prefix ≡ false
      → shown_as q key m ≡ none
  unfolding shown_as
  shown_as-outside key m h = rw h

  -- A group is not past the start key where a member is not.
  not_past_group :
      (g key : Text)
      → starts_with key g ≡ true
      → after_start q.start_after key ≡ false
      → after_start q.start_after g ≡ false
  unfolding after_start
  not_past_group g key s h = elim (Option-cases q.start_after) [
    | inl e ↦ ground (arith, rw e at h)
    | inr (start, e) ↦
        rw (e, after_start) (ground (arith, text_lt-starts_with start g key s, rw e at h))
  ]

  pub shown_as_early :
      (seen : List Text) (key : Text) (m : Option Metadata)
      → starts_with key q.prefix ≡ true
      → after_start q.start_after key ≡ false
      → Hides seen (shown_as q key m)
  unfolding shown_as
  shown_as_early seen key m inside early = elim (Option-cases (common_prefix q key)) [
    | inr (g, e) ↦
        let (member, group) = common_prefix-GroupOf q key inside e in
        Hides-by seen _ (some (g, prefix g)) (rw (inside, e, shown_as))
          (inl (not_past_group g key member early))
    | inl e ↦ elim (Option-cases m) [
      | inl f ↦ Hides-by seen _ none (rw (inside, e, f, shown_as)) tt
      | inr (d, f) ↦
          Hides-by seen _ (some (key, content (content_of q key d))) (rw (inside, e, f, shown_as))
            early
    ]
  ]

  not_past_subtree :
      (subtree key : Text)
      → starts_with key subtree ≡ true
      → start_reaches q.start_after subtree ≡ false
      → after_start q.start_after key ≡ false
  unfolding after_start
  not_past_subtree subtree key s h = elim (Option-cases q.start_after) [
    | inl e ↦ ground (arith, rw e at h)
    | inr (start, e) ↦
        rw (e, after_start) (ground (arith, text_lt-reaches start subtree key s, rw e at h))
  ]

  unreached :
      (seen : List Text) (subtree key : Text) (m : Option Metadata)
      → starts_with key subtree ≡ true
      → subtree_may_contain subtree q.prefix q.start_after ≡ false
      → Hides seen (shown_as q key m)
  unfolding subtree_may_contain
  unreached seen subtree key m s h = elim (Bool-cases (starts_with key q.prefix)) [
    | inr out ↦ Hides-by seen _ none (shown_as-outside key m out) tt
    | inl inside ↦ shown_as_early seen key m inside (
        not_past_subtree subtree key s
          (ground (arith, h, starts_with_total key subtree q.prefix s inside)))
  ]

  -- All of a subtree that cannot hold a key of the page is hidden.
  pub unreached-hidden :
      (seen : List Text) (subtree : Text) (files : List KeyFile)
      → subtree_may_contain subtree q.prefix q.start_after ≡ false
      → Under subtree files
      → AllHidden seen files
  unreached-hidden seen subtree [] h u = tt
  unreached-hidden seen subtree ((key, m) ∷ files) h (k, u) =
      (unreached seen subtree key m k h, unreached-hidden seen subtree files h u)

  -- A file that is in no group shows as itself.
  pub shown_as-object :
      (key : Text) (m : Option Metadata)
      → starts_with key q.prefix ≡ true
      → common_prefix q key ≡ none
      → shown_as q key m ≡ (m >>= λ d. some (key, content (content_of q key d)))
  unfolding shown_as
  shown_as-object key m inside e = rw (inside, e, shown_as)
