-- ===== src/Listing/Refinement/Valid.antt =====
-- What holds of the loop variables of `collect_entries` of src/handlers/list.rs between two rounds.
use ferro_s.Base.{
  ℕ, zero, suc, ◌≡◌, ◌<◌, refl, ap, ◌∙◌, inl, inr, List, [], ◌∷◌, ◌++◌, Option, none, some, true,
  false, not, ◌&&◌, Text, text_eq_refl, is_empty, All, length, take, Bool-cases, arith,
}
use ferro_s.Listing.Tree.{Node, Child, node_has_file}
use ferro_s.Listing.Walk.{ListItem, prefix, Query, Walk, in_settled, after_start, mem_text}
use ferro_s.Listing.Reference.{KeyFile, reference_items}
use ferro_s.Listing.Refinement.Groups.{GroupOf}
use ferro_s.Listing.Refinement.Keys.{pending, Under, Under-trans}
use ferro_s.Listing.Refinement.Names.{IsDirKey, FrameOf}
use ferro_s.Listing.Refinement.Hidden.{
  AllHidden, reference_items-hidden, reference_items-group, shown_as-GroupOf, GroupOf-hidden,
}

pub take-append_exact {ℓ} :
    {A : Type ℓ} (n : ℕ) (xs ys : List A) → length xs ≡ n → take n (xs ++ ys) ≡ xs
take-append_exact zero [] ys h = refl
take-append_exact zero (x ∷ xs) ys h = absurd (omega arith)
take-append_exact (suc n) [] ys h = absurd (omega arith)
take-append_exact (suc n) (x ∷ xs) ys h = ap (◌∷◌ x) (take-append_exact n xs ys (omega arith))

pub take_short {ℓ} : {A : Type ℓ} (n : ℕ) (xs : List A) → length xs < n → take n xs ≡ xs
take_short zero xs h = absurd (omega arith)
take_short (suc n) [] h = refl
take_short (suc n) (x ∷ xs) h = ap (◌∷◌ x) (take_short n xs (omega arith))

pub mem_text-cons : (g : Text) (seen : List Text) → mem_text g (g ∷ seen) ≡ true
unfolding mem_text
mem_text-cons g seen = ground (arith, text_eq_refl g)

mem_text_later :
    (g k : Text) (seen : List Text) → mem_text g seen ≡ true → mem_text g (k ∷ seen) ≡ true
unfolding mem_text
mem_text_later g k seen h = ground (arith, h)

module _ (q : Query) where
  -- What the rest of the walk should add.
  abbrev pub rest_of : Walk → List (Text × ListItem)
  rest_of w = reference_items q w.seen_prefixes (pending w.stack)

  abbrev pub Settled : Option Text → List Text → Type 0
  Settled none seen = Unit
  Settled (some g) seen = (mem_text g seen ≡ true) × GroupOf q g

  pub Settled-cons :
      (settled : Option Text) (k : Text) (seen : List Text)
      → Settled settled seen
      → Settled settled (k ∷ seen)
  Settled-cons none k seen s = tt
  Settled-cons (some g) k seen (known, group) = (mem_text_later g k seen known, group)

  abbrev pub FrameIn : List Child → Type 0
  FrameIn f = (d : Text) × IsDirKey d × FrameOf d f

  -- The page has room, the frames hold children of directories, and the settled group is a group
  -- that was seen.
  pub record IsValid (w : Walk) : Type 0 where
    pub fits : length w.items < q.limit
    pub frames : All FrameIn w.stack
    pub settled : Settled w.settled_group w.seen_prefixes

  pub hidden_by_group :
      (key : Text) (files : List KeyFile) (seen : List Text) (settled : Option Text)
      → Settled settled seen
      → in_settled settled key ≡ true
      → Under key files
      → AllHidden q seen files
  unfolding in_settled
  hidden_by_group key files seen none s h u = ground (arith, h)
  hidden_by_group key files seen (some g) (known, group) h u =
      GroupOf-hidden q seen g files group (inr known) (Under-trans key g files h u)

  -- A group that is not shown now: settled, or without a file.
  pub not_new :
      (g : Text) (files : List KeyFile) (seen : List Text) (n : Node)
      → GroupOf q g
      → Under g files
      → node_has_file n ≡ not (is_empty files)
      → (after_start q.start_after g && (not (mem_text g seen) && node_has_file n)) ≡ false
      → AllHidden q seen files
  not_new g [] seen n group u holds h = tt
  not_new g (f ∷ files) seen n group u holds h = elim (Bool-cases (after_start q.start_after g)) [
    | inr early ↦ GroupOf-hidden q seen g (f ∷ files) group (inl early) u
    | inl late ↦ GroupOf-hidden q seen g (f ∷ files) group (inr (ground (arith, h, late, holds))) u
  ]

  -- The first file of a group, and the rest of the group behind it.
  pub group_block :
      (g : Text) (seen : List Text) (files after : List KeyFile)
      → GroupOf q g
      → Under g files
      → is_empty files ≡ false
      → (after_start q.start_after g && not (mem_text g seen)) ≡ true
      → reference_items q seen (files ++ after) ≡ (g, prefix g) ∷ reference_items q (g ∷ seen) after
  group_block g seen [] after group u full new = ground (arith, full)
  group_block g seen ((key, m) ∷ files) after group (k, u) full new =
      reference_items-group q seen key m (files ++ after) (shown_as-GroupOf q g key m group k)
      ∙ (rw new (
          ap (λ l. (g, prefix g) ∷ l)
            (reference_items-hidden q (g ∷ seen) files after
              (GroupOf-hidden q (g ∷ seen) g files group (inr (mem_text-cons g seen)) u))))

  pub settled-hidden :
      (key : Text) (files : List KeyFile) (w : Walk)
      → IsValid w
      → in_settled w.settled_group key ≡ true
      → Under key files
      → AllHidden q w.seen_prefixes files
  unfolding in_settled
  settled-hidden key files w v h u =
      hidden_by_group key files w.seen_prefixes w.settled_group v.settled h u
