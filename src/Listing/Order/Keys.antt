-- ===== src/Listing/Order/Keys.antt =====
-- The keys of a directory tree in order: those of one child stand before those of the next.
use ferro_s.Base.{
  ◌≡◌, refl, sym, ap, ◌∙◌, List, [], ◌∷◌, ◌++◌, true, false, Text, codes, text_lt, text_eq,
  text_eq_refl, starts_with, starts_with_sound, split, drop, length, All, Bool-cases, inl, inr,
  arith,
}
use ferro_s.Base.Strings.Laws.{split-none, split-append}
use ferro_s.Base.Strings.Prefixes.{
  drop-length-append, starts_with-append_both, text_lt_trans, text_lt-starts_with, text_lt-apart,
}
use ferro_s.Listing.Tree.{Node, file, dir, child_key}
use ferro_s.Listing.Reference.{KeyFile, concat, insert_block, reference_keys}
use ferro_s.Listing.Refinement.Keys.{Under, reference_keys-Under}
use ferro_s.Listing.Refinement.Names.{HasNoSlash}
use ferro_s.Listing.Refinement.Descend.{starts_with_no_slash, same_directory}
use ferro_s.Listing.Order.Ascending.{
  Below, Ascending, Before, Ascending-append, Before-nil, Before-append,
}

abbrev first_part : List Text → Text
first_part [] = []
first_part (a ∷ parts) = a

abbrev first_name : Text → Text → Text
first_name d key = first_part (split b'/' (drop (length d) key))

first_name-child_key : (d a : Text) (n : Node) → HasNoSlash a → first_name d (child_key d a n) ≡ a
first_name-child_key d a (file m t) h = rw (drop-length-append d a, split-none b'/' a h) refl
first_name-child_key d a (dir readable es) h =
    rw (drop-length-append d (a ++ codes "/"), split-append b'/' a [] h) refl

-- Different names have different keys.
pub child_key-apart :
    (d a b : Text) (n m : Node)
    → HasNoSlash a
    → HasNoSlash b
    → text_eq a b ≡ false
    → ¬ (child_key d a n ≡ child_key d b m)
child_key-apart d a b n m h k ne e =
    let same : a ≡ b =
      sym (first_name-child_key d a n h) ∙ ap (first_name d) e ∙ first_name-child_key d b m k in
    let yes : text_eq a b ≡ true = ap (text_eq a) (sym same) ∙ text_eq_refl a in
    ground (arith, ne, yes)

Below-Under :
    (k g : Text) (files : List KeyFile) → text_lt k g ≡ true → Under g files → Below k files
Below-Under k g [] h u = tt
Below-Under k g ((j, m) ∷ files) h (s, u) =
    (text_lt-starts_with k g j s h, Below-Under k g files h u)

Below-apart :
    (j k g : Text) (files : List KeyFile)
    → starts_with j k ≡ true
    → starts_with g k ≡ false
    → text_lt k g ≡ true
    → Under g files
    → Below j files
Below-apart j k g [] s n h u = tt
Below-apart j k g ((i, m) ∷ files) s n h (t, u) =
    let (x, e) = starts_with_sound j k s in
    let (y, f) = starts_with_sound i g t in
    (rw (e, f) (text_lt-apart k g x y n h), Below-apart j k g files s n h u)

Before-apart :
    (k g : Text) (xs ys : List KeyFile)
    → starts_with g k ≡ false
    → text_lt k g ≡ true
    → Under k xs
    → Under g ys
    → Before xs ys
Before-apart k g [] ys n h u v = tt
Before-apart k g ((j, m) ∷ xs) ys n h (s, u) v =
    (Below-apart j k g ys s n h v, Before-apart k g xs ys n h u v)

starts_with-other_dir :
    (d a b : Text) (m : Node)
    → HasNoSlash a
    → HasNoSlash b
    → text_eq b a ≡ false
    → starts_with (child_key d b m) (d ++ (a ++ codes "/")) ≡ false
starts_with-other_dir d a b (file m t) h k ne =
    starts_with-append_both d b (a ++ codes "/") ∙ starts_with_no_slash b a [] k
starts_with-other_dir d a b (dir readable es) h k ne =
    starts_with-append_both d (b ++ codes "/") (a ++ codes "/")
    ∙ (ground (arith, ne, same_directory b a [] k h))

-- All files of one child stand before those of another with a later key.
pub Before-children :
    (d a b : Text) (n m : Node)
    → HasNoSlash a
    → HasNoSlash b
    → text_eq b a ≡ false
    → text_lt (child_key d a n) (child_key d b m) ≡ true
    → Before (reference_keys (child_key d a n) n) (reference_keys (child_key d b m) m)
Before-children d a b (file meta t) m h k ne l =
    unfold reference_keys in
    (
      Below-Under (d ++ a) (child_key d b m) (reference_keys (child_key d b m) m) l
          (reference_keys-Under (child_key d b m) m),
      tt,
    )
Before-children d a b (dir readable es) m h k ne l =
    Before-apart (d ++ (a ++ codes "/")) (child_key d b m)
      (reference_keys (d ++ (a ++ codes "/")) (dir readable es))
      (reference_keys (child_key d b m) m) (starts_with-other_dir d a b m h k ne) l
      (reference_keys-Under (d ++ (a ++ codes "/")) (dir readable es))
      (reference_keys-Under (child_key d b m) m)

abbrev pub Block : Type 0
Block = Text × List KeyFile

-- A block that stands before another.
abbrev pub Precedes : Block → Block → Type 0
Precedes b c = (text_lt b.0 c.0 ≡ true) × Before b.1 c.1

abbrev pub Comparable : Block → Block → Type 0
Comparable b c = (text_lt c.0 b.0 ≡ true → Precedes c b) × (text_lt c.0 b.0 ≡ false → Precedes b c)

abbrev pub InOrder : List Block → Type 0
InOrder [] = Unit
InOrder (b ∷ bs) = Ascending b.1 × All (Precedes b) bs × InOrder bs

Before-concat : (b : Block) (bs : List Block) → All (Precedes b) bs → Before b.1 (concat bs)
Before-concat b [] h = Before-nil b.1
Before-concat b (c ∷ bs) (p, h) = Before-append b.1 c.1 (concat bs) p.1 (Before-concat b bs h)

pub concat-Ascending : (bs : List Block) → InOrder bs → Ascending (concat bs)
concat-Ascending [] h = tt
concat-Ascending (b ∷ bs) (asc, later, h) =
    Ascending-append b.1 (concat bs) asc (concat-Ascending bs h) (Before-concat b bs later)

module _ (P : Block → Type 0) where
  pub insert_block-each :
      (key : Text) (files : List KeyFile) (bs : List Block)
      → P (key, files)
      → All P bs
      → All P (insert_block key files bs)
  unfolding insert_block
  insert_block-each key files [] p h = (p, tt)
  insert_block-each key files ((k, fs) ∷ bs) p (q, h) = elim (Bool-cases (text_lt k key)) [
    | inl y ↦ rw y (q, insert_block-each key files bs p h)
    | inr n ↦ rw n (p, (q, h))
  ]

Precedes-rest :
    (b : Block) (k : Text) (bs : List Block)
    → text_lt k b.0 ≡ false
    → All (λ (c : Block). text_lt k c.0 ≡ true) bs
    → All (Comparable b) bs
    → All (Precedes b) bs
Precedes-rest b k [] h l c = tt
Precedes-rest b k (x ∷ bs) h (l, ls) (c, cs) = (
  elim (Bool-cases (text_lt x.0 b.0)) [
    | inl y ↦ ground (arith, h, text_lt_trans k x.0 b.0 l y)
    | inr n ↦ c.1 n
  ],
  Precedes-rest b k bs h ls cs,
)

All-first :
    (b : Block) (bs : List Block)
    → All (Precedes b) bs
    → All (λ (c : Block). text_lt b.0 c.0 ≡ true) bs
All-first b [] h = tt
All-first b (c ∷ bs) (p, h) = (p.0, All-first b bs h)

pub insert_block-InOrder :
    (key : Text) (files : List KeyFile) (bs : List Block)
    → Ascending files
    → InOrder bs
    → All (Comparable (key, files)) bs
    → InOrder (insert_block key files bs)
unfolding insert_block
insert_block-InOrder key files [] asc h c = (asc, tt, tt)
insert_block-InOrder key files ((k, fs) ∷ bs) asc (here, later, h) (c, cs) =
    elim (Bool-cases (text_lt k key)) [
      | inl y ↦ rw y (
        here,
        insert_block-each (Precedes (k, fs)) key files bs (c.0 y) later,
        insert_block-InOrder key files bs asc h cs,
      )
      | inr n ↦ rw n (
        asc,
        (c.1 n, Precedes-rest (key, files) k bs n (All-first (k, fs) bs later) cs),
        (here, later, h),
      )
    ]
