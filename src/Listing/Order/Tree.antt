-- ===== src/Listing/Order/Tree.antt =====
-- The keys below a directory of src/handlers/list.rs, in order.
use ferro_s.Base.{
  ◌≡◌, ap, ◌∙◌, none, true, false, Text, text_lt, text_eq, text_eq_sound, text_eq_refl, All,
  Bool-cases, inl, inr, arith,
}
use ferro_s.Base.Strings.Prefixes.{text_lt_total}
use ferro_s.Listing.Tree.{Node, file, dir, Entries, nil, entry, child_key, find_entry}
use ferro_s.Listing.Reference.{reference_keys, reference_blocks}
use ferro_s.Listing.Refinement.Names.{HasNoSlash}
use ferro_s.Listing.Refinement.Filter.{IsListable, ListableEntries}
use ferro_s.Listing.Order.Ascending.{Ascending}
use ferro_s.Listing.Order.Keys.{
  Block, Comparable, InOrder, concat-Ascending, insert_block-InOrder, insert_block-each,
  Before-children, child_key-apart,
}

text_eq-false_sym : (a b : Text) → text_eq a b ≡ false → text_eq b a ≡ false
text_eq-false_sym a b h = elim (Bool-cases (text_eq b a)) [
  | inr n ↦ n
  | inl y ↦
      let yes : text_eq a b ≡ true = ap (text_eq a) (text_eq_sound b a y) ∙ text_eq_refl a in
      ground (arith, h, yes)
]

abbrev block_of : Text → Text → Node → Block
block_of d a n = (child_key d a n, reference_keys (child_key d a n) n)

not_below :
    (d a b : Text) (n m : Node)
    → HasNoSlash a
    → HasNoSlash b
    → text_eq a b ≡ false
    → text_lt (child_key d b m) (child_key d a n) ≡ false
    → text_lt (child_key d a n) (child_key d b m) ≡ true
not_below d a b n m h k ne l = elim (Bool-cases (text_lt (child_key d a n) (child_key d b m))) [
  | inl y ↦ y
  | inr o ↦
      absurd
        (child_key-apart d a b n m h k ne (text_lt_total (child_key d a n) (child_key d b m) o l))
]

children-Comparable :
    (d a b : Text) (n m : Node)
    → HasNoSlash a
    → HasNoSlash b
    → text_eq b a ≡ false
    → Comparable (block_of d a n) (block_of d b m)
children-Comparable d a b n m h k ne = (
  λ l. (l, Before-children d b a m n k h (text_eq-false_sym b a ne) l),
  λ l.
      let up : text_lt (child_key d a n) (child_key d b m) ≡ true =
        not_below d a b n m h k (text_eq-false_sym b a ne) l in
      (up, Before-children d a b n m h k ne up),
)

-- A name that is not among the entries of a directory compares with each of them.
entries-Comparable :
    (d a : Text) (n : Node) (es : Entries)
    → HasNoSlash a
    → ListableEntries es
    → find_entry a es ≡ none
    → All (Comparable (block_of d a n)) (reference_blocks d es)
unfolding reference_blocks find_entry
entries-Comparable d a n nil h ok e = tt
entries-Comparable d a n (entry b m es) h (p, fresh, below, ok) e =
    elim (Bool-cases (text_eq b a)) [
      | inl y ↦ ground (arith, rw y at e)
      | inr o ↦
          insert_block-each (Comparable (block_of d a n)) (child_key d b m)
            (reference_keys (child_key d b m) m) (reference_blocks d es)
            (children-Comparable d a b n m h p.no_slash o)
            (entries-Comparable d a n es h ok (rw o at e))
    ]

mutual
  unfolding reference_keys reference_blocks

  node-Ascending : (key : Text) (n : Node) → IsListable n → Ascending (reference_keys key n)
  node-Ascending key (file m t) h = (tt, tt)
  node-Ascending key (dir false es) h = tt
  node-Ascending key (dir true es) (r, h) =
      concat-Ascending (reference_blocks key es) (entries-InOrder key es h)

  entries-InOrder :
      (key : Text) (es : Entries) → ListableEntries es → InOrder (reference_blocks key es)
  entries-InOrder key nil h = tt
  entries-InOrder key (entry a n es) (p, fresh, below, ok) =
      insert_block-InOrder (child_key key a n) (reference_keys (child_key key a n) n)
        (reference_blocks key es) (node-Ascending (child_key key a n) n below)
        (entries-InOrder key es ok) (entries-Comparable key a n es p.no_slash ok fresh)

-- Every key of a listable tree stands once, in order.
pub reference_keys-Ascending :
    (key : Text) (n : Node) → IsListable n → Ascending (reference_keys key n)
reference_keys-Ascending key n h = node-Ascending key n h
