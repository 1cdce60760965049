-- ===== src/Listing/Refinement/Keys.antt =====
-- The keys that the stack of `collect_entries` still holds, and those below a directory.
use ferro_s.Base.{
  ◌≡◌, refl, sym, ap, ◌∙◌, inl, inr, List, [], ◌∷◌, ◌++◌, Bool, true, false, Text, codes,
  starts_with, starts_with-append, text_lt, All, All-append, Bool-cases,
}
use ferro_s.Base.Strings.Prefixes.{starts_with_refl, starts_with_trans}
use ferro_s.Listing.Tree.{
  Node, file, dir, Entries, nil, entry, Child, child_key, list_children, insert_child,
  sort_children, read_children,
}
use ferro_s.Listing.Reference.{KeyFile, concat, insert_block, reference_keys, reference_blocks}

abbrev pub pending_frame : List Child → List KeyFile
pending_frame [] = []
pending_frame (c ∷ cs) = reference_keys c.key c.node ++ pending_frame cs

abbrev pub pending : List (List Child) → List KeyFile
pending [] = []
pending (f ∷ fs) = pending_frame f ++ pending fs

abbrev blocks_of : List Child → List (Text × List KeyFile)
blocks_of [] = []
blocks_of (c ∷ cs) = (c.key, reference_keys c.key c.node) ∷ blocks_of cs

concat-blocks_of : (cs : List Child) → concat (blocks_of cs) ≡ pending_frame cs
concat-blocks_of [] = refl
concat-blocks_of (c ∷ cs) = ap (λ fs. reference_keys c.key c.node ++ fs) (concat-blocks_of cs)

insert_block-blocks_of :
    (c : Child) (cs : List Child)
    → insert_block c.key (reference_keys c.key c.node) (blocks_of cs)
      ≡ blocks_of (insert_child c cs)
unfolding insert_block insert_child
insert_block-blocks_of c [] = refl
insert_block-blocks_of c (d ∷ ds) = elim (Bool-cases (text_lt d.key c.key)) [
  | inl y ↦
      rw y (ap (λ bs. (d.key, reference_keys d.key d.node) ∷ bs) (insert_block-blocks_of c ds))
  | inr n ↦ rw n
]

reference_blocks-sort_children :
    (key : Text) (es : Entries)
    → reference_blocks key es ≡ blocks_of (sort_children (list_children key es))
unfolding reference_blocks sort_children list_children
reference_blocks-sort_children key nil = refl
reference_blocks-sort_children key (entry name n es) =
    ap (insert_block (child_key key name n) (reference_keys (child_key key name n) n))
      (reference_blocks-sort_children key es)
    ∙ insert_block-blocks_of (record { key = child_key key name n; node = n })
        (sort_children (list_children key es))

-- What a directory that is opened adds to the stack.
pub pending-read_children :
    (key : Text) (readable : Bool) (es : Entries)
    → pending_frame (read_children (dir readable es) key) ≡ reference_keys key (dir readable es)
unfolding read_children reference_keys
pending-read_children key false es = refl
pending-read_children key true es =
    sym (concat-blocks_of (sort_children (list_children key es)))
    ∙ ap concat (sym (reference_blocks-sort_children key es))

-- All keys start with `p`.
abbrev pub Under : Text → List KeyFile → Type 0
Under p files = All (λ (f : KeyFile). starts_with f.0 p ≡ true) files

pub Under-trans :
    (g p : Text) (files : List KeyFile) → starts_with g p ≡ true → Under g files → Under p files
Under-trans g p [] h u = tt
Under-trans g p ((key, m) ∷ files) h (k, u) =
    (starts_with_trans key g p k h, Under-trans g p files h u)

-- What holds of all files in all blocks.
module _ (P : KeyFile → Type 0) where
  abbrev pub BlocksAll : List (Text × List KeyFile) → Type 0
  BlocksAll blocks = All (λ (b : Text × List KeyFile). All P b.1) blocks

  pub concat-All : (blocks : List (Text × List KeyFile)) → BlocksAll blocks → All P (concat blocks)
  concat-All [] h = tt
  concat-All ((key, files) ∷ blocks) (h, hs) =
      All-append P files (concat blocks) h (concat-All blocks hs)

  pub insert_block-All :
      (key : Text) (files : List KeyFile) (blocks : List (Text × List KeyFile))
      → All P files
      → BlocksAll blocks
      → BlocksAll (insert_block key files blocks)
  unfolding insert_block
  insert_block-All key files [] h hs = (h, tt)
  insert_block-All key files ((k, fs) ∷ blocks) h (g, hs) = elim (Bool-cases (text_lt k key)) [
    | inl y ↦ rw y (g, insert_block-All key files blocks h hs)
    | inr n ↦ rw n (h, (g, hs))
  ]

abbrev StartsWith : Text → KeyFile → Type 0
StartsWith p f = starts_with f.0 p ≡ true

pub starts_with-child_key :
    (key name : Text) (n : Node) → starts_with (child_key key name n) key ≡ true
starts_with-child_key key name (file m t) = starts_with-append key name
starts_with-child_key key name (dir readable es) = starts_with-append key (name ++ codes "/")

mutual
  unfolding reference_keys reference_blocks

  node-Under : (key : Text) (n : Node) → Under key (reference_keys key n)
  node-Under key (file m t) = (starts_with_refl key, tt)
  node-Under key (dir false es) = tt
  node-Under key (dir true es) =
      concat-All (StartsWith key) (reference_blocks key es) (blocks-Under key es)

  blocks-Under : (key : Text) (es : Entries) → BlocksAll (StartsWith key) (reference_blocks key es)
  blocks-Under key nil = tt
  blocks-Under key (entry name n es) =
      insert_block-All (StartsWith key) (child_key key name n)
        (reference_keys (child_key key name n) n) (reference_blocks key es)
        (Under-trans (child_key key name n) key _ (starts_with-child_key key name n)
          (node-Under (child_key key name n) n))
        (blocks-Under key es)

-- Every key below a node starts with the node's own.
pub reference_keys-Under : (key : Text) (n : Node) → Under key (reference_keys key n)
reference_keys-Under key n = node-Under key n
