-- ===== src/Listing/Refinement/Blocks.antt =====
-- Whether a directory holds a file: `subtree_has_file` of src/handlers/list.rs against the keys
-- below the directory.
use ferro_s.Base.{
  ◌≡◌, refl, List, [], ◌∷◌, ◌++◌, true, false, not, ◌&&◌, Text, is_empty, text_lt, Bool-cases, inl,
  inr, arith,
}
use ferro_s.Listing.Tree.{
  Node, file, dir, Entries, nil, entry, child_key, node_has_file, entries_have_file,
}
use ferro_s.Listing.Reference.{KeyFile, concat, insert_block, reference_keys, reference_blocks}

is_empty-append : (xs ys : List KeyFile) → is_empty (xs ++ ys) ≡ (is_empty xs && is_empty ys)
is_empty-append [] ys = refl
is_empty-append (x ∷ xs) ys = refl

is_empty-insert_block :
    (key : Text) (files : List KeyFile) (blocks : List (Text × List KeyFile))
    → is_empty (concat (insert_block key files blocks))
      ≡ (is_empty files && is_empty (concat blocks))
unfolding insert_block
is_empty-insert_block key files [] = is_empty-append files []
is_empty-insert_block key files ((k, fs) ∷ blocks) = elim (Bool-cases (text_lt k key)) [
  | inl y ↦ rw y (
      ground (
        arith,
        is_empty-append fs (concat (insert_block key files blocks)),
        is_empty-append fs (concat blocks),
        is_empty-insert_block key files blocks,
      ))
  | inr n ↦ rw n (is_empty-append files (fs ++ concat blocks))
]

mutual
  unfolding reference_keys reference_blocks node_has_file entries_have_file

  has_file_node : (key : Text) (n : Node) → node_has_file n ≡ not (is_empty (reference_keys key n))
  has_file_node key (file m t) = refl
  has_file_node key (dir false es) = refl
  has_file_node key (dir true es) = has_file_entries key es

  has_file_entries :
      (key : Text) (es : Entries)
      → entries_have_file es ≡ not (is_empty (concat (reference_blocks key es)))
  has_file_entries key nil = refl
  has_file_entries key (entry name n es) = ground (
    arith,
    is_empty-insert_block (child_key key name n) (reference_keys (child_key key name n) n)
        (reference_blocks key es),
    has_file_node (child_key key name n) n,
    has_file_entries key es,
  )

pub node_has_file-reference_keys :
    (key : Text) (n : Node) → node_has_file n ≡ not (is_empty (reference_keys key n))
node_has_file-reference_keys key n = has_file_node key n
