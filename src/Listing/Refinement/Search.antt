-- ===== src/Listing/Refinement/Search.antt =====
-- The walk of `collect_entries` of src/handlers/list.rs from its search root to the end.
use ferro_s.Base.{
  ℕ, zero, suc, ◌<◌, ◌≡◌, refl, sym, ap, ◌∙◌, inl, inr, List, [], ◌∷◌, ◌++◌, Option, none, some,
  Text, text_eq, take, is_empty, Bool-cases, Option-cases, arith, ◌>>=◌, ◌==◌, append-nil,
}
use ferro_s.FilePath.{FilePath, prefix_search_root, rel_path_to_key}
use ferro_s.Listing.Tree.{
  Node, file, dir, Entries, nil, entry, nowhere, into, read_children, read_children-into,
  find_entry, node_at,
}
use ferro_s.Listing.Walk.{
  ListItem, Query, Walk, Round, stop, more, round, walk, strip_path, root_key, first_walk,
  children_at, root_children, collect_entries,
}
use ferro_s.Listing.Reference.{KeyFile, reference_keys, reference_items, reference_page}
use ferro_s.Listing.Refinement.Keys.{pending_frame, pending-read_children}
use ferro_s.Listing.Refinement.Names.{IsDirKey, NamesOk, EntriesOk, FrameOf, read_children-FrameOf}
use ferro_s.Listing.Refinement.Valid.{IsValid, rest_of}
use ferro_s.Listing.Refinement.Follows.{Follows}
use ferro_s.Listing.Refinement.Rounds.{round-Follows}

-- The files below a directory that may be missing.
abbrev pub files_at : Option Node → Text → List KeyFile
files_at none key = []
files_at (some (file m nowhere)) key = []
files_at (some (file m (into readable es))) key = reference_keys key (dir readable es)
files_at (some (dir readable es)) key = reference_keys key (dir readable es)

-- The files below a directory, without those past a link.
abbrev pub own_files_at : Option Node → Text → List KeyFile
own_files_at none key = []
own_files_at (some (file m t)) key = []
own_files_at (some (dir readable es)) key = reference_keys key (dir readable es)

-- The files below the search root of a prefix.
unfoldable pub search_files : Query → FilePath → Node → Option (List KeyFile)
search_files q storage tree = do
  search_root ← prefix_search_root storage q.prefix
  rel ← strip_path search_root storage
  some (files_at (node_at tree rel) (root_key rel))

pending-children_at :
    (o : Option Node) (key : Text) → pending_frame (children_at o key) ≡ files_at o key
pending-children_at none key = refl
pending-children_at (some (file m nowhere)) key = unfold read_children in refl
pending-children_at (some (file m (into readable es))) key =
    ap pending_frame (read_children-into m readable es key) ∙ pending-read_children key readable es
pending-children_at (some (dir readable es)) key = pending-read_children key readable es

find_entry-NamesOk :
    (name : Text) (es : Entries) {n : Node} → EntriesOk es → find_entry name es ≡ some n → NamesOk n
unfolding find_entry
find_entry-NamesOk name nil h e = ground (arith, e)
find_entry-NamesOk name (entry m node es) {n} (p, ok, h) e = elim (Bool-cases (text_eq m name)) [
  | inl y ↦
      let same : some node ≡ some n = rw y at e in
      let is : node ≡ n = ground (arith, same) in rw (← is) ok
  | inr o ↦ find_entry-NamesOk name es h (rw o at e)
]

node_at-NamesOk :
    (tree : Node) (rel : FilePath) {n : Node} → NamesOk tree → node_at tree rel ≡ some n → NamesOk n
unfolding node_at
node_at-NamesOk tree [] {n} h e = let is : tree ≡ n = ground (arith, e) in rw (← is) h
node_at-NamesOk (file m nowhere) (name ∷ rel) h e = ground (arith, e)
node_at-NamesOk (file m (into readable es)) (name ∷ rel) {n} h e =
    elim (Option-cases (find_entry name es)) [
      | inl f ↦ ground (arith, rw f at e)
      | inr (k, f) ↦ node_at-NamesOk k rel (find_entry-NamesOk name es h f) (rw f at e)
    ]
node_at-NamesOk (dir readable es) (name ∷ rel) {n} h e = elim (Option-cases (find_entry name es)) [
  | inl f ↦ ground (arith, rw f at e)
  | inr (m, f) ↦ node_at-NamesOk m rel (find_entry-NamesOk name es h f) (rw f at e)
]

root_key-IsDirKey : (rel : FilePath) → IsDirKey (root_key rel)
unfolding root_key
root_key-IsDirKey rel = elim (Bool-cases (is_empty (rel_path_to_key rel))) [
  | inl y ↦ inl (rw y)
  | inr n ↦ inr (rel_path_to_key rel, rw n)
]

children_at-FrameOf :
    (d : Text) (o : Option Node)
    → ((n : Node) → o ≡ some n → NamesOk n)
    → FrameOf d (children_at o d)
children_at-FrameOf d none h = tt
children_at-FrameOf d (some n) h = read_children-FrameOf d n (h n refl)

module _ (q : Query) where
  walk_after :
      {whole items : List (Text × ListItem)} (fuel : ℕ) (r : Round)
      → Follows q whole r
      → ((w : Walk)
          → IsValid q w
          → w.items ++ rest_of q w ≡ whole
          → walk q fuel w ≡ some items
          → items ≡ take q.limit whole)
      → (elim r [ stop w' ↦ some w'.items | more w' ↦ walk q fuel w' ]) ≡ some items
      → items ≡ take q.limit whole
  walk_after {items = items} fuel (stop w) h k e =
      let is : w.items ≡ items = ground (arith, e) in sym is ∙ h.at
  walk_after fuel (more w) h k e = k w h.at.1 h.at.0 e

  walk-Follows :
      {whole items : List (Text × ListItem)} (fuel : ℕ) (w : Walk)
      → IsValid q w
      → w.items ++ rest_of q w ≡ whole
      → walk q fuel w ≡ some items
      → items ≡ take q.limit whole
  unfolding walk
  walk-Follows zero w v e h = ground (arith, h)
  walk-Follows (suc fuel) w v e h =
      walk_after fuel (round q w) (round-Follows q w v e) (walk-Follows fuel) h

  walk-first :
      (fuel : ℕ) (rel : FilePath) (tree : Node) {items : List (Text × ListItem)}
      → NamesOk tree
      → 0 < q.limit
      → walk q fuel (first_walk (children_at (node_at tree rel) (root_key rel))) ≡ some items
      → items ≡ reference_page q (files_at (node_at tree rel) (root_key rel))
  unfolding reference_page
  walk-first fuel rel tree ok room h =
      let d = root_key rel in
      let frame = children_at-FrameOf d (node_at tree rel) (λ n. node_at-NamesOk tree rel ok) in
      walk-Follows fuel (first_walk (children_at (node_at tree rel) d))
        (record { fits = room; frames = ((d, root_key-IsDirKey rel, frame), tt); settled = tt })
        (ap (reference_items q []) (
          append-nil (pending_frame (children_at (node_at tree rel) d))
          ∙ pending-children_at (node_at tree rel) d))
        h

  abbrev pub page_of : Option (List KeyFile) → List (Text × ListItem)
  page_of none = []
  page_of (some files) = reference_page q files

  page_of-zero : (o : Option (List KeyFile)) → q.limit ≡ 0 → page_of o ≡ []
  unfolding reference_page
  page_of-zero none h = refl
  page_of-zero (some files) h = ap (λ n. take n (reference_items q [] files)) h

  -- A page that is collected is the reference page of the files below the search root.
  pub collected :
      (fuel : ℕ) (storage : FilePath) (tree : Node) {items : List (Text × ListItem)}
      → NamesOk tree
      → collect_entries q fuel storage tree ≡ some items
      → items ≡ page_of (search_files q storage tree)
  unfolding collect_entries root_children search_files
  collected fuel storage tree {items} ok h = elim (Bool-cases (q.limit == 0)) [
    | inl y ↦
        (let is : [] ≡ items = ground (arith, rw y at h) in
          sym is ∙ sym (page_of-zero (search_files q storage tree) (ground (arith, y))))
    | inr n ↦ elim (Option-cases (prefix_search_root storage q.prefix)) [
      | inl e ↦ rw e (ground (arith, rw (n, e) at h))
      | inr (root, e) ↦ elim (Option-cases (strip_path root storage)) [
        | inl f ↦ rw (e, f) (ground (arith, rw (n, e, f) at h))
        | inr (rel, f) ↦
            rw (e, f) (walk-first fuel rel tree ok (ground (arith, n)) (rw (n, e, f) at h))
      ]
    ]
  ]
