-- ===== src/Listing/Objects/Leads.antt =====
-- The key of each file below the search root of src/handlers/list.rs leads back to that file.
use ferro_s.Base.{
  ◌≡◌, refl, sym, ap, ◌∙◌, inl, inr, List, [], ◌∷◌, ◌++◌, Option, none, some, Bool, true, false,
  Text, codes, text_eq, text_eq_sound, text_eq_refl, split, rfind, All, All-append, Bool-cases,
  Option-cases, ◌>>=◌, arith, append-nil,
}
use ferro_s.Base.Strings.Laws.{split-none}
use ferro_s.Metadata.{Metadata}
use ferro_s.FilePath.{FilePath, components, prefix_search_root}
use ferro_s.FilePath.Names.{IsName, components-NamesOnly}
use ferro_s.FilePath.Contained.{Below, join_components-Below}
use ferro_s.Listing.Tree.{
  Node, file, dir, Target, nowhere, into, Entries, nil, entry, child_key, find_entry, open_dir,
  node_at,
}
use ferro_s.Listing.Walk.{Query, strip_path, root_key}
use ferro_s.Listing.Reference.{KeyFile, reference_keys, reference_blocks}
use ferro_s.Listing.Refinement.Keys.{BlocksAll, concat-All, insert_block-All}
use ferro_s.Listing.Refinement.Filter.{IsListable, ListableEntries}
use ferro_s.Listing.Refinement.Search.{files_at, search_files}
use ferro_s.Listing.Refinement.Root.{in_dirs}
use ferro_s.Listing.Refinement.Parts.{
  split-in_dirs, names_no_slash, in_dirs-append, in_dirs-snoc, file_IsKey,
}
use ferro_s.Listing.Refinement.Roots.{
  strip_path-append, root_key-in_dirs, node_at-IsListable, search_root_none, search_root_some,
}

find_entry-only : (name : Text) (o : Option Node) → (o >>= λ m. node_at m []) ≡ o
unfolding node_at
find_entry-only name none = refl
find_entry-only name (some m) = refl

-- The node one step below another.
node_at-snoc :
    (names : FilePath) (a : Text) (n : Node) {m : Node} {es : Entries}
    → node_at n names ≡ some m
    → open_dir m ≡ some es
    → node_at n (names ++ (a ∷ [])) ≡ find_entry a es
unfolding node_at
node_at-snoc [] a n {m} {es} e o =
    let is : n ≡ m = ground (arith, e) in
    let opened : open_dir n ≡ some es = ap (λ k. open_dir k) is ∙ o in
    ap (λ o. o >>= λ es. find_entry a es >>= λ k. node_at k []) opened
    ∙ find_entry-only a (find_entry a es)
node_at-snoc (b ∷ names) a n e o = elim (Option-cases (open_dir n)) [
  | inl f ↦ ground (arith, rw f at e)
  | inr (entries, f) ↦ elim (Option-cases (find_entry b entries)) [
    | inl g ↦ ground (arith, rw (f, g) at e)
    | inr (k, g) ↦ rw (f, g) (node_at-snoc names a k (rw (f, g) at e) o)
  ]
]

find_entry-here :
    (name : Text) (n : Node) (es : Entries) → find_entry name (entry name n es) ≡ some n
unfolding find_entry
find_entry-here name n es = rw (text_eq_refl name) refl

find_entry-later :
    (name a : Text) (n : Node) (es : Entries) {m : Node}
    → find_entry name es ≡ none
    → find_entry a es ≡ some m
    → find_entry a (entry name n es) ≡ some m
unfolding find_entry
find_entry-later name a n es fresh f = elim (Bool-cases (text_eq name a)) [
  | inr o ↦ rw o f
  | inl y ↦
      let gone : find_entry a es ≡ none =
        ap (λ s. find_entry s es) (sym (text_eq_sound name a y)) ∙ fresh in
      ground (arith, gone, f)
]

split-key :
    (names : FilePath) (name : Text)
    → All IsName names
    → IsName name
    → split b'/' (in_dirs names [] ++ name) ≡ names ++ (name ∷ [])
split-key names name h p =
    ap (split b'/') (in_dirs-append names [] name)
    ∙ split-in_dirs names name (names_no_slash names h)
    ∙ ap (λ l. names ++ l) (split-none b'/' name p.no_slash)

module _ (tree : Node) where
  -- A file stands where the parts of its key lead.
  abbrev pub IsAt : KeyFile → Type 0
  IsAt f =
      All IsName (split b'/' f.0)
      × ((t : Target) × (node_at tree (split b'/' f.0) ≡ some (file f.1 t)))

  abbrev Leads : FilePath → Entries → Type 0
  Leads names es =
      (a : Text) (n : Node) → find_entry a es ≡ some n → node_at tree (names ++ (a ∷ [])) ≡ some n

  file-IsAt :
      (names : FilePath) (name : Text) (m : Option Metadata) (t : Target)
      → All IsName names
      → IsName name
      → node_at tree (names ++ (name ∷ [])) ≡ some (file m t)
      → IsAt (in_dirs names [] ++ name, m)
  file-IsAt names name m t h p at =
      (file_IsKey names name m h p, (t, ap (λ s. node_at tree s) (split-key names name h p) ∙ at))

  mutual
    unfolding reference_keys reference_blocks

    node-IsAt :
        (names : FilePath) (name : Text) (n : Node) (d : Text)
        → d ≡ in_dirs names []
        → All IsName names
        → IsName name
        → IsListable n
        → node_at tree (names ++ (name ∷ [])) ≡ some n
        → All IsAt (reference_keys (child_key d name n) n)
    node-IsAt names name (file m t) d e h p ok at = rw e (file-IsAt names name m t h p at, tt)
    node-IsAt names name (dir false es) d e h p ok at = tt
    node-IsAt names name (dir true es) d e h p ok at =
        concat-All IsAt (reference_blocks (d ++ (name ++ codes "/")) es) (
          entries-IsAt (names ++ (name ∷ [])) es (d ++ (name ++ codes "/"))
            (ap (λ s. s ++ (name ++ codes "/")) e
              ∙ in_dirs-append names [] (name ++ codes "/")
              ∙ sym (in_dirs-snoc names name))
            (All-append IsName names (name ∷ []) h (p, tt)) ok.1
            (λ a n f. node_at-snoc (names ++ (name ∷ [])) a tree at refl ∙ f))

    entries-IsAt :
        (names : FilePath) (es : Entries) (d : Text)
        → d ≡ in_dirs names []
        → All IsName names
        → ListableEntries es
        → Leads names es
        → BlocksAll IsAt (reference_blocks d es)
    entries-IsAt names nil d e h ok leads = tt
    entries-IsAt names (entry name n es) d e h (p, fresh, ok, oks) leads =
        insert_block-All IsAt (child_key d name n) (reference_keys (child_key d name n) n)
          (reference_blocks d es)
          (node-IsAt names name n d e h p ok (leads name n (find_entry-here name n es)))
          (entries-IsAt names es d e h oks
            (λ a m f. leads a m (find_entry-later name a n es fresh f)))

  dir-IsAt :
      (names : FilePath) (n : Node) (readable : Bool) (es : Entries)
      → All IsName names
      → ListableEntries es
      → node_at tree names ≡ some n
      → open_dir n ≡ some es
      → All IsAt (reference_keys (root_key names) (dir readable es))
  unfolding reference_keys
  dir-IsAt names n false es h ok at o = tt
  dir-IsAt names n true es h ok at o = concat-All IsAt (reference_blocks (root_key names) es) (
      entries-IsAt names es (root_key names) (root_key-in_dirs names h) h ok
        (λ a m f. node_at-snoc names a tree at o ∙ f))

  files_at-IsAt :
      (names : FilePath) (o : Option Node)
      → All IsName names
      → IsListable tree
      → node_at tree names ≡ o
      → All IsAt (files_at o (root_key names))
  files_at-IsAt names none h ok at = tt
  files_at-IsAt names (some (file m nowhere)) h ok at = tt
  files_at-IsAt names (some (file m (into readable es))) h ok at =
      dir-IsAt names (file m (into readable es)) readable es h
        (node_at-IsListable names tree ok at).1 at refl
  files_at-IsAt names (some (dir readable es)) h ok at =
      dir-IsAt names (dir readable es) readable es h (node_at-IsListable names tree ok at).1 at refl

-- The way from the storage directory to the search root is made of names.
search_root-Below :
    (storage : FilePath) (text : Text) {root : FilePath}
    → prefix_search_root storage text ≡ some root
    → Below storage root
search_root-Below storage text {root} e = elim (Option-cases (rfind text b'/')) [
  | inl n ↦
      let same : some storage ≡ some root = sym (search_root_none storage text n) ∙ e in
      record {
        names = [];
        path_eq = sym (ground (arith, same)) ∙ sym (append-nil storage);
        are_names = tt;
      }
  | inr (b, f) ↦
      join_components-Below storage (components b) (components-NamesOnly b)
        (sym (search_root_some storage text f) ∙ e)
]

pub search_files-IsAt :
    (q : Query) (storage : FilePath) (tree : Node) {files : List KeyFile}
    → IsListable tree
    → search_files q storage tree ≡ some files
    → All (IsAt tree) files
unfolding search_files
search_files-IsAt q storage tree {files} ok h =
    elim (Option-cases (prefix_search_root storage q.prefix)) [
      | inl e ↦ ground (arith, rw e at h)
      | inr (root, e) ↦
          let below : Below storage root = search_root-Below storage q.prefix e in
          let way : strip_path root storage ≡ some below.names =
            ap (λ r. strip_path r storage) below.path_eq ∙ strip_path-append storage below.names in
          let same : some (files_at (node_at tree below.names) (root_key below.names))
              ≡ some files =
            rw (e, way) at h in
          let is : files_at (node_at tree below.names) (root_key below.names) ≡ files =
            ground (arith, same) in
          rw (← is)
            (files_at-IsAt tree below.names (node_at tree below.names) below.are_names ok refl)
    ]
