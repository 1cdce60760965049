-- ===== src/Listing/Refinement/Whole.antt =====
-- The files below the search root of a prefix show as all files of the bucket do.
use ferro_s.Base.{
  ℕ, zero, suc, ◌≡◌, refl, sym, ap, ◌∙◌, inl, inr, List, [], ◌++◌, none, some, true, false, Text,
  All, take, split, join, ◌>>=◌, rfind, Option-cases, append-nil,
}
use ferro_s.FilePath.{FilePath, components, join_components, prefix_search_root, rel_path_to_key}
use ferro_s.FilePath.Names.{IsName, components-NamesOnly, components_of_text, split-no_slash}
use ferro_s.FilePath.Contained.{Below, join_components-Below, join_components-names}
use ferro_s.Listing.Tree.{Node, dir, Entries, node_at, through_link}
use ferro_s.Listing.Walk.{ListItem, Query, root_key, strip_path}
use ferro_s.Listing.Reference.{
  KeyFile, reference_keys, reference_items, reference_page, once, past, shown, search_through_link,
  goes_through_link,
}
use ferro_s.Listing.Refinement.Names.{HasNoSlash}
use ferro_s.Listing.Refinement.Search.{files_at, search_files, page_of}
use ferro_s.Listing.Refinement.Filter.{ListableEntries, matching, reference_page-matching}
use ferro_s.Listing.Refinement.Root.{in_dirs, matching-node_at}
use ferro_s.Listing.Refinement.Parts.{IsKey, reference_keys-IsKey, matching-parts}
use ferro_s.Listing.Refinement.Roots.{
  rfind_sound, in_dirs-split, names_cases, strip_path-append, root_key-in_dirs, node_at-IsListable,
  files_at-IsKey, search_root_none, search_root_some,
}

take-nil : (n : ℕ) (items : List (Text × ListItem)) → items ≡ [] → take n items ≡ []
take-nil zero items h = refl
take-nil (suc n) items h = rw h refl

-- A bucket's directory, where everything below it can be read.
module _ (q : Query) (storage : FilePath) (es : Entries) (ok : ListableEntries es)
    (own : search_through_link q.prefix storage (dir true es) ≡ false) where
  abbrev tree : Node
  tree = dir true es

  abbrev whole_keys : List KeyFile
  whole_keys = reference_keys [] tree

  page_at :
      (names : List Text) (root : FilePath)
      → prefix_search_root storage q.prefix ≡ some root
      → root ≡ storage ++ names
      → page_of q (search_files q storage tree)
        ≡ reference_page q (files_at (node_at tree names) (root_key names))
  unfolding search_files
  page_at names root e is = rw (e, is, strip_path-append storage names)

  no_link :
      (names : List Text) (root : FilePath)
      → prefix_search_root storage q.prefix ≡ some root
      → root ≡ storage ++ names
      → through_link tree names ≡ false
  unfolding search_through_link
  no_link names root e is =
      let way : (prefix_search_root storage q.prefix >>= λ r. strip_path r storage) ≡ some names =
        rw (e, is) (strip_path-append storage names) in
      sym (ap (goes_through_link tree) way) ∙ own

  page_nowhere :
      prefix_search_root storage q.prefix ≡ none → page_of q (search_files q storage tree) ≡ []
  unfolding search_files
  page_nowhere e = rw e refl

  page-named :
      (parts : List Text) (rest : Text)
      → q.prefix ≡ in_dirs parts rest
      → All IsName parts
      → through_link tree parts ≡ false
      → reference_page q (files_at (node_at tree parts) (root_key parts))
        ≡ reference_page q whole_keys
  page-named parts rest e h direct =
      reference_page-matching q (files_at (node_at tree parts) (root_key parts)) whole_keys (
        sym (
          matching-node_at parts q.prefix [] rest (root_key parts) tree e (root_key-in_dirs parts h)
            h (refl, ok) direct))

  page-unnamed :
      (parts : List Text) (rest : Text) (files : List KeyFile)
      → q.prefix ≡ in_dirs parts rest
      → All HasNoSlash parts
      → ¬ All IsName parts
      → All IsKey files
      → reference_page q files ≡ reference_page q []
  page-unnamed parts rest files e h bad keys = reference_page-matching q files [] (
      ap (λ p. matching p files) e
      ∙ matching-parts parts rest files h bad keys
      ∙ sym (matching-parts parts rest [] h bad tt)
      ∙ ap (λ p. matching p []) (sym e))

  reference_page-nil : reference_page q [] ≡ []
  unfolding reference_page reference_items
  reference_page-nil = unfold past once shown in take-nil q.limit [] refl

  page-split :
      (b rest : Text)
      → rfind q.prefix b'/' ≡ some b
      → q.prefix ≡ in_dirs (split b'/' b) rest
      → page_of q (search_files q storage tree) ≡ reference_page q whole_keys
  page-split b rest f e = elim (names_cases (split b'/' b) (split-no_slash b)) [
    | inl good ↦
        let at : prefix_search_root storage q.prefix ≡ some (storage ++ split b'/' b) =
          search_root_some storage q.prefix f
          ∙ ap (join_components storage) (components_of_text b (split b'/' b) refl good)
          ∙ join_components-names storage (split b'/' b) in
        page_at (split b'/' b) (storage ++ split b'/' b) at refl
        ∙ page-named (split b'/' b) rest e good
            (no_link (split b'/' b) (storage ++ split b'/' b) at refl)
    | inr bad ↦ elim (Option-cases (prefix_search_root storage q.prefix)) [
      | inl n ↦
          page_nowhere n
          ∙ (sym (
              page-unnamed (split b'/' b) rest whole_keys e (split-no_slash b) bad
                (reference_keys-IsKey [] es [] refl tt ok)
              ∙ reference_page-nil))
      | inr (root, s) ↦
          let below : Below storage root =
            join_components-Below storage (components b) (components-NamesOnly b)
              (sym (search_root_some storage q.prefix f) ∙ s) in
          page_at below.names root s below.path_eq
          ∙ page-unnamed (split b'/' b) rest
              (files_at (node_at tree below.names) (root_key below.names)) e (split-no_slash b) bad
              (files_at-IsKey below.names (node_at tree below.names) (root_key below.names)
                (root_key-in_dirs below.names below.are_names) below.are_names
                (λ n. node_at-IsListable below.names tree (refl, ok)))
          ∙ sym (
              page-unnamed (split b'/' b) rest whole_keys e (split-no_slash b) bad
                (reference_keys-IsKey [] es [] refl tt ok))
    ]
  ]

  -- The files below the search root show as the whole bucket does.
  pub page_of-search_files : page_of q (search_files q storage tree) ≡ reference_page q whole_keys
  unfolding reference_keys node_at root_key rel_path_to_key join
  page_of-search_files = elim (Option-cases (rfind q.prefix b'/')) [
    | inl n ↦
        page_at [] storage (search_root_none storage q.prefix n) (sym (append-nil storage)) ∙ refl
    | inr (b, f) ↦
        let (rest, s) = rfind_sound q.prefix f in
        page-split b rest f (s ∙ sym (in_dirs-split b rest))
  ]
