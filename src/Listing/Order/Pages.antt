-- ===== src/Listing/Order/Pages.antt =====
-- The pages that `collect_entries` of src/handlers/list.rs answers, one after the other.
use ferro_s.Base.{
  ℕ, suc, ◌+◌, ◌<◌, ◌≡◌, refl, sym, ap, ◌∙◌, List, [], ◌++◌, Option, none, some, true, Text, arith,
  Option-cases, inl, inr,
}
use ferro_s.FilePath.{FilePath, prefix_search_root}
use ferro_s.Listing.Tree.{Node, file, nowhere, into, Entries, dir, node_at}
use ferro_s.Listing.Walk.{Query, collect_entries, strip_path, root_key}
use ferro_s.Listing.Truncation.{last_key}
use ferro_s.Listing.Reference.{KeyFile, reference_items, reference_page, shown, once, past}
use ferro_s.Listing.Ends.{node_weight, collect_entries_ends}
use ferro_s.Listing.Refinement.Filter.{IsListable, ListableEntries}
use ferro_s.Listing.Refinement.Search.{files_at, search_files, page_of, collected}
use ferro_s.Listing.Refinement.Roots.{IsListable-NamesOk, node_at-IsListable}
use ferro_s.Listing.Order.Ascending.{Ascending, Ascending-take}
use ferro_s.Listing.Order.Tree.{reference_keys-Ascending}
use ferro_s.Listing.Order.Items.{Item}
use ferro_s.Listing.Order.Resume.{
  take-nil, page_query, reference_items-Ascending, reference_page-resume,
}

files_at-Ascending :
    (o : Option Node) (key : Text)
    → ((n : Node) → o ≡ some n → IsListable n)
    → Ascending (files_at o key)
files_at-Ascending none key ok = tt
files_at-Ascending (some (file m nowhere)) key ok = tt
files_at-Ascending (some (file m (into readable es))) key ok =
    reference_keys-Ascending key (dir readable es) (ok (file m (into readable es)) refl)
files_at-Ascending (some (dir readable es)) key ok =
    reference_keys-Ascending key (dir readable es) (ok (dir readable es) refl)

search_files-Ascending :
    (q : Query) (storage : FilePath) (tree : Node) {files : List KeyFile}
    → IsListable tree
    → search_files q storage tree ≡ some files
    → Ascending files
unfolding search_files
search_files-Ascending q storage tree {files} ok h =
    elim (Option-cases (prefix_search_root storage q.prefix)) [
      | inl e ↦ ground (arith, rw e at h)
      | inr (root, e) ↦ elim (Option-cases (strip_path root storage)) [
        | inl f ↦ ground (arith, rw (e, f) at h)
        | inr (rel, f) ↦
            let same : some (files_at (node_at tree rel) (root_key rel)) ≡ some files =
              rw (e, f) at h in
            let is : files_at (node_at tree rel) (root_key rel) ≡ files = ground (arith, same) in
            rw (← is) (
              files_at-Ascending (node_at tree rel) (root_key rel)
                (λ n. node_at-IsListable rel tree ok))
      ]
    ]

reference_page-nil : (q : Query) → reference_page q [] ≡ []
unfolding reference_page reference_items
reference_page-nil q = unfold past once shown in take-nil q.limit [] refl

module _ (fuel : ℕ) (storage : FilePath) (es : Entries) (ok : ListableEntries es)
    (enough : suc (node_weight (dir true es)) < fuel) where
  pub paged :
      (q : Query)
      → collect_entries q fuel storage (dir true es)
        ≡ some (page_of q (search_files q storage (dir true es)))
  paged q =
      let (items, e) = collect_entries_ends q fuel storage (dir true es) enough in
      e
      ∙ ap some
          (collected q fuel storage (dir true es) (IsListable-NamesOk (dir true es) (refl, ok)) e)

  -- The pages under one prefix are those of one list of files in order.
  searched :
      (q : Query)
      → (files : List KeyFile) × Ascending files
        × ((start : Option Text) (n : ℕ)
            → collect_entries (page_query q start n) fuel storage (dir true es)
              ≡ some (reference_page (page_query q start n) files))
  unfolding search_files
  searched q = elim (Option-cases (search_files q storage (dir true es))) [
    | inl none_found ↦ (
      [],
      tt,
      λ start n.
          paged (page_query q start n)
          ∙ ap some (
              ap (page_of (page_query q start n)) none_found
              ∙ sym (reference_page-nil (page_query q start n))),
    )
    | inr (files, found) ↦ (
      files,
      search_files-Ascending q storage (dir true es) (refl, ok) found,
      λ start n. paged (page_query q start n) ∙ ap some (ap (page_of (page_query q start n)) found),
    )
  ]

  -- Where every directory can be read and each name in it is a file name that stands there once,
  -- and with a fuel past the size of the tree, a page is answered, and its keys and common
  -- prefixes ascend in the order of their bytes: no item comes twice.
  pub collect_entries-Ascending :
      (q : Query)
      → (items : List Item) × (collect_entries q fuel storage (dir true es) ≡ some items)
        × Ascending items
  unfolding reference_page
  collect_entries-Ascending q =
      let (files, in_order, page) = searched q in
      (
        reference_page q files,
        page q.start_after q.limit,
        Ascending-take q.limit (reference_items q [] files)
            (reference_items-Ascending q files in_order),
      )

  -- Where every directory can be read and each name in it is a file name that stands there once,
  -- and with a fuel past the size of the tree: two pages, the second asked for from the last key of
  -- the first, are together the one page with the sum of their limits. No item is left out between
  -- two pages, and none comes again.
  pub collect_entries-resume :
      (q : Query) (m : ℕ) {first : List Item} {s : Text}
      → collect_entries q fuel storage (dir true es) ≡ some first
      → last_key first none ≡ some s
      → (second : List Item) × (collect_entries (page_query q (some s) m) fuel storage (dir true es)
          ≡ some second)
        × (collect_entries (page_query q q.start_after (q.limit + m)) fuel storage (dir true es)
            ≡ some (first ++ second))
  collect_entries-resume q m {first} {s} e last =
      let (files, in_order, page) = searched q in
      let known : some first ≡ some (reference_page q files) = sym e ∙ page q.start_after q.limit in
      let is : first ≡ reference_page q files = ground (arith, known) in
      (
        reference_page (page_query q (some s) m) files,
        page (some s) m,
        page q.start_after (q.limit + m)
            ∙ ap some (
                reference_page-resume q files m in_order (ap (λ l. last_key l none) (sym is) ∙ last)
                ∙ ap (λ l. l ++ reference_page (page_query q (some s) m) files) (sym is)),
      )
