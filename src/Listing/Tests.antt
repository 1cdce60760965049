-- ===== src/Listing/Tests.antt =====
-- A small bucket, and the properties at inputs that meet their hypotheses.
use ferro_s.Base.{
  List, [], ◌∷◌, none, some, true, false, Text, codes, ◌++◌, ◌+◌, text_eq, text_lt, starts_with,
  find, rfind, split, ◌≡◌, refl, arith,
}
use ferro_s.Metadata.{Metadata}
use ferro_s.Listing.Tree.{Node, Entries, file, nowhere, dir, through_link, nil, entry, find_entry}
use ferro_s.Listing.Walk.{
  ListItem, content, prefix, Query, collect_entries, strip_path, common_prefix, mem_text,
  after_start,
}
use ferro_s.FilePath.{
  prefix_search_root, join_components, components, first_components, body_components,
  part_component,
}
use ferro_s.FilePath.Names.{IsName}
use ferro_s.Listing.Reference.{
  search_through_link, reference_page, reference_keys, reference_items, past, once, shown, shown_as,
  reference_blocks, insert_block,
}
use ferro_s.Listing.Truncation.{last_key}
use ferro_s.Listing.Refinement.Filter.{ListableEntries}
use ferro_s.Listing.Refinement.Page.{collect_entries-reference_page}
use ferro_s.Listing.Order.Ascending.{Ascending}
use ferro_s.Listing.Order.Resume.{page_query}
use ferro_s.Listing.Order.Pages.{collect_entries-Ascending, collect_entries-resume}
use ferro_s.Listing.Ends.{collect_entries_ends}
use ferro_s.Listing.Page.{emit_page, empty_page}
use ferro_s.Listing.Truncation.{emit_page-eq_take}

abbrev pub meta : Metadata
meta = record { is_dir = false; modified = some 5; len = 3 }

-- `a.txt`, and a directory `b` with `c.txt` in it.
abbrev tree : Node
tree = dir true (
    entry (codes "b") (dir true (entry (codes "c.txt") (file (some meta) nowhere) nil))
      (entry (codes "a.txt") (file (some meta) nowhere) nil))

abbrev plain_item : Text → Text × ListItem
plain_item key = (
  key,
  content (record {
    key = key;
    last_modified = [];
    etag = [];
    size = 3;
    storage_class = codes "STANDARD";
  }),
)

emit_page-eq_take_example :
    emit_page 1 (plain_item (codes "a") ∷ (codes "b/", prefix (codes "b/")) ∷ []) empty_page
    ≡ record {
      contents =
          record {
            key = codes "a";
            last_modified = [];
            etag = [];
            size = 3;
            storage_class = codes "STANDARD";
          }
          ∷ [];
      common_prefixes = [];
      is_truncated = true;
      next_key = some (codes "a");
    }
emit_page-eq_take_example =
    emit_page-eq_take 1 (plain_item (codes "a") ∷ (codes "b/", prefix (codes "b/")) ∷ [])

abbrev pub query : Query
query = record {
  prefix = [];
  delimiter = none;
  start_after = none;
  limit = 10;
  now = 0;
  rfc3339 = λ t. [];
}

collect_entries_ends_example :
    (items : List (Text × ListItem)) × (collect_entries query 20 (codes "data" ∷ []) tree
      ≡ some items)
collect_entries_ends_example = collect_entries_ends query 20 (codes "data" ∷ []) tree (omega arith)

file_b-IsName : IsName (codes "b")
unfolding text_eq
file_b-IsName = record {
  not_empty = refl;
  not_dot = refl;
  not_dots = refl;
  no_slash = ground arith;
}

file_a-IsName : IsName (codes "a.txt")
unfolding text_eq
file_a-IsName = record {
  not_empty = refl;
  not_dot = refl;
  not_dots = refl;
  no_slash = ground arith;
}

pub file_c-IsName : IsName (codes "c.txt")
unfolding text_eq
file_c-IsName = record {
  not_empty = refl;
  not_dot = refl;
  not_dots = refl;
  no_slash = ground arith;
}

abbrev pub entries : Entries
entries =
    entry (codes "b") (dir true (entry (codes "c.txt") (file (some meta) nowhere) nil))
      (entry (codes "a.txt") (file (some meta) nowhere) nil)

pub entries-ListableEntries : ListableEntries entries
unfolding find_entry text_eq
entries-ListableEntries =
    (file_b-IsName, refl, (refl, (file_c-IsName, refl, tt, tt)), (file_a-IsName, refl, tt, tt))

-- By groups, two items at a time.
abbrev by_groups : Query
by_groups = record query { delimiter = some (codes "/"); limit = 1 }

no_link : search_through_link (codes "b/") (codes "data" ∷ []) (dir true entries) ≡ false
unfolding search_through_link prefix_search_root join_components rfind split strip_path through_link
    find_entry text_eq components first_components body_components part_component
no_link = refl

-- The keys under `b/`, in groups.
abbrev below_b : Query
below_b = record by_groups { prefix = codes "b/" }

collect_entries-reference_page_example :
    collect_entries below_b 20 (codes "data" ∷ []) (dir true entries)
    ≡ some (reference_page below_b (reference_keys [] (dir true entries)))
collect_entries-reference_page_example =
    collect_entries-reference_page below_b 20 (codes "data" ∷ []) entries entries-ListableEntries
      no_link (omega arith)

collect_entries-Ascending_example :
    (items : List (Text × ListItem)) × (collect_entries by_groups 20
        (codes "data" ∷ [])
        (dir true entries)
      ≡ some items)
    × Ascending items
collect_entries-Ascending_example =
    collect_entries-Ascending 20 (codes "data" ∷ []) entries entries-ListableEntries (omega arith)
      by_groups

abbrev first_page : List (Text × ListItem)
first_page = reference_page by_groups (reference_keys [] (dir true entries))

first_page-last_key : last_key first_page none ≡ some (codes "a.txt")
unfolding reference_page reference_items past once shown shown_as reference_keys reference_blocks
    insert_block starts_with text_lt common_prefix find mem_text after_start
first_page-last_key = refl

first_page-collected :
    collect_entries by_groups 20 (codes "data" ∷ []) (dir true entries) ≡ some first_page
first_page-collected =
    collect_entries-reference_page by_groups 20 (codes "data" ∷ []) entries entries-ListableEntries
      (unfold search_through_link prefix_search_root rfind strip_path through_link text_eq in refl)
      (omega arith)

collect_entries-resume_example :
    (second : List (Text × ListItem)) × (collect_entries
        (page_query by_groups (some (codes "a.txt")) 1)
        20
        (codes "data" ∷ [])
        (dir true entries)
      ≡ some second)
    × (collect_entries (page_query by_groups none (1 + 1)) 20 (codes "data" ∷ []) (dir true entries)
        ≡ some (first_page ++ second))
collect_entries-resume_example =
    collect_entries-resume 20 (codes "data" ∷ []) entries entries-ListableEntries (omega arith)
      by_groups 1 first_page-collected first_page-last_key
