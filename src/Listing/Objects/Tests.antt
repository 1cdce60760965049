-- ===== src/Listing/Objects/Tests.antt =====
-- A bucket with a symbolic link, and what it shows of the files behind it.
use ferro_s.Base.{
  List, [], ◌∷◌, Option, none, some, true, Text, codes, text_eq, text_lt, starts_with, find, rfind,
  split, map, join, ◌≡◌, refl,
}
use ferro_s.Listing.Tree.{
  Entries, file, nowhere, into, dir, nil, entry, find_entry, node_at, read_children, list_children,
  sort_children, insert_child, node_has_file,
}
use ferro_s.Listing.Walk.{
  ListItem, Query, collect_entries, root_children, strip_path, root_key, walk, round, round_at,
  visit, visit_dir, visit_group, visit_object, visit_file, emit, content_of, collapsing_group,
  subtree_may_contain, parent_key, in_settled, strip_slash, common_prefix, mem_text, after_start,
}
use ferro_s.FilePath.{
  prefix_search_root, rel_path_to_key, join_components, components, first_components,
  body_components, part_component,
}
use ferro_s.Listing.Tests.{meta, query, entries}

-- The same bucket with a link `cur` to `b`.
abbrev linked : Entries
linked =
    entry (codes "cur")
      (file (some meta) (into true (entry (codes "c.txt") (file (some meta) nowhere) nil))) entries

-- The keys beyond the link.
abbrev below_cur : Query
below_cur = record query { prefix = codes "cur/" }

abbrev keys_of : Option (List (Text × ListItem)) → List Text
keys_of none = []
keys_of (some items) = map (λ item. item.0) items

-- A listing shows the link as an object.
linked_keys :
    keys_of (collect_entries query 20 (codes "data" ∷ []) (dir true linked))
    ≡ codes "a.txt" ∷ codes "b/c.txt" ∷ codes "cur" ∷ []
unfolding collect_entries root_children prefix_search_root join_components components
    first_components body_components part_component rfind split strip_path root_key rel_path_to_key
    join node_at find_entry read_children list_children sort_children insert_child walk round
    round_at visit visit_dir visit_group visit_object visit_file emit content_of common_prefix
    collapsing_group subtree_may_contain node_has_file parent_key in_settled after_start mem_text
    strip_slash starts_with text_lt text_eq find
linked_keys = refl

-- Under a prefix that goes through the link, it shows what lies beyond.
below_link :
    keys_of (collect_entries below_cur 20 (codes "data" ∷ []) (dir true linked))
    ≡ codes "cur/c.txt" ∷ []
unfolding collect_entries root_children prefix_search_root join_components components
    first_components body_components part_component rfind split strip_path root_key rel_path_to_key
    join node_at find_entry read_children list_children sort_children insert_child walk round
    round_at visit visit_dir visit_group visit_object visit_file emit content_of common_prefix
    collapsing_group subtree_may_contain node_has_file parent_key in_settled after_start mem_text
    strip_slash starts_with text_lt text_eq find
below_link = refl
