-- ===== src/Listing/Walk.antt =====
-- The walk of one listing page: `collect_entries` of src/handlers/list.rs and the tests on
-- directories that it prunes by.
use ferro_s.Base.{
  ℕ, zero, suc, List, [], ◌∷◌, ◌++◌, Option, none, some, Bool, true, false, not, ◌&&◌, ◌||◌, Text,
  codes, text_lt, text_eq, starts_with, strip_prefix, find, rfind, contains, is_empty, length, drop,
  leb, ◌==◌, if◌then◌else◌, ◌>>=◌,
}
use ferro_s.Metadata.{Metadata, mod_time, etag}
use ferro_s.Api.Documents.{ObjectContent}
use ferro_s.FilePath.{FilePath, prefix_search_root, rel_path_to_key}
use ferro_s.Listing.Tree.{Node, file, dir, Child, read_children, node_has_file, node_at}

pub data ListItem : Type 0 where
  content : ObjectContent → ListItem
  prefix : Text → ListItem

-- The arguments of one walk, with the clock and chrono's formatting of a time.
pub record Query : Type 0 where
  pub prefix : Text
  pub delimiter : Option Text
  pub start_after : Option Text
  pub limit : ℕ
  pub now : ℕ
  pub rfc3339 : ℕ → Text

-- The variables of the loop.
pub record Walk : Type 0 where
  pub items : List (Text × ListItem)
  pub seen_prefixes : List Text
  pub settled_group : Option Text
  pub stack : List (List Child)

-- One round of the loop ends the walk, by `break` or by an empty stack, or goes on.
pub data Round : Type 0 where
  stop more : Walk → Round

unfoldable pub mem_text : Text → List Text → Bool
mem_text t [] = false
mem_text t (s ∷ ss) = text_eq t s || mem_text t ss

-- `start_after.is_none_or(|s| key > s)`.
unfoldable pub after_start : Option Text → Text → Bool
after_start none key = true
after_start (some s) key = text_lt s key

-- `settled_group.is_some_and(|g| key.starts_with(g))`.
unfoldable pub in_settled : Option Text → Text → Bool
in_settled none key = false
in_settled (some g) key = starts_with key g

-- `s.strip_suffix('/')`.
unfoldable pub strip_slash : Text → Option Text
strip_slash [] = none
strip_slash (c ∷ []) = if c == b'/' then some [] else none
strip_slash (c ∷ d ∷ s) = strip_slash (d ∷ s) >>= λ t. some (c ∷ t)

abbrev pub is_slash : Option Text → Bool
is_slash none = false
is_slash (some d) = text_eq d (codes "/")

unfoldable pub collapsing_group : Text → Text → Option Text → Option Text
collapsing_group subtree key_prefix delimiter = if not (is_slash delimiter) then none else do
  remainder ← strip_prefix subtree key_prefix
  inner ← strip_slash remainder
  if is_empty inner || contains inner b'/' then none else some subtree

abbrev pub start_reaches : Option Text → Text → Bool
start_reaches none subtree = true
start_reaches (some s) subtree = text_lt s subtree || starts_with s subtree

unfoldable pub subtree_may_contain : Text → Text → Option Text → Bool
subtree_may_contain subtree key_prefix start_after =
    if not (starts_with subtree key_prefix) && not (starts_with key_prefix subtree)
    then false
    else start_reaches start_after subtree

-- The CommonPrefix of a key that starts with the prefix and holds the delimiter after it.
unfoldable pub common_prefix : Query → Text → Option Text
common_prefix q key = do
  d ← q.delimiter
  before ← find (drop (length q.prefix) key) d
  some (q.prefix ++ (before ++ d))

-- The key of the directory that holds `key`, with its slash.
unfoldable pub parent_key : Text → Text
parent_key key = elim (rfind key b'/') [ none ↦ [] | some before ↦ before ++ codes "/" ]

abbrev pub pop {ℓ} : {A : Type ℓ} → List A → List A
pop [] = []
pop (f ∷ fs) = fs

module _ (q : Query) where
  unfoldable pub emit : Text → ListItem → Walk → Round
  emit key item w =
      let w' = record w { items = w.items ++ ((key, item) ∷ []) } in
      if leb q.limit (length w'.items) then stop w' else more w'

  unfoldable pub visit_dir : Text → Node → Walk → Round
  visit_dir subtree node w =
      if in_settled w.settled_group subtree
      then more w
      else if not (subtree_may_contain subtree q.prefix q.start_after)
      then more w
      else elim (collapsing_group subtree q.prefix q.delimiter) [
        | some group ↦
            if after_start q.start_after group
              && (not (mem_text group w.seen_prefixes) && node_has_file node)
            then emit group (prefix group) (record w { seen_prefixes = group ∷ w.seen_prefixes })
            else more w
        | none ↦ more (record w { stack = read_children node subtree ∷ w.stack })
      ]

  unfoldable pub visit_group : Text → Text → Walk → Round
  visit_group key group w =
      let w' = record w {
        seen_prefixes = group ∷ w.seen_prefixes;
        settled_group = some group;
        stack = if starts_with (parent_key key) group then pop w.stack else w.stack;
      } in
      if after_start q.start_after group && not (mem_text group w.seen_prefixes)
      then emit group (prefix group) w'
      else more w'

  unfoldable pub content_of : Text → Metadata → ObjectContent
  content_of key m = record {
    key = key;
    last_modified = q.rfc3339 (mod_time q.now m);
    etag = etag (mod_time q.now m) m.len;
    size = m.len;
    storage_class = codes "STANDARD";
  }

  unfoldable pub visit_object : Text → Option Metadata → Walk → Round
  visit_object key metadata w =
      if not (after_start q.start_after key)
      then more w
      else elim metadata [ none ↦ more w | some m ↦ emit key (content (content_of key m)) w ]

  unfoldable pub visit_file : Text → Option Metadata → Walk → Round
  visit_file key metadata w =
      if in_settled w.settled_group key
      then more w
      else if not (starts_with key q.prefix)
      then more w
      else elim (common_prefix q key) [
        | some group ↦ visit_group key group w
        | none ↦ visit_object key metadata w
      ]

  unfoldable pub visit : Text → Node → Walk → Round
  visit key (file m t) w = visit_file key m w
  visit key (dir readable es) w = visit_dir key (dir readable es) w

  unfoldable pub round_at : List (List Child) → Walk → Round
  round_at [] w = stop w
  round_at ([] ∷ frames) w = more (record w { stack = frames })
  round_at ((child ∷ rest) ∷ frames) w =
      visit child.key child.node (record w { stack = rest ∷ frames })

  unfoldable pub round : Walk → Round
  round w = round_at w.stack w

  -- `None` where the fuel runs out before the loop ends.
  unfoldable pub walk : ℕ → Walk → Option (List (Text × ListItem))
  walk zero w = none
  walk (suc fuel) w = elim (round w) [ stop w' ↦ some w'.items | more w' ↦ walk fuel w' ]

-- `search_root.strip_prefix(storage)`.
unfoldable pub strip_path : FilePath → FilePath → Option FilePath
strip_path p [] = some p
strip_path [] (c ∷ base) = none
strip_path (d ∷ p) (c ∷ base) = let rest = strip_path p base in if text_eq c d then rest else none

unfoldable pub root_key : FilePath → Text
root_key rel = let key = rel_path_to_key rel in if is_empty key then [] else key ++ codes "/"

abbrev pub first_walk : List Child → Walk
first_walk children = record {
  items = [];
  seen_prefixes = [];
  settled_group = none;
  stack = children ∷ [];
}

abbrev pub children_at : Option Node → Text → List Child
children_at none key = []
children_at (some n) key = read_children n key

-- The children of the walk's root, where the prefix does not leave the storage directory.
unfoldable pub root_children : Query → FilePath → Node → Option (List Child)
root_children q storage tree = do
  search_root ← prefix_search_root storage q.prefix
  rel ← strip_path search_root storage
  some (children_at (node_at tree rel) (root_key rel))

unfoldable pub collect_entries : Query → ℕ → FilePath → Node → Option (List (Text × ListItem))
collect_entries q fuel storage tree =
    if q.limit == 0 then some [] else elim (root_children q storage tree) [
      | none ↦ some []
      | some children ↦ walk q fuel (first_walk children)
    ]
