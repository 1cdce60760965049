-- ===== src/Listing/Tree.antt =====
-- The bucket's directory tree as the walk reads it, and `read_children`, `subtree_has_file` of
-- src/handlers/list.rs. An entry that is a symbolic link counts as a file, but a path through it is
-- followed, as `read_dir` does at the search root.
use ferro_s.Base.{
  List, [], ◌∷◌, ◌++◌, Option, none, some, Bool, true, false, ◌||◌, Text, codes, text_lt, text_eq,
  if◌then◌else◌, ◌>>=◌, ◌≡◌, refl,
}
use ferro_s.Metadata.{Metadata}
use ferro_s.FilePath.{FilePath}

mutual
  pub data Node : Type 0 where
    -- The metadata is missing where the file vanishes before it is read.
    file : Option Metadata → Target → Node
    -- Whether `read_dir` succeeds, and the entries in the order in which it gives them.
    dir : Bool → Entries → Node

  -- Where a path through an entry leads that is no directory itself: on, for a symbolic link to a
  -- directory, whose entries stand here as far down as a path goes.
  pub data Target : Type 0 where
    nowhere : Target
    into : Bool → Entries → Target

  pub data Entries : Type 0 where
    nil : Entries
    entry : Text → Node → Entries → Entries

-- `Child`: the node stands for the field `path`.
pub record Child : Type 0 where
  pub key : Text
  pub node : Node

abbrev pub is_dir : Node → Bool
is_dir (file m t) = false
is_dir (dir readable es) = true

abbrev pub child_key : Text → Text → Node → Text
child_key key_prefix name (file m t) = key_prefix ++ name
child_key key_prefix name (dir readable es) = key_prefix ++ (name ++ codes "/")

unfoldable pub list_children : Text → Entries → List Child
list_children key_prefix nil = []
list_children key_prefix (entry name n es) =
    (record { key = child_key key_prefix name n; node = n }) ∷ list_children key_prefix es

-- `sort_by`, which is stable.
unfoldable pub insert_child : Child → List Child → List Child
insert_child c [] = c ∷ []
insert_child c (d ∷ ds) = if text_lt d.key c.key then d ∷ insert_child c ds else c ∷ d ∷ ds

unfoldable pub sort_children : List Child → List Child
sort_children [] = []
sort_children (c ∷ cs) = insert_child c (sort_children cs)

unfoldable pub read_children : Node → Text → List Child
read_children (file m nowhere) key_prefix = []
read_children (file m (into false es)) key_prefix = []
read_children (file m (into true es)) key_prefix = sort_children (list_children key_prefix es)
read_children (dir false es) key_prefix = []
read_children (dir true es) key_prefix = sort_children (list_children key_prefix es)

-- Past a link, the directory that it leads to is read.
pub read_children-into :
    (m : Option Metadata) (readable : Bool) (es : Entries) (key : Text)
    → read_children (file m (into readable es)) key ≡ read_children (dir readable es) key
unfolding read_children
read_children-into m false es key = refl
read_children-into m true es key = refl

-- A subdirectory that cannot be read is passed over.
unfoldable mutual
  pub node_has_file : Node → Bool
  node_has_file (file m t) = true
  node_has_file (dir false es) = false
  node_has_file (dir true es) = entries_have_file es

  pub entries_have_file : Entries → Bool
  entries_have_file nil = false
  entries_have_file (entry name n es) = node_has_file n || entries_have_file es

unfoldable pub find_entry : Text → Entries → Option Node
find_entry name nil = none
find_entry name (entry n node es) = if text_eq n name then some node else find_entry name es

abbrev pub open_dir : Node → Option Entries
open_dir (file m nowhere) = none
open_dir (file m (into readable es)) = some es
open_dir (dir readable es) = some es

-- The node at a path below the storage directory.
unfoldable pub node_at : Node → FilePath → Option Node
node_at n [] = some n
node_at n (name ∷ rest) = open_dir n >>= λ es. find_entry name es >>= λ m. node_at m rest

abbrev pub is_link : Node → Bool
is_link (file m nowhere) = false
is_link (file m (into readable es)) = true
is_link (dir readable es) = false

-- Whether a path goes through a symbolic link to a directory, or ends at one.
unfoldable pub through_link : Node → FilePath → Bool
through_link n [] = is_link n
through_link n (name ∷ rest) = is_link n || (elim (open_dir n) [
  | none ↦ false
  | some es ↦ elim (find_entry name es) [ none ↦ false | some m ↦ through_link m rest ]
])
