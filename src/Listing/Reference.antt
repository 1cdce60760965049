-- ===== src/Listing/Reference.antt =====
-- The listing that S3 defines, computed the plain way: every key in order, then prefix, delimiter,
-- start key and cut, each a pass of its own. It is the reference of the tests of
-- src/handlers/list.rs.
use ferro_s.Base.{
  List, [], ◌∷◌, ◌++◌, Option, none, some, true, false, Bool, not, Text, starts_with, text_lt,
  if◌then◌else◌, take, ◌>>=◌,
}
use ferro_s.FilePath.{FilePath, prefix_search_root}
use ferro_s.Metadata.{Metadata}
use ferro_s.Listing.Tree.{Node, file, dir, Entries, nil, entry, child_key, through_link}
use ferro_s.Listing.Walk.{
  ListItem, content, prefix, Query, after_start, mem_text, common_prefix, content_of, strip_path,
}

-- A file: its key, and its metadata where it can be read.
abbrev pub KeyFile : Type 0
KeyFile = Text × Option Metadata

abbrev pub concat : List (Text × List KeyFile) → List KeyFile
concat [] = []
concat ((key, files) ∷ blocks) = files ++ concat blocks

-- The files of one child, put in its place by the child's key.
unfoldable pub insert_block :
    Text → List KeyFile → List (Text × List KeyFile) → List (Text × List KeyFile)
insert_block key files [] = (key, files) ∷ []
insert_block key files ((k, fs) ∷ blocks) =
    let later = insert_block key files blocks in
    if text_lt k key then (k, fs) ∷ later else (key, files) ∷ (k, fs) ∷ blocks

-- Every file below a node, by keys; the node's own key is given.
unfoldable mutual
  unfolding insert_block

  pub reference_keys : Text → Node → List KeyFile
  reference_keys key (file m t) = (key, m) ∷ []
  reference_keys key (dir false es) = []
  reference_keys key (dir true es) = concat (reference_blocks key es)

  pub reference_blocks : Text → Entries → List (Text × List KeyFile)
  reference_blocks key nil = []
  reference_blocks key (entry name n es) =
      insert_block (child_key key name n) (reference_keys (child_key key name n) n)
        (reference_blocks key es)

-- Whether the way to the search root, if there is one, goes through a symbolic link.
abbrev pub goes_through_link : Node → Option FilePath → Bool
goes_through_link tree none = false
goes_through_link tree (some rel) = through_link tree rel

-- Whether the directory that a prefix names, at which the walk starts, is reached through a symbolic
-- link.
unfoldable pub search_through_link : Text → FilePath → Node → Bool
search_through_link text storage tree =
    goes_through_link tree (prefix_search_root storage text >>= λ root. strip_path root storage)

-- What a file under the prefix shows as: its group, or itself.
unfoldable pub shown_as : Query → Text → Option Metadata → Option (Text × ListItem)
shown_as q key m = if not (starts_with key q.prefix) then none else elim (common_prefix q key) [
  | some group ↦ some (group, prefix group)
  | none ↦ (m >>= λ m. some (key, content (content_of q key m)))
]

unfoldable pub shown : Query → List KeyFile → List (Text × ListItem)
shown q [] = []
shown q ((key, m) ∷ files) = elim (shown_as q key m) [
  | none ↦ shown q files
  | some item ↦ item ∷ shown q files
]

-- Each group once, unless it is among `seen`.
unfoldable pub once : List Text → List (Text × ListItem) → List (Text × ListItem)
once seen [] = []
once seen ((key, content c) ∷ items) = (key, content c) ∷ once seen items
once seen ((key, prefix t) ∷ items) =
    let rest = once (key ∷ seen) items in if mem_text key seen then rest else (key, prefix t) ∷ rest

-- The items past the start key.
unfoldable pub past : Option Text → List (Text × ListItem) → List (Text × ListItem)
past start [] = []
past start ((key, item) ∷ items) =
    let rest = past start items in if after_start start key then (key, item) ∷ rest else rest

unfoldable pub reference_items : Query → List Text → List KeyFile → List (Text × ListItem)
reference_items q seen files = past q.start_after (once seen (shown q files))

unfoldable pub reference_page : Query → List KeyFile → List (Text × ListItem)
reference_page q files = take q.limit (reference_items q [] files)
