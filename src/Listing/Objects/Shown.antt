-- ===== src/Listing/Objects/Shown.antt =====
-- The objects that a page of src/handlers/list.rs shows are the files that the handlers of
-- src/handlers/object.rs find under the same keys.
use ferro_s.Base.{◌≡◌, ◌++◌, some}
use ferro_s.Metadata.{Metadata}
use ferro_s.FilePath.{FilePath, safe_join}
use ferro_s.Listing.Tree.{Node, file, Target, node_at}
use ferro_s.Listing.Walk.{content, prefix, Query, content_of}
use ferro_s.Listing.Order.Items.{Item}

-- What a page shows for an object, `safe_join` finds: the path that its key leads to is the path of
-- a file below the storage directory, with the size and the other values shown. Nothing is said of
-- a common prefix.
abbrev pub IsObject : Query → FilePath → Node → Item → Type 0
IsObject q storage tree (key, prefix t) = Unit
IsObject q storage tree (key, content c) =
    (names : FilePath) × (m : Metadata) × (t : Target) × (safe_join storage key
      ≡ some (storage ++ names))
    × (node_at tree names ≡ some (file (some m) t))
    × (c ≡ content_of q key m)
