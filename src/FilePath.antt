-- ===== src/FilePath.antt =====
-- Object keys and file paths: `safe_join` of src/handlers/object.rs, `prefix_search_root` and
-- `rel_path_to_key` of src/handlers/list.rs, over `std::path` as it is on Unix. A path is the list
-- of its components; the configured storage directory is one such list.
pub mod Names
pub mod Contained
pub mod Equal
mod Tests
use ferro_s.Base.{
  List, [], ◌∷◌, ◌++◌, Option, none, some, ◌>>=◌, Text, codes, text_eq, split, rfind, join,
  is_empty, if◌then◌else◌, ◌==◌, ◌||◌,
}

abbrev pub FilePath : Type 0
FilePath = List Text

pub data Component : Type 0 where
  normal prefix : Text → Component
  root_dir cur_dir parent_dir : Component

-- One part between slashes: empty parts and inner `.` parts are no components.
unfoldable pub part_component : Text → Option Component
part_component part =
    if is_empty part || text_eq part (codes ".")
    then none
    else if text_eq part (codes "..")
    then some parent_dir
    else some (normal part)

abbrev push_some : Option Component → List Component → List Component
push_some none cs = cs
push_some (some c) cs = c ∷ cs

unfoldable pub body_components : List Text → List Component
body_components [] = []
body_components (part ∷ parts) = push_some (part_component part) (body_components parts)

-- A relative path that begins with a `.` part shows it as `CurDir`.
unfoldable pub first_components : List Text → List Component
first_components [] = []
first_components (part ∷ parts) =
    if text_eq part (codes ".")
    then cur_dir ∷ body_components parts
    else body_components (part ∷ parts)

-- `Path::components`.
unfoldable pub components : Text → List Component
components [] = []
components (c ∷ s) =
    if c == b'/'
    then root_dir ∷ body_components (split b'/' s)
    else first_components (split b'/' (c ∷ s))

-- The loop that `safe_join` and `prefix_search_root` share.
unfoldable pub join_components : FilePath → List Component → Option FilePath
join_components resolved [] = some resolved
join_components resolved (normal c ∷ cs) = join_components (resolved ++ (c ∷ [])) cs
join_components resolved (root_dir ∷ cs) = join_components resolved cs
join_components resolved (cur_dir ∷ cs) = join_components resolved cs
join_components resolved (prefix c ∷ cs) = none
join_components resolved (parent_dir ∷ cs) = none

unfoldable pub safe_join : FilePath → Text → Option FilePath
safe_join storage key = join_components storage (components key)

unfoldable pub prefix_search_root : FilePath → Text → Option FilePath
prefix_search_root storage key_prefix = elim (rfind key_prefix b'/') [
  | none ↦ some storage
  | some dir_part ↦ join_components storage (components dir_part)
]

-- A path below the storage directory has `Normal` components only.
unfoldable pub rel_path_to_key : FilePath → Text
rel_path_to_key rel = join (codes "/") rel

-- `Path::parent`.
unfoldable pub parent : FilePath → Option FilePath
parent [] = none
parent (c ∷ []) = some []
parent (c ∷ d ∷ cs) = parent (d ∷ cs) >>= λ p. some (c ∷ p)
