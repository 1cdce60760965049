-- ===== src/FilePath/Tests.antt =====
-- The cases of the source's own tests, and the properties at inputs that meet their hypotheses.
use ferro_s.Base.{◌≡◌, refl, [], ◌∷◌, ◌++◌, none, some, codes}
use ferro_s.Base.Run.{texts}
use ferro_s.Base.{is_some, not, split}
use ferro_s.FilePath.{
  FilePath, safe_join, components, first_components, body_components, part_component,
  join_components, prefix_search_root,
}
use ferro_s.FilePath.Contained.{Below, has_dots, safe_join-refuses, safe_join-Below}

abbrev data_dir : FilePath
data_dir = codes "var" ∷ codes "data" ∷ []

abbrev nested : FilePath
nested = codes "var" ∷ codes "data" ∷ codes "folder" ∷ codes "file.txt" ∷ []

plain : safe_join data_dir (codes "./folder/.//file.txt") ≡ some nested
unfolding safe_join components first_components body_components part_component join_components texts
plain = refl

rooted : safe_join data_dir (codes "/folder/file.txt") ≡ some nested
unfolding safe_join components first_components body_components part_component join_components texts
rooted = refl

traversal : safe_join data_dir (codes "folder/../../etc/passwd") ≡ none
unfolding safe_join components first_components body_components part_component join_components texts
traversal = refl

mid_name :
    prefix_search_root data_dir (codes "folder/fi") ≡ some (data_dir ++ (codes "folder" ∷ []))
unfolding prefix_search_root components first_components body_components part_component
    join_components texts
mid_name = refl

safe_join-Below_example : Below data_dir nested
safe_join-Below_example = safe_join-Below data_dir (codes "/folder/file.txt") rooted

safe_join-refuses_example :
    is_some (safe_join data_dir (codes "folder/../../etc/passwd"))
    ≡ not (has_dots (split b'/' (codes "folder/../../etc/passwd")))
safe_join-refuses_example = safe_join-refuses data_dir (codes "folder/../../etc/passwd")
