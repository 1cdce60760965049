-- ===== src/FilePath/Contained.antt =====
-- The paths of `safe_join` of src/handlers/object.rs.
use ferro_s.Base.{
  List, [], ◌∷◌, ◌++◌, some, Bool, false, not, ◌||◌, ◌≡◌, refl, sym, ap, ◌∙◌, Text, codes, text_eq,
  split, is_empty, is_some, ◌==◌, All, arith, Bool-cases, inl, inr, map, append_assoc, append-nil,
  text_eq_sound, codes,
}
use ferro_s.FilePath.{
  FilePath, Component, normal, root_dir, cur_dir, parent_dir, prefix, part_component,
  body_components, first_components, components, join_components, safe_join, push_some,
}
use ferro_s.FilePath.Names.{IsName, NamesOnly, components-NamesOnly}

-- `p` lies in `root`: it is reached from there by names alone.
pub record Below (root p : FilePath) : Type 0 where
  pub names : List Text
  pub are_names : All IsName names
  pub path_eq : p ≡ root ++ names

Below-cons : {root p : FilePath} (c : Text) → IsName c → Below (root ++ (c ∷ [])) p → Below root p
Below-cons {root} c h b = record {
  names = c ∷ b.names;
  are_names = (h, b.are_names);
  path_eq = b.path_eq ∙ append_assoc root (c ∷ []) b.names;
}

pub join_components-Below :
    (resolved : FilePath) (cs : List Component) {p : FilePath}
    → All NamesOnly cs
    → join_components resolved cs ≡ some p
    → Below resolved p
unfolding join_components
join_components-Below resolved [] {p} h e = record {
  names = [];
  are_names = tt;
  path_eq = sym (append-nil resolved ∙ ground arith);
}
join_components-Below resolved (normal c ∷ cs) (n, h) e =
    Below-cons c n (join_components-Below (resolved ++ (c ∷ [])) cs h e)
join_components-Below resolved (root_dir ∷ cs) (_, h) e = join_components-Below resolved cs h e
join_components-Below resolved (cur_dir ∷ cs) (_, h) e = join_components-Below resolved cs h e
join_components-Below resolved (prefix c ∷ cs) (_, h) e = ground arith
join_components-Below resolved (parent_dir ∷ cs) (_, h) e = ground arith

-- A key that is accepted names a path inside the storage directory: the directory's own path,
-- followed by names with no slash, none of them empty, `.` or `..`.
pub safe_join-Below :
    (storage : FilePath) (key : Text) {p : FilePath}
    → safe_join storage key ≡ some p
    → Below storage p
unfolding safe_join
safe_join-Below storage key e =
    join_components-Below storage (components key) (components-NamesOnly key) e

pub join_components-names :
    (resolved names : FilePath)
    → join_components resolved (map normal names) ≡ some (resolved ++ names)
unfolding join_components
join_components-names resolved [] = ap some (sym (append-nil resolved))
join_components-names resolved (s ∷ names) =
    join_components-names (resolved ++ (s ∷ [])) names
    ∙ ap some (append_assoc resolved (s ∷ []) names)

abbrev pub has_dots : List Text → Bool
has_dots [] = false
has_dots (part ∷ parts) = text_eq part (codes "..") || has_dots parts

push_part-accepted :
    (part : Text) (cs : List Component) (rest : Bool)
    → ((resolved : FilePath) → is_some (join_components resolved cs) ≡ not rest)
    → (resolved : FilePath)
    → is_some (join_components resolved (push_some (part_component part) cs))
      ≡ not (text_eq part (codes "..") || rest)
unfolding part_component
push_part-accepted part cs rest ih resolved = elim (Bool-cases (text_eq part (codes ".."))) [
  | inl y ↦ rw (text_eq_sound part (codes "..") y) (unfold text_eq join_components in refl)
  | inr n ↦ elim (Bool-cases (is_empty part || text_eq part (codes "."))) [
    | inl skip ↦ rw (skip, n) (ih resolved)
    | inr keep ↦ rw (keep, n) (unfold join_components in ih (resolved ++ (part ∷ [])))
  ]
]

body_components-accepted :
    (resolved : FilePath) (parts : List Text)
    → is_some (join_components resolved (body_components parts)) ≡ not (has_dots parts)
unfolding body_components
body_components-accepted resolved [] = unfold join_components in refl
body_components-accepted resolved (part ∷ parts) =
    push_part-accepted part (body_components parts) (has_dots parts)
      (λ r. body_components-accepted r parts) resolved

first_components-accepted :
    (resolved : FilePath) (parts : List Text)
    → is_some (join_components resolved (first_components parts)) ≡ not (has_dots parts)
unfolding first_components
first_components-accepted resolved [] = unfold join_components in refl
first_components-accepted resolved (part ∷ parts) = elim (Bool-cases (text_eq part (codes "."))) [
  | inl y ↦ rw y (
      rw (text_eq_sound part (codes ".") y)
        (unfold text_eq join_components in body_components-accepted resolved parts))
  | inr n ↦ rw n (body_components-accepted resolved (part ∷ parts))
]

-- A key is refused exactly when one of its parts between slashes is `..`.
pub safe_join-refuses :
    (storage : FilePath) (key : Text)
    → is_some (safe_join storage key) ≡ not (has_dots (split b'/' key))
unfolding safe_join components split
safe_join-refuses storage [] = unfold join_components text_eq in refl
safe_join-refuses storage (c ∷ s) = elim (Bool-cases (c == b'/')) [
  | inl y ↦ rw y (unfold text_eq join_components in body_components-accepted storage (split b'/' s))
  | inr n ↦ rw n (rw (n, split) at (first_components-accepted storage (split b'/' (c ∷ s))))
]
