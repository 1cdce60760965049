-- ===== src/FilePath/Names.antt =====
-- File names: what `components` makes of the parts of a key.
use ferro_s.Base.{
  ℕ, List, [], ◌∷◌, some, true, false, ◌≡◌, refl, sym, ap, ◌∙◌, Text, codes, text_eq, split,
  is_empty, ◌==◌, All, arith, map, Bool-cases, inl, inr, cons_head,
}
use ferro_s.Base.Strings.Laws.{Differs}
use ferro_s.FilePath.{
  Component, normal, part_component, body_components, first_components, components, push_some,
}

-- A name that can stand in a directory: not empty, not `.`, not `..`, and with no slash.
pub record IsName (s : Text) : Type 0 where
  pub not_empty : is_empty s ≡ false
  pub not_dot : text_eq s (codes ".") ≡ false
  pub not_dots : text_eq s (codes "..") ≡ false
  pub no_slash : All (Differs b'/') s

cons_head-All :
    (c : ℕ) (ts : List Text)
    → Differs b'/' c
    → All (All (Differs b'/')) ts
    → All (All (Differs b'/')) (cons_head c ts)
cons_head-All c [] p h = ((p, tt), tt)
cons_head-All c (t ∷ ts) p (h, hs) = ((p, h), hs)

pub split-no_slash : (s : Text) → All (All (Differs b'/')) (split b'/' s)
unfolding split
split-no_slash [] = (tt, tt)
split-no_slash (c ∷ s) = elim (Bool-cases (c == b'/')) [
  | inl y ↦ rw y (tt, split-no_slash s)
  | inr n ↦ rw n (cons_head-All c (split b'/' s) n (split-no_slash s))
]

-- Every `Normal` component is a name.
abbrev pub NamesOnly : Component → Type 0
NamesOnly (normal c) = IsName c
NamesOnly _ = Unit

push_part-NamesOnly :
    (part : Text) (cs : List Component)
    → All (Differs b'/') part
    → All NamesOnly cs
    → All NamesOnly (push_some (part_component part) cs)
unfolding part_component
push_part-NamesOnly part cs p h = elim (Bool-cases (is_empty part)) [
  | inl y ↦ rw y h
  | inr empty ↦ elim (Bool-cases (text_eq part (codes "."))) [
    | inl y ↦ rw (empty, y) h
    | inr dot ↦ elim (Bool-cases (text_eq part (codes ".."))) [
      | inl y ↦ rw (empty, dot, y) (tt, h)
      | inr dots ↦
          rw (empty, dot, dots)
            (record { not_empty = empty; not_dot = dot; not_dots = dots; no_slash = p }, h)
    ]
  ]
]

body_components-NamesOnly :
    (parts : List Text) → All (All (Differs b'/')) parts → All NamesOnly (body_components parts)
unfolding body_components
body_components-NamesOnly [] h = tt
body_components-NamesOnly (part ∷ parts) (p, h) =
    push_part-NamesOnly part (body_components parts) p (body_components-NamesOnly parts h)

first_components-NamesOnly :
    (parts : List Text) → All (All (Differs b'/')) parts → All NamesOnly (first_components parts)
unfolding first_components
first_components-NamesOnly [] h = tt
first_components-NamesOnly (part ∷ parts) (p, h) = elim (Bool-cases (text_eq part (codes "."))) [
  | inl y ↦ rw y (tt, body_components-NamesOnly parts h)
  | inr n ↦ rw n (body_components-NamesOnly (part ∷ parts) (p, h))
]

pub components-NamesOnly : (key : Text) → All NamesOnly (components key)
unfolding components
components-NamesOnly [] = tt
components-NamesOnly (c ∷ s) = elim (Bool-cases (c == b'/')) [
  | inl y ↦ rw y (tt, body_components-NamesOnly (split b'/' s) (split-no_slash s))
  | inr n ↦ rw n (first_components-NamesOnly (split b'/' (c ∷ s)) (split-no_slash (c ∷ s)))
]

-- Names, each as a component.
part_component-name : (s : Text) → IsName s → part_component s ≡ some (normal s)
unfolding part_component
part_component-name s h = rw (h.not_empty, h.not_dot, h.not_dots)

body_components-names :
    (names : List Text) → All IsName names → body_components names ≡ map normal names
unfolding body_components
body_components-names [] h = refl
body_components-names (s ∷ names) (p, h) =
    rw (part_component-name s p) (ap (λ cs. normal s ∷ cs) (body_components-names names h))

first_components-names :
    (names : List Text) → All IsName names → first_components names ≡ map normal names
unfolding first_components
first_components-names [] h = refl
first_components-names (s ∷ names) (p, h) = rw p.not_dot (body_components-names (s ∷ names) (p, h))

empty_first : (names us : List Text) → names ≡ [] ∷ us → ¬ All IsName names
empty_first [] us e h = cc
empty_first (s ∷ names) us e (p, h) = ground (arith, p.not_empty)

split_nil : split b'/' [] ≡ [] ∷ []
unfolding split
split_nil = refl

pub split_slash : (c : ℕ) (s : Text) → (c == b'/') ≡ true → split b'/' (c ∷ s) ≡ [] ∷ split b'/' s
unfolding split
split_slash c s y = rw y

pub components_of_text :
    (key : Text) (names : List Text)
    → split b'/' key ≡ names
    → All IsName names
    → components key ≡ map normal names
unfolding components
components_of_text [] names e h = absurd (empty_first names [] (sym e ∙ split_nil) h)
components_of_text (c ∷ s) names e h = elim (Bool-cases (c == b'/')) [
  | inl y ↦ absurd (empty_first names (split b'/' s) (sym e ∙ split_slash c s y) h)
  | inr n ↦ rw (n, e) (first_components-names names h)
]
