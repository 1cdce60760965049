-- ===== src/Listing/Refinement/Roots.antt =====
-- Prefixes as directories and a rest: what `rfind`, `split` and `strip_path` make of them.
use ferro_s.Base.{
  ℕ, ◌≡◌, refl, sym, ap, ◌∙◌, ◌⊎◌, inl, inr, List, [], ◌∷◌, ◌++◌, Option, none, some, true, false,
  Text, codes, text_eq, text_eq_refl, All, split, join, rfind, is_empty, Bool-cases, Option-cases,
  arith, ◌==◌, cons_head, append_assoc,
}
use ferro_s.FilePath.{FilePath, components, join_components, prefix_search_root, rel_path_to_key}
use ferro_s.FilePath.Names.{IsName}
use ferro_s.Listing.Tree.{Node, file, nowhere, into, dir, Entries, nil, entry, find_entry, node_at}
use ferro_s.Listing.Walk.{strip_path, root_key}
use ferro_s.Listing.Reference.{reference_keys}
use ferro_s.Listing.Refinement.Names.{HasNoSlash, NamesOk, EntriesOk}
use ferro_s.Listing.Refinement.Search.{files_at}
use ferro_s.Listing.Refinement.Filter.{IsListable, ListableEntries}
use ferro_s.Listing.Refinement.Root.{in_dirs, find_entry-IsListable}
use ferro_s.Listing.Refinement.Parts.{IsKey, reference_keys-IsKey}

is_separator : (c : ℕ) → (c == b'/') ≡ true → c ≡ b'/'
is_separator c h = ground (arith, h)

-- The text before the last slash, and what follows it.
pub rfind_sound :
    (s : Text) {b : Text} → rfind s b'/' ≡ some b → (rest : Text) × (s ≡ b ++ (b'/' ∷ rest))
unfolding rfind
rfind_sound [] h = ground (arith, h)
rfind_sound (c ∷ s) {b} h = elim (Option-cases (rfind s b'/')) [
  | inl n ↦ elim (Bool-cases (c == b'/')) [
    | inl y ↦
        let is : some [] ≡ some b = rw (n, y) at h in
        let empty : [] ≡ b = ground (arith, is) in
        (s, rw (← empty) (ap (λ d. d ∷ s) (is_separator c y)))
    | inr o ↦ ground (arith, rw (n, o) at h)
  ]
  | inr (before, e) ↦
      let is : some (c ∷ before) ≡ some b = rw e at h in
      let same : c ∷ before ≡ b = ground (arith, is) in
      let (rest, found) = rfind_sound s e in (rest, rw (← same) (ap (λ t. c ∷ t) found))
]

in_dirs-cons_head :
    (c : ℕ) (parts : List Text) (rest : Text)
    → ¬ (parts ≡ [])
    → in_dirs (cons_head c parts) rest ≡ c ∷ in_dirs parts rest
in_dirs-cons_head c [] rest h = absurd (h refl)
in_dirs-cons_head c (a ∷ parts) rest h = refl

cons_head_some : (c : ℕ) (parts : List Text) → ¬ (cons_head c parts ≡ [])
cons_head_some c [] e = ground (arith, e)
cons_head_some c (a ∷ parts) e = ground (arith, e)

split_some : (s : Text) → ¬ (split b'/' s ≡ [])
unfolding split
split_some [] e = ground (arith, e)
split_some (c ∷ s) e = elim (Bool-cases (c == b'/')) [
  | inl y ↦ ground (arith, rw y at e)
  | inr n ↦ cons_head_some c (split b'/' s) (rw n at e)
]

pub in_dirs-split : (b rest : Text) → in_dirs (split b'/' b) rest ≡ b ++ (b'/' ∷ rest)
unfolding split
in_dirs-split [] rest = refl
in_dirs-split (c ∷ b) rest = elim (Bool-cases (c == b'/')) [
  | inl y ↦ rw y (
      ap (λ s. b'/' ∷ s) (in_dirs-split b rest)
      ∙ ap (λ d. d ∷ (b ++ (b'/' ∷ rest))) (sym (is_separator c y)))
  | inr n ↦ rw n (
      in_dirs-cons_head c (split b'/' b) rest (split_some b)
      ∙ ap (λ s. c ∷ s) (in_dirs-split b rest))
]

IsName-cases : (s : Text) → HasNoSlash s → IsName s ⊎ ¬ IsName s
IsName-cases s h = elim (Bool-cases (is_empty s)) [
  | inl y ↦ inr (λ p. ground (arith, y, p.not_empty))
  | inr empty ↦ elim (Bool-cases (text_eq s (codes "."))) [
    | inl y ↦ inr (λ p. ground (arith, y, p.not_dot))
    | inr dot ↦ elim (Bool-cases (text_eq s (codes ".."))) [
      | inl y ↦ inr (λ p. ground (arith, y, p.not_dots))
      | inr dots ↦ inl (record { not_empty = empty; not_dot = dot; not_dots = dots; no_slash = h })
    ]
  ]
]

pub names_cases : (parts : List Text) → All HasNoSlash parts → All IsName parts ⊎ ¬ All IsName parts
names_cases [] h = inl tt
names_cases (a ∷ parts) (p, h) = elim (IsName-cases a p) [
  | inr bad ↦ inr (λ ok. bad ok.0)
  | inl good ↦ elim (names_cases parts h) [
    | inl all ↦ inl (good, all)
    | inr bad ↦ inr (λ ok. bad ok.1)
  ]
]

pub strip_path-append :
    (storage names : FilePath) → strip_path (storage ++ names) storage ≡ some names
unfolding strip_path
strip_path-append [] [] = refl
strip_path-append [] (a ∷ names) = refl
strip_path-append (c ∷ storage) names = rw (text_eq_refl c) (strip_path-append storage names)

join-in_dirs :
    (a : Text) (names : List Text)
    → join (codes "/") (a ∷ names) ++ codes "/" ≡ in_dirs (a ∷ names) []
unfolding join
join-in_dirs a [] = refl
join-in_dirs a (b ∷ names) =
    append_assoc a (b'/' ∷ join (codes "/") (b ∷ names)) (codes "/")
    ∙ ap (λ s. a ++ (b'/' ∷ s)) (join-in_dirs b names)

is_empty-append : (s t : Text) → is_empty s ≡ false → is_empty (s ++ t) ≡ false
is_empty-append [] t h = ground (arith, h)
is_empty-append (c ∷ s) t h = refl

join_some :
    (a : Text) (names : List Text)
    → is_empty a ≡ false
    → is_empty (join (codes "/") (a ∷ names)) ≡ false
unfolding join
join_some a [] h = h
join_some a (b ∷ names) h = is_empty-append a (b'/' ∷ join (codes "/") (b ∷ names)) h

pub root_key-in_dirs : (names : List Text) → All IsName names → root_key names ≡ in_dirs names []
unfolding root_key rel_path_to_key
root_key-in_dirs [] h = unfold join in refl
root_key-in_dirs (a ∷ names) (p, h) = rw (join_some a names p.not_empty) (join-in_dirs a names)

mutual
  names_ok : (n : Node) → IsListable n → NamesOk n
  names_ok (file m nowhere) h = tt
  names_ok (file m (into readable es)) (r, h) = entries_ok es h
  names_ok (dir readable es) (r, h) = entries_ok es h

  entries_ok : (es : Entries) → ListableEntries es → EntriesOk es
  entries_ok nil h = tt
  entries_ok (entry name n es) (p, fresh, ok, h) = (p.no_slash, names_ok n ok, entries_ok es h)

-- A tree in which every directory can be read has names without slashes.
pub IsListable-NamesOk : (n : Node) → IsListable n → NamesOk n
IsListable-NamesOk n h = names_ok n h

pub node_at-IsListable :
    (names : List Text) (n : Node) {m : Node}
    → IsListable n
    → node_at n names ≡ some m
    → IsListable m
unfolding node_at
node_at-IsListable [] n {m} h e = let is : n ≡ m = ground (arith, e) in rw (← is) h
node_at-IsListable (a ∷ names) (file m nowhere) h e = ground (arith, e)
node_at-IsListable (a ∷ names) (file m (into readable es)) (r, h) e =
    elim (Option-cases (find_entry a es)) [
      | inl f ↦ ground (arith, rw f at e)
      | inr (k, f) ↦ node_at-IsListable names k (find_entry-IsListable a es h f) (rw f at e)
    ]
node_at-IsListable (a ∷ names) (dir readable es) (r, h) e = elim (Option-cases (find_entry a es)) [
  | inl f ↦ ground (arith, rw f at e)
  | inr (m, f) ↦ node_at-IsListable names m (find_entry-IsListable a es h f) (rw f at e)
]

pub files_at-IsKey :
    (names : List Text) (o : Option Node) (d : Text)
    → d ≡ in_dirs names []
    → All IsName names
    → ((n : Node) → o ≡ some n → IsListable n)
    → All IsKey (files_at o d)
files_at-IsKey names none d e h ok = tt
files_at-IsKey names (some (file m nowhere)) d e h ok = tt
files_at-IsKey names (some (file m (into readable es))) d e h ok =
    let (r, below) = ok (file m (into readable es)) refl in
    rw r (unfold reference_keys in reference_keys-IsKey names es d e h below)
files_at-IsKey names (some (dir false es)) d e h ok = unfold reference_keys in tt
files_at-IsKey names (some (dir true es)) d e h ok =
    reference_keys-IsKey names es d e h (ok (dir true es) refl).1

pub search_root_none :
    (storage : FilePath) (p : Text)
    → rfind p b'/' ≡ none
    → prefix_search_root storage p ≡ some storage
unfolding prefix_search_root
search_root_none storage p h = rw (prefix_search_root, h)

pub search_root_some :
    (storage : FilePath) (p : Text) {b : Text}
    → rfind p b'/' ≡ some b
    → prefix_search_root storage p ≡ join_components storage (components b)
unfolding prefix_search_root
search_root_some storage p h = rw (prefix_search_root, h)
