-- ===== src/Listing/Refinement/Filter.antt =====
-- The files whose keys start with a prefix: `prefix_search_root` of src/handlers/list.rs skips none.
use ferro_s.Base.{
  ◌≡◌, refl, sym, ap, ◌∙◌, List, [], ◌∷◌, ◌++◌, Option, none, true, Text, starts_with, text_lt,
  Bool-cases, Option-cases, inl, inr, if◌then◌else◌, append-nil, take,
}
use ferro_s.FilePath.Names.{IsName}
use ferro_s.Metadata.{Metadata}
use ferro_s.Listing.Tree.{Target, nowhere, into, Node, file, dir, Entries, nil, entry, find_entry}
use ferro_s.Listing.Walk.{Query}
use ferro_s.Listing.Reference.{
  KeyFile, concat, insert_block, shown_as, shown, once, past, reference_items, reference_page,
}
use ferro_s.Listing.Refinement.Hidden.{shown_as-outside, shown-none}

-- Every directory can be read, and holds names that are names, each once.
abbrev mutual
  pub IsListable : Node → Type 0
  IsListable (file m t) = IsListableTarget t
  IsListable (dir readable es) = (readable ≡ true) × ListableEntries es

  pub IsListableTarget : Target → Type 0
  IsListableTarget nowhere = Unit
  IsListableTarget (into readable es) = (readable ≡ true) × ListableEntries es

  pub ListableEntries : Entries → Type 0
  ListableEntries nil = Unit
  ListableEntries (entry name n es) =
      IsName name × (find_entry name es ≡ none) × IsListable n × ListableEntries es

unfoldable pub matching : Text → List KeyFile → List KeyFile
matching p [] = []
matching p ((key, m) ∷ files) =
    let rest = matching p files in if starts_with key p then (key, m) ∷ rest else rest

matching-append :
    (p : Text) (xs ys : List KeyFile) → matching p (xs ++ ys) ≡ matching p xs ++ matching p ys
unfolding matching
matching-append p [] ys = refl
matching-append p ((key, m) ∷ xs) ys = elim (Bool-cases (starts_with key p)) [
  | inl y ↦ rw y (ap (λ l. (key, m) ∷ l) (matching-append p xs ys))
  | inr n ↦ rw n (matching-append p xs ys)
]

shown_cons :
    (q : Query) (key : Text) (m : Option Metadata) (xs ys : List KeyFile)
    → shown q xs ≡ shown q ys
    → shown q ((key, m) ∷ xs) ≡ shown q ((key, m) ∷ ys)
unfolding shown
shown_cons q key m xs ys e = elim (Option-cases (shown_as q key m)) [
  | inl n ↦ rw (n, shown) e
  | inr (x, s) ↦ rw (s, shown) (ap (λ l. x ∷ l) e)
]

shown-matching :
    (q : Query) (files : List KeyFile) → shown q files ≡ shown q (matching q.prefix files)
unfolding matching
shown-matching q [] = refl
shown-matching q ((key, m) ∷ files) = elim (Bool-cases (starts_with key q.prefix)) [
  | inl y ↦ rw y (shown_cons q key m files (matching q.prefix files) (shown-matching q files))
  | inr n ↦ rw n (shown-none q key m files (shown_as-outside q key m n) ∙ shown-matching q files)
]

-- A page depends on the files under the prefix only.
pub reference_page-matching :
    (q : Query) (xs ys : List KeyFile)
    → matching q.prefix xs ≡ matching q.prefix ys
    → reference_page q xs ≡ reference_page q ys
unfolding reference_page reference_items
reference_page-matching q xs ys e =
    ap (λ l. take q.limit (past q.start_after (once [] l)))
      (shown-matching q xs ∙ ap (shown q) e ∙ sym (shown-matching q ys))

pub insert-matching_nil :
    (p key : Text) (files : List KeyFile) (blocks : List (Text × List KeyFile))
    → matching p files ≡ []
    → matching p (concat (insert_block key files blocks)) ≡ matching p (concat blocks)
unfolding insert_block
insert-matching_nil p key files [] h = matching-append p files [] ∙ (rw h)
insert-matching_nil p key files ((k, fs) ∷ blocks) h = elim (Bool-cases (text_lt k key)) [
  | inl y ↦ rw y (
      matching-append p fs (concat (insert_block key files blocks))
      ∙ ap (λ l. matching p fs ++ l) (insert-matching_nil p key files blocks h)
      ∙ sym (matching-append p fs (concat blocks)))
  | inr n ↦ rw n (matching-append p files (fs ++ concat blocks) ∙ (rw h))
]

append_nil_both : (xs ys : List KeyFile) → xs ++ ys ≡ [] → (xs ≡ []) × (ys ≡ [])
append_nil_both [] ys h = (refl, h)
append_nil_both (x ∷ xs) ys h = cc

pub insert-matching_alone :
    (p key : Text) (files : List KeyFile) (blocks : List (Text × List KeyFile))
    → matching p (concat blocks) ≡ []
    → matching p (concat (insert_block key files blocks)) ≡ matching p files
unfolding insert_block
insert-matching_alone p key files [] h = ap (matching p) (append-nil files)
insert-matching_alone p key files ((k, fs) ∷ blocks) h =
    let (first, others) =
      append_nil_both (matching p fs) (matching p (concat blocks))
        (sym (matching-append p fs (concat blocks)) ∙ h) in
    elim (Bool-cases (text_lt k key)) [
      | inl y ↦ rw y (
          matching-append p fs (concat (insert_block key files blocks))
          ∙ (rw first (insert-matching_alone p key files blocks others)))
      | inr n ↦ rw n (
          matching-append p files (fs ++ concat blocks)
          ∙ ap (λ l. matching p files ++ l) h
          ∙ append-nil (matching p files))
    ]
