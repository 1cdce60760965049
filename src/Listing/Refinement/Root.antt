-- ===== src/Listing/Refinement/Root.antt =====
-- The search root of a prefix that names directories.
use ferro_s.Base.{
  ◌≡◌, refl, sym, ap, ◌∙◌, List, [], ◌∷◌, ◌++◌, some, false, Text, codes, All, Option-cases, inl,
  inr, append_assoc, arith, Bool-cases, append-nil, text_eq,
}
use ferro_s.FilePath.Names.{IsName}
use ferro_s.Listing.Tree.{
  Node, file, dir, Entries, nil, entry, find_entry, node_at, nowhere, into, is_link, through_link,
}
use ferro_s.Listing.Reference.{concat, reference_keys, reference_blocks}
use ferro_s.Listing.Refinement.Search.{files_at, own_files_at}
use ferro_s.Listing.Refinement.Filter.{IsListable, ListableEntries, matching}
use ferro_s.Listing.Refinement.Descend.{matching-entries}

-- A text that begins with these directories, and goes on with `rest`.
abbrev pub in_dirs : List Text → Text → Text
in_dirs [] rest = rest
in_dirs (a ∷ names) rest = a ++ (b'/' ∷ in_dirs names rest)

pub find_entry-IsListable :
    (name : Text) (es : Entries) {n : Node}
    → ListableEntries es
    → find_entry name es ≡ some n
    → IsListable n
unfolding find_entry
find_entry-IsListable name nil h e = ground (arith, e)
find_entry-IsListable name (entry m node es) {n} (p, fresh, ok, h) e =
    elim (Bool-cases (text_eq m name)) [
      | inl y ↦
          let same : some node ≡ some n = rw y at e in
          let is : node ≡ n = ground (arith, same) in rw (← is) ok
      | inr o ↦ find_entry-IsListable name es h (rw o at e)
    ]

into_dir : (d a t : Text) → d ++ (a ++ (b'/' ∷ t)) ≡ (d ++ (a ++ codes "/")) ++ t
into_dir d a t =
    ap (λ s. d ++ s) (sym (append_assoc a (codes "/") t)) ∙ sym (append_assoc d (a ++ codes "/") t)

-- Where no link is passed, the files are the directory's own.
own_files :
    (n : Node) (key : Text) → is_link n ≡ false → own_files_at (some n) key ≡ files_at (some n) key
own_files (file m nowhere) key h = refl
own_files (file m (into readable es)) key h = ground (arith, h)
own_files (dir readable es) key h = refl

-- Going down a path of names loses no key under the prefix.
pub matching-node_at :
    (names : List Text) (p d rest key : Text) (n : Node)
    → p ≡ d ++ in_dirs names rest
    → key ≡ d ++ in_dirs names []
    → All IsName names
    → IsListable n
    → through_link n names ≡ false
    → matching p (own_files_at (some n) d) ≡ matching p (files_at (node_at n names) key)
unfolding node_at through_link
matching-node_at [] p d rest key n e k h ok own =
    ap (λ s. matching p (own_files_at (some n) s)) (sym (k ∙ append-nil d))
    ∙ ap (matching p) (own_files n key own)
matching-node_at (a ∷ names) p d rest key (file m nowhere) e k h ok own = refl
matching-node_at (a ∷ names) p d rest key (file m (into readable es)) e k h ok own =
    ground (arith, own)
matching-node_at (a ∷ names) p d rest key (dir readable es) e k (named, h) (r, ok) own =
    let here : matching p (own_files_at (some (dir readable es)) d)
        ≡ matching p (concat (reference_blocks d es)) =
      rw r (unfold reference_keys in refl) in
    let down : matching p (concat (reference_blocks d es))
        ≡ matching p (own_files_at (find_entry a es) (d ++ (a ++ codes "/"))) =
      rw e (matching-entries d a (in_dirs names rest) named.no_slash es ok) in
    here ∙ down ∙ (elim (Option-cases (find_entry a es)) [
      | inl f ↦ rw (f, node_at)
      | inr (m, f) ↦
          rw (f, node_at)
            (matching-node_at names p (d ++ (a ++ codes "/")) rest key m
              (e ∙ into_dir d a (in_dirs names rest)) (k ∙ into_dir d a (in_dirs names [])) h
              (find_entry-IsListable a es ok f) (rw f at own))
    ])
