-- ===== src/Listing/Refinement/Names.antt =====
-- File names without slashes, and the frames of the stack of `collect_entries` that they make.
use ferro_s.Base.{
  ◌≡◌, refl, sym, ap, ◌∙◌, ◌⊎◌, inl, inr, List, [], ◌∷◌, ◌++◌, true, false, Text, codes,
  starts_with, All, All-append, append_assoc, Bool-cases, text_lt,
}
use ferro_s.Base.Strings.Laws.{Differs}
use ferro_s.Base.Strings.Prefixes.{rfind-none, rfind-separator}
use ferro_s.Listing.Tree.{
  Target, nowhere, into, Node, file, dir, Entries, nil, entry, Child, child_key, list_children,
  insert_child, sort_children, read_children,
}
use ferro_s.Listing.Walk.{parent_key}
use ferro_s.Listing.Reference.{KeyFile, reference_keys}
use ferro_s.Listing.Refinement.Keys.{
  pending_frame, Under, Under-trans, starts_with-child_key, reference_keys-Under,
}

abbrev pub HasNoSlash : Text → Type 0
HasNoSlash name = All (Differs b'/') name

-- No name below a node holds a slash, as on every file system.
abbrev mutual
  pub NamesOk : Node → Type 0
  NamesOk (file m t) = TargetOk t
  NamesOk (dir readable es) = EntriesOk es

  pub TargetOk : Target → Type 0
  TargetOk nowhere = Unit
  TargetOk (into readable es) = EntriesOk es

  pub EntriesOk : Entries → Type 0
  EntriesOk nil = Unit
  EntriesOk (entry name n es) = HasNoSlash name × NamesOk n × EntriesOk es

-- The key of a directory, as a prefix: empty at the root, and else with its slash.
abbrev pub IsDirKey : Text → Type 0
IsDirKey d = (d ≡ []) ⊎ ((x : Text) × (d ≡ x ++ codes "/"))

-- A child of the directory with the key `d`.
pub record ChildOf (d : Text) (c : Child) : Type 0 where
  pub name : Text
  pub no_slash : HasNoSlash name
  pub named : c.key ≡ child_key d name c.node
  pub below : NamesOk c.node

abbrev pub FrameOf : Text → List Child → Type 0
FrameOf d cs = All (ChildOf d) cs

list_children-FrameOf : (d : Text) (es : Entries) → EntriesOk es → FrameOf d (list_children d es)
unfolding list_children
list_children-FrameOf d nil h = tt
list_children-FrameOf d (entry name n es) (p, b, h) =
    (record { name = name; no_slash = p; named = refl; below = b }, list_children-FrameOf d es h)

insert_child-FrameOf :
    (d : Text) (c : Child) (cs : List Child)
    → ChildOf d c
    → FrameOf d cs
    → FrameOf d (insert_child c cs)
unfolding insert_child
insert_child-FrameOf d c [] p h = (p, tt)
insert_child-FrameOf d c (x ∷ cs) p (q, h) = elim (Bool-cases (text_lt x.key c.key)) [
  | inl y ↦ rw y (q, insert_child-FrameOf d c cs p h)
  | inr n ↦ rw n (p, (q, h))
]

sort_children-FrameOf : (d : Text) (cs : List Child) → FrameOf d cs → FrameOf d (sort_children cs)
unfolding sort_children
sort_children-FrameOf d [] h = tt
sort_children-FrameOf d (c ∷ cs) (p, h) =
    insert_child-FrameOf d c (sort_children cs) p (sort_children-FrameOf d cs h)

pub read_children-FrameOf : (d : Text) (n : Node) → NamesOk n → FrameOf d (read_children n d)
unfolding read_children
read_children-FrameOf d (file m nowhere) h = tt
read_children-FrameOf d (file m (into false es)) h = tt
read_children-FrameOf d (file m (into true es)) h =
    sort_children-FrameOf d (list_children d es) (list_children-FrameOf d es h)
read_children-FrameOf d (dir false es) h = tt
read_children-FrameOf d (dir true es) h =
    sort_children-FrameOf d (list_children d es) (list_children-FrameOf d es h)

pub IsDirKey-child : (d name : Text) → IsDirKey (d ++ (name ++ codes "/"))
IsDirKey-child d name = inr (d ++ name, sym (append_assoc d name (codes "/")))

-- The key of a file's directory is that of its frame.
pub parent_key-child : (d name : Text) → IsDirKey d → HasNoSlash name → parent_key (d ++ name) ≡ d
unfolding parent_key
parent_key-child d name (inl e) h = rw e (rw (rfind-none b'/' name h, parent_key))
parent_key-child d name (inr (x, e)) h =
    rw e (rw (append_assoc x (codes "/") name, rfind-separator b'/' x name h, parent_key))

-- Everything in a frame stands under the key of its directory.
pub pending_frame-Under : (d : Text) (cs : List Child) → FrameOf d cs → Under d (pending_frame cs)
pending_frame-Under d [] h = tt
pending_frame-Under d (c ∷ cs) (p, h) =
    All-append (λ (f : KeyFile). starts_with f.0 d ≡ true) (reference_keys c.key c.node)
      (pending_frame cs)
      (Under-trans c.key d (reference_keys c.key c.node)
        (ap (λ k. starts_with k d) p.named ∙ starts_with-child_key d p.name c.node)
        (reference_keys-Under c.key c.node))
      (pending_frame-Under d cs h)
