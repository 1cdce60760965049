-- ===== src/Listing/Ends.antt =====
-- The weight of the stack in `collect_entries` of src/handlers/list.rs, round by round.
use ferro_s.Base.{
  ℕ, zero, suc, ◌+◌, ◌≤◌, ◌<◌, ◌≡◌, refl, ap, List, [], ◌∷◌, ◌++◌, Option, none, some, Bool, true,
  false, not, Text, leb, length, starts_with, Bool-cases, Option-cases, inl, inr, arith, ◌==◌,
  if◌then◌else◌,
}
use ferro_s.FilePath.{FilePath, prefix_search_root}
use ferro_s.Metadata.{Metadata}
use ferro_s.Listing.Tree.{
  Node, file, dir, Entries, nil, entry, Child, list_children, insert_child, sort_children,
  read_children, read_children-into, find_entry, node_at, Target, nowhere, into,
}
use ferro_s.Listing.Walk.{
  Query, Walk, Round, stop, more, ListItem, in_settled, subtree_may_contain, collapsing_group,
  common_prefix, parent_key, pop, emit, visit_dir, visit_group, visit_object, visit_file, visit,
  round, round_at, walk, strip_path, root_key, first_walk, root_children, children_at,
  collect_entries, content_of, content, prefix,
}

abbrev mutual
  pub node_weight : Node → ℕ
  node_weight (file m t) = suc (target_weight t)
  node_weight (dir readable es) = suc (suc (entries_weight es))

  pub target_weight : Target → ℕ
  target_weight nowhere = 0
  target_weight (into readable es) = suc (entries_weight es)

  pub entries_weight : Entries → ℕ
  entries_weight nil = 0
  entries_weight (entry name n es) = node_weight n + entries_weight es

abbrev frame_weight : List Child → ℕ
frame_weight [] = 1
frame_weight (c ∷ cs) = node_weight c.node + frame_weight cs

abbrev pub stack_weight : List (List Child) → ℕ
stack_weight [] = 0
stack_weight (f ∷ fs) = frame_weight f + stack_weight fs

list_children-weight :
    (key : Text) (es : Entries) → frame_weight (list_children key es) ≡ suc (entries_weight es)
unfolding list_children
list_children-weight key nil = refl
list_children-weight key (entry name n es) = omega (arith, list_children-weight key es)

insert_child-weight :
    (c : Child) (cs : List Child)
    → frame_weight (insert_child c cs) ≡ node_weight c.node + frame_weight cs
unfolding insert_child
insert_child-weight c [] = refl
insert_child-weight c (d ∷ ds) = ground (arith, insert_child-weight c ds)

sort_children-weight : (cs : List Child) → frame_weight (sort_children cs) ≡ frame_weight cs
unfolding sort_children
sort_children-weight [] = refl
sort_children-weight (c ∷ cs) =
    omega (arith, insert_child-weight c (sort_children cs), sort_children-weight cs)

read_children-weight :
    (readable : Bool) (es : Entries) (key : Text)
    → frame_weight (read_children (dir readable es) key) ≤ suc (entries_weight es)
unfolding read_children
read_children-weight false es key = omega arith
read_children-weight true es key =
    omega (arith, sort_children-weight (list_children key es), list_children-weight key es)

-- What a round leaves on the stack weighs less than `bound`.
abbrev Within : ℕ → Round → Type 0
Within bound (stop w) = Unit
Within bound (more w) = stack_weight w.stack < bound

record Shrinks (bound : ℕ) (r : Round) : Type 0 where
  within : Within bound r

Shrinks-more : (bound : ℕ) (w : Walk) → stack_weight w.stack < bound → Shrinks bound (more w)
Shrinks-more bound w h = record { within = h }

Shrinks-if :
    {bound : ℕ} (b : Bool) {x y : Round}
    → Shrinks bound x
    → Shrinks bound y
    → Shrinks bound (if b then x else y)
Shrinks-if true h k = h
Shrinks-if false h k = k

pop_if-weight :
    (b : Bool) (stack : List (List Child))
    → stack_weight (if b then pop stack else stack) ≤ stack_weight stack
pop_if-weight true [] = omega arith
pop_if-weight true (f ∷ fs) = omega arith
pop_if-weight false stack = omega arith

Shrinks-option :
    {bound : ℕ} (o : Option Text) {x : Round} {f : Text → Round}
    → Shrinks bound x
    → ((t : Text) → Shrinks bound (f t))
    → Shrinks bound (elim o [ none ↦ x | some t ↦ f t ])
Shrinks-option none h k = h
Shrinks-option (some t) h k = k t

module _ (q : Query) where
  emit-Shrinks :
      (key : Text) (item : ListItem) (w : Walk) (bound : ℕ)
      → stack_weight w.stack < bound
      → Shrinks bound (emit q key item w)
  unfolding emit
  emit-Shrinks key item w bound h =
      Shrinks-if (leb q.limit (length (w.items ++ ((key, item) ∷ [])))) (record { within = tt })
        (Shrinks-more bound _ h)

  visit_group-Shrinks :
      (key group : Text) (w : Walk) (bound : ℕ)
      → stack_weight w.stack < bound
      → Shrinks bound (visit_group q key group w)
  unfolding visit_group
  visit_group-Shrinks key group w bound h =
      let fits : stack_weight (if starts_with (parent_key key) group then pop w.stack else w.stack)
          < bound =
        omega (arith, pop_if-weight (starts_with (parent_key key) group) w.stack) in
      Shrinks-if _ (emit-Shrinks group (prefix group) _ bound fits) (Shrinks-more bound _ fits)

  visit_object-Shrinks :
      (key : Text) (m : Option Metadata) (w : Walk) (bound : ℕ)
      → stack_weight w.stack < bound
      → Shrinks bound (visit_object q key m w)
  unfolding visit_object
  visit_object-Shrinks key none w bound h =
      Shrinks-if _ (Shrinks-more bound w h) (Shrinks-more bound w h)
  visit_object-Shrinks key (some m) w bound h =
      Shrinks-if _ (Shrinks-more bound w h)
        (emit-Shrinks key (content (content_of q key m)) w bound h)

  visit_file-Shrinks :
      (key : Text) (m : Option Metadata) (w : Walk) (bound : ℕ)
      → stack_weight w.stack < bound
      → Shrinks bound (visit_file q key m w)
  unfolding visit_file
  visit_file-Shrinks key m w bound h =
      Shrinks-if (in_settled w.settled_group key) (Shrinks-more bound w h) (
        Shrinks-if (not (starts_with key q.prefix)) (Shrinks-more bound w h) (
          Shrinks-option (common_prefix q key) (visit_object-Shrinks key m w bound h)
            (λ group. visit_group-Shrinks key group w bound h)))

  visit_dir-Shrinks :
      (key : Text) (readable : Bool) (es : Entries) (w : Walk) (bound : ℕ)
      → suc (suc (entries_weight es)) + stack_weight w.stack ≤ bound
      → Shrinks bound (visit_dir q key (dir readable es) w)
  unfolding visit_dir
  visit_dir-Shrinks key readable es w bound h =
      let skip : stack_weight w.stack < bound = omega arith in
      Shrinks-if (in_settled w.settled_group key) (Shrinks-more bound w skip) (
        Shrinks-if (not (subtree_may_contain key q.prefix q.start_after))
          (Shrinks-more bound w skip)
          (Shrinks-option (collapsing_group key q.prefix q.delimiter)
            (Shrinks-more bound _ (omega (arith, read_children-weight readable es key)))
            (λ group.
              Shrinks-if _ (emit-Shrinks group (prefix group) _ bound skip)
                (Shrinks-more bound w skip))))

  visit-Shrinks :
      (key : Text) (n : Node) (w : Walk) (bound : ℕ)
      → node_weight n + stack_weight w.stack ≤ bound
      → Shrinks bound (visit q key n w)
  unfolding visit
  visit-Shrinks key (file m t) w bound h = visit_file-Shrinks key m w bound (omega arith)
  visit-Shrinks key (dir readable es) w bound h =
      visit_dir-Shrinks key readable es w bound (omega arith)

  round_at-Shrinks :
      (stack : List (List Child)) (w : Walk) (bound : ℕ)
      → stack_weight stack ≤ bound
      → Shrinks bound (round_at q stack w)
  unfolding round_at
  round_at-Shrinks [] w bound h = record { within = tt }
  round_at-Shrinks ([] ∷ frames) w bound h = Shrinks-more bound _ (omega arith)
  round_at-Shrinks ((c ∷ rest) ∷ frames) w bound h =
      visit-Shrinks c.key c.node (record w { stack = rest ∷ frames }) bound (omega arith)

  round-Shrinks : (w : Walk) (bound : ℕ) → stack_weight w.stack ≤ bound → Shrinks bound (round q w)
  unfolding round
  round-Shrinks w bound h = round_at-Shrinks w.stack w bound h

  walk_after :
      (r : Round) (fuel : ℕ)
      → Shrinks fuel r
      → ((w : Walk)
          → stack_weight w.stack < fuel
          → (items : List (Text × ListItem)) × (walk q fuel w ≡ some items))
      → (items : List (Text × ListItem)) × ((elim r [
        | stop w' ↦ some w'.items
        | more w' ↦ walk q fuel w'
      ])
          ≡ some items)
  walk_after (stop w) fuel h k = (w.items, refl)
  walk_after (more w) fuel h k = k w h.within

  walk_ends :
      (fuel : ℕ) (w : Walk)
      → stack_weight w.stack < fuel
      → (items : List (Text × ListItem)) × (walk q fuel w ≡ some items)
  unfolding walk
  walk_ends zero w h = absurd (omega arith)
  walk_ends (suc fuel) w h =
      walk_after (round q w) fuel (round-Shrinks w fuel (omega arith)) (walk_ends fuel)

find_entry-weight :
    (name : Text) (es : Entries) {n : Node}
    → find_entry name es ≡ some n
    → node_weight n ≤ entries_weight es
unfolding find_entry
find_entry-weight name nil h = ground arith
find_entry-weight name (entry m node es) {n} h = ground (arith, find_entry-weight name es {n = n})

node_at-weight :
    (tree : Node) (rel : FilePath) {n : Node}
    → node_at tree rel ≡ some n
    → node_weight n ≤ node_weight tree
unfolding node_at
node_at-weight tree [] h = ground arith
node_at-weight (file m nowhere) (name ∷ rel) h = ground arith
node_at-weight (file m (into readable es)) (name ∷ rel) {n} h =
    elim (Option-cases (find_entry name es)) [
      | inl e ↦ ground arith
      | inr (k, e) ↦ omega (arith, node_at-weight k rel (rw e at h), find_entry-weight name es e)
    ]
node_at-weight (dir readable es) (name ∷ rel) {n} h = elim (Option-cases (find_entry name es)) [
  | inl e ↦ ground arith
  | inr (m, e) ↦ omega (arith, node_at-weight m rel (rw e at h), find_entry-weight name es e)
]

children_at-weight :
    (o : Option Node) (key : Text) (bound : ℕ)
    → ((n : Node) → o ≡ some n → node_weight n ≤ bound)
    → frame_weight (children_at o key) ≤ suc bound
children_at-weight none key bound h = omega arith
children_at-weight (some (file m nowhere)) key bound h = unfold read_children in omega arith
children_at-weight (some (file m (into readable es))) key bound h = omega (
  arith,
  ap frame_weight (read_children-into m readable es key),
  read_children-weight readable es key,
  h (file m (into readable es)) refl,
)
children_at-weight (some (dir readable es)) key bound h =
    omega (arith, read_children-weight readable es key, h (dir readable es) refl)

root_children-weight :
    (q : Query) (storage : FilePath) (tree : Node) {cs : List Child}
    → root_children q storage tree ≡ some cs
    → frame_weight cs ≤ suc (node_weight tree)
unfolding root_children
root_children-weight q storage tree {cs} h =
    elim (Option-cases (prefix_search_root storage q.prefix)) [
      | inl e ↦ ground arith
      | inr (root, e) ↦ elim (Option-cases (strip_path root storage)) [
        | inl f ↦ ground arith
        | inr (rel, f) ↦
            let at_root : children_at (node_at tree rel) (root_key rel) ≡ cs = ground arith in
            rw (← at_root) (
              children_at-weight (node_at tree rel) (root_key rel) (node_weight tree)
                (λ n. node_at-weight tree rel))
      ]
    ]

-- With a fuel past the size of the bucket's tree, every page is computed: the loop of
-- `collect_entries` ends, whatever the request.
pub collect_entries_ends :
    (q : Query) (fuel : ℕ) (storage : FilePath) (tree : Node)
    → suc (node_weight tree) < fuel
    → (items : List (Text × ListItem)) × (collect_entries q fuel storage tree ≡ some items)
unfolding collect_entries
collect_entries_ends q fuel storage tree h = elim (Bool-cases (q.limit == 0)) [
  | inl y ↦ ([], rw y)
  | inr n ↦ elim (Option-cases (root_children q storage tree)) [
    | inl e ↦ ([], rw (n, e))
    | inr (cs, e) ↦
        rw (n, e)
          (walk_ends q fuel (first_walk cs) (omega (arith, root_children-weight q storage tree e)))
  ]
]
