-- ===== src/Listing/Refinement/Groups.antt =====
-- Groups of keys: the common prefixes that `collect_entries` of src/handlers/list.rs finds.
use ferro_s.Base.{
  ◌≡◌, sym, ap, ◌∙◌, [], ◌∷◌, ◌++◌, Option, none, some, true, ◌||◌, Text, codes, starts_with, find,
  contains, is_empty, strip_prefix, starts_with_sound, starts_with-append, text_eq_sound,
  append_assoc, Bool-cases, Option-cases, inl, inr, arith, ◌==◌,
}
use ferro_s.Base.Strings.Prefixes.{
  starts_with-append_both, drop-length-append, starts_with-find, find-starts_with, find-separator,
}
use ferro_s.Listing.Walk.{Query, common_prefix, collapsing_group, strip_slash, is_slash}

-- Every key that starts with `g` is in the group `g`.
abbrev pub GroupOf : Query → Text → Type 0
GroupOf q g =
    (k : Text)
    → starts_with k g ≡ true
    → (starts_with k q.prefix ≡ true) × (common_prefix q k ≡ some g)

common_prefix-find :
    (q : Query) {d : Text} (r : Text) {before : Text}
    → q.delimiter ≡ some d
    → find r d ≡ some before
    → common_prefix q (q.prefix ++ r) ≡ some (q.prefix ++ (before ++ d))
unfolding common_prefix
common_prefix-find q {d} r e f = rw (e, drop-length-append q.prefix r, f)

GroupOf-find :
    (q : Query) {d : Text} (r : Text) {before : Text}
    → q.delimiter ≡ some d
    → find r d ≡ some before
    → GroupOf q (q.prefix ++ (before ++ d))
GroupOf-find q {d} r {before} e f k h =
    let (x, same) = starts_with_sound k (q.prefix ++ (before ++ d)) h in
    let split : k ≡ q.prefix ++ ((before ++ d) ++ x) =
      same ∙ append_assoc q.prefix (before ++ d) x in
    (
      rw split (starts_with-append q.prefix ((before ++ d) ++ x)),
      ap (common_prefix q) split
          ∙ common_prefix-find q ((before ++ d) ++ x) e (
              find-starts_with r d ((before ++ d) ++ x) before f
                (starts_with-append (before ++ d) x)),
    )

pub common_prefix-GroupOf :
    (q : Query) (key : Text) {g : Text}
    → starts_with key q.prefix ≡ true
    → common_prefix q key ≡ some g
    → (starts_with key g ≡ true) × GroupOf q g
common_prefix-GroupOf q key {g} h c =
    let (r, same) = starts_with_sound key q.prefix h in
    elim (Option-cases q.delimiter) [
      | inl e ↦ unfold common_prefix in ground (arith, c, e)
      | inr (d, e) ↦ elim (Option-cases (find r d)) [
        | inl f ↦
            unfold common_prefix in
            ground (arith, rw (same, drop-length-append q.prefix r, e, f) at c)
        | inr (before, f) ↦
            let known : some (q.prefix ++ (before ++ d)) ≡ some g =
              sym (common_prefix-find q r e f) ∙ (rw same at c) in
            let is : q.prefix ++ (before ++ d) ≡ g = ground (arith, known) in
            (
              rw (same, ← is)
                  (starts_with-append_both q.prefix r (before ++ d) ∙ starts_with-find r d f),
              rw (← is) (GroupOf-find q r e f),
            )
      ]
    ]

strip_prefix_sound : (s p : Text) {r : Text} → strip_prefix s p ≡ some r → s ≡ p ++ r
unfolding strip_prefix
strip_prefix_sound s [] h = ground (arith, h)
strip_prefix_sound [] (b ∷ p) h = ground (arith, h)
strip_prefix_sound (a ∷ s) (b ∷ p) {r} h = elim (Bool-cases (a == b)) [
  | inl y ↦ ground (arith, y, strip_prefix_sound s p {r = r} (rw y at h))
  | inr n ↦ ground (arith, rw n at h)
]

strip_slash_sound : (s : Text) {t : Text} → strip_slash s ≡ some t → s ≡ t ++ codes "/"
unfolding strip_slash
strip_slash_sound [] h = ground (arith, h)
strip_slash_sound (c ∷ []) h = ground (arith, h)
strip_slash_sound (c ∷ d ∷ s) {t} h = elim (Option-cases (strip_slash (d ∷ s))) [
  | inl e ↦ ground (arith, h, e)
  | inr (u, e) ↦
      let same : some (c ∷ u) ≡ some t = rw e at h in
      ground (arith, same, strip_slash_sound (d ∷ s) e)
]

is_slash_sound : (o : Option Text) → is_slash o ≡ true → o ≡ some (codes "/")
is_slash_sound none h = ground (arith, h)
is_slash_sound (some d) h = ap some (text_eq_sound d (codes "/") h)

-- A directory that collapses is a group.
pub collapsing_group-GroupOf :
    (q : Query) (subtree : Text) {g : Text}
    → collapsing_group subtree q.prefix q.delimiter ≡ some g
    → (g ≡ subtree) × GroupOf q subtree
unfolding collapsing_group
collapsing_group-GroupOf q subtree {g} h = elim (Bool-cases (is_slash q.delimiter)) [
  | inr n ↦ ground (arith, h, n)
  | inl slash ↦ elim (Option-cases (strip_prefix subtree q.prefix)) [
    | inl e ↦ ground (arith, rw (slash, e) at h)
    | inr (remainder, e) ↦ elim (Option-cases (strip_slash remainder)) [
      | inl f ↦ ground (arith, rw (slash, e, f) at h)
      | inr (inner, f) ↦ elim (Bool-cases (is_empty inner || contains inner b'/')) [
        | inl bad ↦ ground (arith, rw (slash, e, f, bad) at h)
        | inr good ↦
            let known : some subtree ≡ some g = rw (slash, e, f, good) at h in
            let parts : subtree ≡ q.prefix ++ (inner ++ codes "/") =
              strip_prefix_sound subtree q.prefix e
              ∙ ap (λ t. q.prefix ++ t) (strip_slash_sound remainder f) in
            (
              ground (arith, known),
              rw parts (
                  GroupOf-find q (inner ++ codes "/") (is_slash_sound q.delimiter slash)
                    (find-separator b'/' inner [] (ground (arith, good)))),
            )
      ]
    ]
  ]
]
