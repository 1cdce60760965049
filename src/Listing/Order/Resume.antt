-- ===== src/Listing/Order/Resume.antt =====
-- The items past a start key: in order, and those that a page left over.
use ferro_s.Base.{
  ℕ, zero, suc, ◌+◌, ◌≡◌, refl, sym, ap, ◌∙◌, List, [], ◌∷◌, ◌++◌, Option, none, some, true, false,
  Text, text_lt, take, drop, Bool-cases, Option-cases, inl, inr, arith,
}
use ferro_s.Base.Strings.Prefixes.{text_lt_trans, text_lt_irrefl}
use ferro_s.Metadata.{Metadata}
use ferro_s.Listing.Walk.{ListItem, Query, after_start, content_of, common_prefix}
use ferro_s.Listing.Truncation.{last_key}
use ferro_s.Listing.Reference.{
  KeyFile, shown_as, shown, once, past, reference_items, reference_page,
}
use ferro_s.Listing.Refinement.Hidden.{shown-none, shown-some}
use ferro_s.Listing.Order.Ascending.{Below, Ascending}
use ferro_s.Listing.Order.Items.{Item}
use ferro_s.Listing.Order.Groups.{once-Ascending}

Below-past :
    (start : Option Text) (k : Text) (items : List Item)
    → Below k items
    → Below k (past start items)
unfolding past
Below-past start k [] h = tt
Below-past start k ((j, x) ∷ items) (l, h) = elim (Bool-cases (after_start start j)) [
  | inl y ↦ rw y (l, Below-past start k items h)
  | inr n ↦ rw n (Below-past start k items h)
]

past-Ascending :
    (start : Option Text) (items : List Item) → Ascending items → Ascending (past start items)
unfolding past
past-Ascending start [] h = tt
past-Ascending start ((j, x) ∷ items) (l, h) = elim (Bool-cases (after_start start j)) [
  | inl y ↦ rw y (Below-past start j items l, past-Ascending start items h)
  | inr n ↦ rw n (past-Ascending start items h)
]

pub reference_items-Ascending :
    (q : Query) (files : List KeyFile) → Ascending files → Ascending (reference_items q [] files)
unfolding reference_items
reference_items-Ascending q files h =
    past-Ascending q.start_after (once [] (shown q files)) (once-Ascending q files h [])

-- The same query from another start key and with another limit.
abbrev pub page_query : Query → Option Text → ℕ → Query
page_query q start limit = record q { start_after = start; limit = limit }

shown_as-page_query :
    (q : Query) (start : Option Text) (n : ℕ) (key : Text) (m : Option Metadata)
    → shown_as (page_query q start n) key m ≡ shown_as q key m
unfolding shown_as content_of common_prefix
shown_as-page_query q start n key m = refl

pub shown-page_query :
    (q : Query) (start : Option Text) (n : ℕ) (files : List KeyFile)
    → shown (page_query q start n) files ≡ shown q files
shown-page_query q start n [] = unfold shown in refl
shown-page_query q start n ((key, m) ∷ files) = elim (Option-cases (shown_as q key m)) [
  | inl e ↦
      shown-none (page_query q start n) key m files (shown_as-page_query q start n key m ∙ e)
      ∙ shown-page_query q start n files
      ∙ sym (shown-none q key m files e)
  | inr (x, e) ↦
      shown-some (page_query q start n) key m files (shown_as-page_query q start n key m ∙ e)
      ∙ ap (λ l. x ∷ l) (shown-page_query q start n files)
      ∙ sym (shown-some q key m files e)
]

after_start_trans :
    (start : Option Text) (s j : Text)
    → after_start start s ≡ true
    → text_lt s j ≡ true
    → after_start start j ≡ true
unfolding after_start
after_start_trans none s j h l = refl
after_start_trans (some t) s j h l = text_lt_trans t s j h l

-- The items past a later start key are those past it among the items past an earlier one.
past-past :
    (start : Option Text) (s : Text) (items : List Item)
    → after_start start s ≡ true
    → past (some s) (past start items) ≡ past (some s) items
unfolding past after_start
past-past start s [] h = refl
past-past start s ((j, x) ∷ items) h = elim (Bool-cases (after_start start j)) [
  | inl y ↦ elim (Bool-cases (text_lt s j)) [
    | inl l ↦ rw (y, l) (ap (λ t. (j, x) ∷ t) (past-past start s items h))
    | inr n ↦ rw (y, n) (past-past start s items h)
  ]
  | inr o ↦ elim (Bool-cases (text_lt s j)) [
    | inl l ↦ ground (arith, o, after_start_trans start s j h l)
    | inr n ↦ rw (o, n) (past-past start s items h)
  ]
]

past-all : (s : Text) (items : List Item) → Below s items → past (some s) items ≡ items
unfolding past after_start
past-all s [] h = refl
past-all s ((j, x) ∷ items) (l, h) = rw l (ap (λ t. (j, x) ∷ t) (past-all s items h))

past-skip :
    (s j : Text) (x : ListItem) (items : List Item)
    → text_lt s j ≡ false
    → past (some s) ((j, x) ∷ items) ≡ past (some s) items
unfolding past after_start
past-skip s j x items n = rw n refl

not_before : (s k j : Text) → text_lt k j ≡ true → text_lt s j ≡ false → text_lt s k ≡ false
not_before s k j l n = elim (Bool-cases (text_lt s k)) [
  | inr o ↦ o
  | inl y ↦ ground (arith, n, text_lt_trans s k j y l)
]

-- The items past the last key of a page, and that key against one below the page.
past-drop_from :
    (n : ℕ) (k : Text) (items : List Item) {s : Text}
    → Below k items
    → Ascending items
    → last_key (take n items) (some k) ≡ some s
    → (past (some s) items ≡ drop n items) × (text_lt s k ≡ false)
past-drop_from zero k items {s} b h e =
    let is : k ≡ s = ground (arith, e) in
    (rw (← is) (past-all k items b), rw (← is) (text_lt_irrefl k))
past-drop_from (suc n) k [] {s} b h e =
    let is : k ≡ s = ground (arith, e) in (unfold past in refl, rw (← is) (text_lt_irrefl k))
past-drop_from (suc n) k ((j, x) ∷ items) {s} (l, b) (below, h) e =
    let (same, ge) = past-drop_from n j items below h e in
    (past-skip s j x items ge ∙ same, not_before s k j l ge)

past-drop :
    (n : ℕ) (items : List Item) {s : Text}
    → Ascending items
    → last_key (take n items) none ≡ some s
    → past (some s) items ≡ drop n items
past-drop zero items h e = ground (arith, e)
past-drop (suc n) [] h e = ground (arith, e)
past-drop (suc n) ((j, x) ∷ items) {s} (b, h) e =
    let (same, ge) = past-drop_from n j items b h e in past-skip s j x items ge ∙ same

-- The last key of a page that starts past a key stands past that key.
last_key-past :
    (start : Option Text) (n : ℕ) (items : List Item) (old : Option Text) {s : Text}
    → ((t : Text) → old ≡ some t → after_start start t ≡ true)
    → last_key (take n (past start items)) old ≡ some s
    → after_start start s ≡ true
unfolding past
last_key-past start zero items old {s} h e = h s e
last_key-past start (suc n) [] old {s} h e = h s e
last_key-past start (suc n) ((j, x) ∷ items) old h e = elim (Bool-cases (after_start start j)) [
  | inl y ↦
      last_key-past start n items (some j)
        (λ t i. let is : j ≡ t = ground (arith, i) in rw (← is) y) (rw y at e)
  | inr o ↦ last_key-past start (suc n) items old h (rw o at e)
]

-- From the last key of a page on, a listing goes on where the page ended.
pub reference_items-resume :
    (q : Query) (files : List KeyFile) (m : ℕ) {s : Text}
    → Ascending files
    → last_key (reference_page q files) none ≡ some s
    → reference_items (page_query q (some s) m) [] files ≡ drop q.limit (reference_items q [] files)
unfolding reference_items reference_page
reference_items-resume q files m {s} h e =
    let all : List Item = once [] (shown q files) in
    let late : after_start q.start_after s ≡ true =
      last_key-past q.start_after q.limit all none (λ t i. ground (arith, i)) e in
    ap (λ l. past (some s) (once [] l)) (shown-page_query q (some s) m files)
    ∙ sym (past-past q.start_after s all late)
    ∙ past-drop q.limit (past q.start_after all)
        (past-Ascending q.start_after all (once-Ascending q files h [])) e

pub reference_page-limit :
    (q : Query) (files : List KeyFile) (n : ℕ)
    → reference_page (page_query q q.start_after n) files ≡ take n (reference_items q [] files)
unfolding reference_items reference_page
reference_page-limit q files n =
    ap (λ l. take n (past q.start_after (once [] l))) (shown-page_query q q.start_after n files)

pub take-nil : (m : ℕ) (items : List Item) → items ≡ [] → take m items ≡ []
take-nil zero items h = refl
take-nil (suc m) items h = rw h refl

take-suc-drop :
    (n m : ℕ) (items : List Item)
    → ((items : List Item) → take (n + m) items ≡ take n items ++ take m (drop n items))
    → take (suc (n + m)) items ≡ take (suc n) items ++ take m (drop (suc n) items)
take-suc-drop n m [] h = sym (take-nil m [] refl)
take-suc-drop n m (x ∷ items) h = ap (λ l. x ∷ l) (h items)

take-take-drop :
    (n m : ℕ) (items : List Item) → take (n + m) items ≡ take n items ++ take m (drop n items)
take-take-drop zero m items = let e : 0 + m ≡ m = omega arith in ap (λ k. take k items) e
take-take-drop (suc n) m items =
    let e : suc n + m ≡ suc (n + m) = omega arith in
    ap (λ k. take k items) e ∙ take-suc-drop n m items (take-take-drop n m)

-- Two pages, the second from the last key of the first, are one page of both limits.
pub reference_page-resume :
    (q : Query) (files : List KeyFile) (m : ℕ) {s : Text}
    → Ascending files
    → last_key (reference_page q files) none ≡ some s
    → reference_page (page_query q q.start_after (q.limit + m)) files
      ≡ reference_page q files ++ reference_page (page_query q (some s) m) files
unfolding reference_page
reference_page-resume q files m {s} h e =
    reference_page-limit q files (q.limit + m)
    ∙ take-take-drop q.limit m (reference_items q [] files)
    ∙ ap (λ l. take q.limit (reference_items q [] files) ++ take m l)
        (sym (reference_items-resume q files m h e))
