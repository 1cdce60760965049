-- ===== src/Listing/Client/Complete.antt =====
-- A client that follows the pages of `list_objects` of src/handlers/list.rs gets the whole listing.
use ferro_s.Base.{
  ℕ, zero, suc, ◌+◌, ◌<◌, ◌^◌, ◌≡◌, refl, ap, ap₂, ◌∙◌, List, [], Option, none, some, Bool, true,
  false, Text, ltb, length, take, drop, unwrap_or, if◌then◌else◌, Bool-cases, inl, inr, arith,
}
use ferro_s.FilePath.{FilePath}
use ferro_s.State.{AppState, map_get}
use ferro_s.Api.Documents.{ObjectContent, listing}
use ferro_s.Listing.Tree.{Entries, dir}
use ferro_s.Listing.Walk.{Query, collect_entries}
use ferro_s.Listing.Page.{
  ListObjectsParams, ListEnv, Page, or_else, is_two, list_query, list_result, blocking_walk,
  list_objects, emit_page, empty_page,
}
use ferro_s.Listing.Truncation.{contents_of, prefixes_of, last_key, emit_page-eq_take}
use ferro_s.Listing.Reference.{
  KeyFile, once, past, reference_keys, reference_items, reference_page, search_through_link,
}
use ferro_s.Listing.Ends.{node_weight}
use ferro_s.Listing.Refinement.Filter.{ListableEntries}
use ferro_s.Listing.Refinement.Page.{collect_entries-reference_page}
use ferro_s.Listing.Order.Items.{Item}
use ferro_s.Listing.Order.Tree.{reference_keys-Ascending}
use ferro_s.Listing.Order.Resume.{page_query, shown-page_query, reference_items-resume}
use ferro_s.Listing.Client.Cuts.{
  take-take, ltb-take, take_all, contents_of-take-drop, prefixes_of-take-drop, last_key-take,
  length_drop,
}
use ferro_s.Listing.Client.{next_of, next_params, goes_on, follow}

-- The first version of the call starts at its marker only.
abbrev pub IsPlain : ListObjectsParams → Type 0
IsPlain params = is_two params.list_type ≡ false → params.continuation_token ≡ none

abbrev pub page_size : ListObjectsParams → ℕ
page_size params = unwrap_or params.max_keys 1000

-- A page that goes on asks for the query from its last key.
list_query-next_params :
    (env : ListEnv) (params : ListObjectsParams) (s : Text)
    → IsPlain params
    → list_query env (next_params params s)
      ≡ page_query (list_query env params) (some s) (list_query env params).limit
unfolding list_query
list_query-next_params env params s plain = elim (Bool-cases (is_two params.list_type)) [
  | inl y ↦ rw y refl
  | inr n ↦ rw (n, plain n) refl
]

IsPlain-next_params :
    (params : ListObjectsParams) (s : Text) → IsPlain params → IsPlain (next_params params s)
IsPlain-next_params params s plain n = rw n (plain n)

list_query-limit :
    (env : ListEnv) (params : ListObjectsParams)
    → page_size params + 1 < 2 ^ 64
    → (list_query env params).limit ≡ suc (page_size params)
unfolding list_query
list_query-limit env params h = omega (arith, h)

reference_items-limit :
    (q : Query) (files : List KeyFile) (n : ℕ)
    → reference_items (page_query q q.start_after n) [] files ≡ reference_items q [] files
unfolding reference_items
reference_items-limit q files n =
    ap (λ l. past q.start_after (once [] l)) (shown-page_query q q.start_after n files)

or_else-none : {A : Type 0} (o : Option A) → or_else o none ≡ o
or_else-none none = refl
or_else-none (some a) = refl

-- Either version of the call answers the next key of a page that is truncated.
next_of-list_result :
    (bucket : Text) (params : ListObjectsParams) (page : Page)
    → next_of (list_result bucket params page) ≡ (if page.is_truncated then page.next_key else none)
unfolding list_result
next_of-list_result bucket params page = elim (Bool-cases (is_two params.list_type)) [
  | inl y ↦ rw y (or_else-none (if page.is_truncated then page.next_key else none))
  | inr n ↦ rw n refl
]

module _ {C : Type 0} (env : ListEnv) (fuel : ℕ) (state : AppState C) (bucket : Text) where
  -- One round of the client, where the page is known.
  follow-page :
      (rounds : ℕ) (params : ListObjectsParams) (page : Page)
      → (list_objects env fuel state bucket params).body ≡ listing (list_result bucket params page)
      → follow env fuel state bucket (suc rounds) params
        ≡ goes_on
            (page.contents, page.common_prefixes)
            (λ t. follow env fuel state bucket rounds (next_params params t))
            (if page.is_truncated then page.next_key else none)
  unfolding follow list_result
  follow-page rounds params page h =
      rw (follow, h)
        (ap
          (goes_on (page.contents, page.common_prefixes)
            (λ t. follow env fuel state bucket rounds (next_params params t)))
          (next_of-list_result bucket params page))

  module _ {storage : FilePath} (es : Entries)
      (known : map_get state.storage_map bucket ≡ some storage) (joined : env.joined ≡ true)
      (tree : env.tree ≡ dir true es) (ok : ListableEntries es)
      (enough : suc (node_weight (dir true es)) < fuel) where
    abbrev pub files : List KeyFile
    files = reference_keys [] (dir true es)

    abbrev pub items_of : ListObjectsParams → List Item
    items_of params = reference_items (list_query env params) [] files

    list_objects-page :
        (params : ListObjectsParams)
        → search_through_link (unwrap_or params.prefix []) storage (dir true es) ≡ false
        → (list_objects env fuel state bucket params).body
          ≡ listing (
              list_result bucket params (
                emit_page
                  (page_size params)
                  (reference_page (list_query env params) files)
                  empty_page))
    unfolding list_objects blocking_walk list_query
    list_objects-page params direct =
        let walked : blocking_walk env fuel storage params
            ≡ some (reference_page (list_query env params) files) =
          ap
            (λ (b : Bool).
              if b then collect_entries (list_query env params) fuel storage env.tree else none)
            joined
          ∙ ap (λ t. collect_entries (list_query env params) fuel storage t) tree
          ∙ collect_entries-reference_page (list_query env params) fuel storage es ok direct
              enough in
        rw (list_objects, known, walked) refl

    -- The page of a listing cuts the items past its start key.
    page_of-items :
        (params : ListObjectsParams)
        → page_size params + 1 < 2 ^ 64
        → emit_page (page_size params) (reference_page (list_query env params) files) empty_page
          ≡ record {
            contents = contents_of (take (page_size params) (items_of params));
            common_prefixes = prefixes_of (take (page_size params) (items_of params));
            is_truncated = ltb (page_size params) (length (items_of params));
            next_key = last_key (take (page_size params) (items_of params)) none;
          }
    unfolding reference_page
    page_of-items params h =
        let n = page_size params in
        let items = items_of params in
        ap (λ k. emit_page n (take k items) empty_page) (list_query-limit env params h)
        ∙ emit_page-eq_take n (take (suc n) items)
        ∙ rw (take-take n items, ltb-take n items) refl

    round_of :
        (rounds : ℕ) (params : ListObjectsParams)
        → search_through_link (unwrap_or params.prefix []) storage (dir true es) ≡ false
        → page_size params + 1 < 2 ^ 64
        → follow env fuel state bucket (suc rounds) params
          ≡ goes_on
              (
                contents_of (take (page_size params) (items_of params)),
                prefixes_of (take (page_size params) (items_of params)),
              )
              (λ t. follow env fuel state bucket rounds (next_params params t))
              (if ltb (page_size params) (length (items_of params))
                then last_key (take (page_size params) (items_of params)) none
                else none)
    round_of rounds params direct h = follow-page rounds params _ (
        list_objects-page params direct
        ∙ ap (λ page. listing (list_result bucket params page)) (page_of-items params h))

    -- What the next page is to show is what this one leaves.
    items_of-next_params :
        (params : ListObjectsParams) {s : Text}
        → IsPlain params
        → last_key (take (page_size params) (items_of params)) none ≡ some s
        → items_of (next_params params s) ≡ drop (page_size params) (items_of params)
    unfolding reference_page
    items_of-next_params params {s} plain last =
        let n = page_size params in
        let q = list_query env params in
        let short = page_query q q.start_after n in
        let same = reference_items-limit q files n in
        ap (λ q'. reference_items q' [] files) (list_query-next_params env params s plain)
        ∙ reference_items-resume short files q.limit
            (reference_keys-Ascending [] (dir true es) (refl, ok))
            (ap (λ items. last_key (take n items) none) same ∙ last)
        ∙ ap (drop n) same

    -- A client that asks page by page, each from the token or the marker of the one before, is shown
    -- every item of the listing, once and in its order, in as many rounds as there are items and one
    -- more. The conditions: the bucket is known and its directory `dir true es` can be read
    -- throughout, with names that stand there once; the walk's thread is joined and its fuel is past
    -- the size of the tree; the directory that the prefix names is not reached through a symbolic
    -- link; the first version of the call has no continuation token; a page has at least one item,
    -- and one more than its size is below 2^64.
    pub follow-reference_items :
        (rounds : ℕ) (params : ListObjectsParams)
        → search_through_link (unwrap_or params.prefix []) storage (dir true es) ≡ false
        → IsPlain params
        → 0 < page_size params
        → page_size params + 1 < 2 ^ 64
        → length (items_of params) < rounds
        → follow env fuel state bucket rounds params
          ≡ some (contents_of (items_of params), prefixes_of (items_of params))
    follow-reference_items zero params direct plain pos h short = ground (arith, short)
    follow-reference_items (suc rounds) params direct plain pos h short =
        let n = page_size params in
        let items = items_of params in
        elim (Bool-cases (ltb n (length items))) [
          | inr done ↦ round_of rounds params direct h ∙ rw (done, take_all n items done) refl
          | inl longer ↦
              let (s, last) = last_key-take n items pos longer in
              let over : n < length items = ground (arith, longer) in
              let left = items_of-next_params params plain last in
              let rest =
                follow-reference_items rounds (next_params params s) direct
                  (IsPlain-next_params params s plain) pos h
                  (omega (arith, ap (λ l. length l) left, length_drop n items, short, pos, over)) in
              round_of rounds params direct h
              ∙ rw (longer, last, rest, left)
                  (ap₂ (λ (c : List ObjectContent) (p : List Text). some (c, p))
                    (contents_of-take-drop n items) (prefixes_of-take-drop n items))
        ]
