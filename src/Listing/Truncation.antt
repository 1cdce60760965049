-- ===== src/Listing/Truncation.antt =====
-- The page that `list_objects` of src/handlers/list.rs makes of the items of a walk.
use ferro_s.Base.{
  ℕ, zero, suc, ◌+◌, ◌≡◌, refl, sym, ap, ◌∙◌, ap₂, List, [], ◌∷◌, ◌++◌, Option, none, some, Bool,
  true, false, Text, leb, ltb, length, take, if◌then◌else◌, arith, append-nil, append_assoc,
  length-append,
}
use ferro_s.Api.Documents.{ObjectContent}
use ferro_s.Listing.Walk.{ListItem, content, prefix}
use ferro_s.Listing.Page.{Page, page_count, add_item, emit_page, empty_page}

abbrev pub contents_of : List (Text × ListItem) → List ObjectContent
contents_of [] = []
contents_of ((key, content c) ∷ items) = c ∷ contents_of items
contents_of ((key, prefix t) ∷ items) = contents_of items

abbrev pub prefixes_of : List (Text × ListItem) → List Text
prefixes_of [] = []
prefixes_of ((key, content c) ∷ items) = prefixes_of items
prefixes_of ((key, prefix t) ∷ items) = t ∷ prefixes_of items

abbrev pub last_key : List (Text × ListItem) → Option Text → Option Text
last_key [] old = old
last_key ((key, item) ∷ items) old = last_key items (some key)

-- A page with all of `items` added.
abbrev grown : List (Text × ListItem) → Page → Page
grown items p = record {
  contents = p.contents ++ contents_of items;
  common_prefixes = p.common_prefixes ++ prefixes_of items;
  is_truncated = p.is_truncated;
  next_key = last_key items p.next_key;
}

abbrev cut : Bool → Page → Page
cut b p = record p { is_truncated = if b then true else p.is_truncated }

grown-nil : (p : Page) → grown [] p ≡ p
grown-nil p = simp append-nil

grown-add :
    (key : Text) (item : ListItem) (items : List (Text × ListItem)) (p : Page)
    → grown items (add_item key item p) ≡ grown ((key, item) ∷ items) p
grown-add key (content c) items p = simp append_assoc
grown-add key (prefix t) items p = simp append_assoc

count-add :
    (key : Text) (item : ListItem) (p : Page)
    → page_count (add_item key item p) ≡ suc (page_count p)
count-add key (content c) p = omega (arith, length-append p.contents (c ∷ []))
count-add key (prefix t) p = omega (arith, length-append p.common_prefixes (t ∷ []))

pub ltb-suc : (a b : ℕ) → ltb a b ≡ ltb (suc a) (suc b)
ltb-suc a b = ground arith

emit_page-room :
    (room : ℕ) (items : List (Text × ListItem)) (p : Page)
    → emit_page (page_count p + room) items p
      ≡ cut (ltb room (length items)) (grown (take room items) p)
unfolding emit_page
emit_page-room zero [] p = sym (ap (cut false) (grown-nil p))
emit_page-room (suc room) [] p =
    let e : ltb (suc room) 0 ≡ false = ground arith in rw e (sym (ap (cut false) (grown-nil p)))
emit_page-room zero ((key, item) ∷ items) p =
    let full : leb (page_count p + 0) (page_count p) ≡ true = ground arith in
    let longer : ltb 0 (suc (length items)) ≡ true = ground arith in
    rw (full, longer) (sym (ap (cut true) (grown-nil p)))
emit_page-room (suc room) ((key, item) ∷ items) p =
    let free : leb (page_count p + suc room) (page_count p) ≡ false = ground arith in
    let moved : page_count p + suc room ≡ page_count (add_item key item p) + room =
      omega (arith, count-add key item p) in
    rw free (
      ap (λ n. emit_page n items (add_item key item p)) moved
      ∙ emit_page-room room items (add_item key item p)
      ∙ ap₂ cut (ltb-suc room (length items)) (grown-add key item (take room items) p))

cut_fresh :
    (b : Bool) (items : List (Text × ListItem))
    → cut b (grown items empty_page) ≡ record {
      contents = contents_of items;
      common_prefixes = prefixes_of items;
      is_truncated = b;
      next_key = last_key items none;
    }
cut_fresh true items = refl
cut_fresh false items = refl

-- The page of a listing: the first `max_keys` items that the walk found, in the walk's order, each
-- in its own list; truncated exactly when the walk found more; its next key is the last one shown.
pub emit_page-eq_take :
    (max_keys : ℕ) (items : List (Text × ListItem))
    → emit_page max_keys items empty_page ≡ record {
      contents = contents_of (take max_keys items);
      common_prefixes = prefixes_of (take max_keys items);
      is_truncated = ltb max_keys (length items);
      next_key = last_key (take max_keys items) none;
    }
emit_page-eq_take max_keys items =
    let e : page_count empty_page + max_keys ≡ max_keys = omega arith in
    (rw e at (emit_page-room max_keys items empty_page))
    ∙ cut_fresh (ltb max_keys (length items)) (take max_keys items)
