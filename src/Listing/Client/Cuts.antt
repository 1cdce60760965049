-- ===== src/Listing/Client/Cuts.antt =====
-- Where a page of `list_objects` of src/handlers/list.rs cuts the items of a listing.
use ferro_s.Base.{
  ℕ, zero, suc, ◌-◌, ◌<◌, ◌≡◌, refl, sym, ap, ◌∙◌, List, [], ◌∷◌, ◌++◌, none, some, true, false,
  Text, ltb, length, take, drop, arith,
}
use ferro_s.Listing.Walk.{content, prefix}
use ferro_s.Listing.Truncation.{contents_of, prefixes_of, last_key, ltb-suc}
use ferro_s.Listing.Order.Items.{Item}

pub take-take : (n : ℕ) (items : List Item) → take n (take (suc n) items) ≡ take n items
take-take zero items = refl
take-take (suc n) [] = refl
take-take (suc n) (x ∷ items) = ap (λ l. x ∷ l) (take-take n items)

pub ltb-take :
    (n : ℕ) (items : List Item) → ltb n (length (take (suc n) items)) ≡ ltb n (length items)
ltb-take zero [] = refl
ltb-take zero (x ∷ items) = ground arith
ltb-take (suc n) [] = refl
ltb-take (suc n) (x ∷ items) =
    sym (ltb-suc n (length (take (suc n) items))) ∙ ltb-take n items ∙ ltb-suc n (length items)

pub take_all : (n : ℕ) (items : List Item) → ltb n (length items) ≡ false → take n items ≡ items
take_all zero [] h = refl
take_all zero (x ∷ items) h = ground (arith, h)
take_all (suc n) [] h = refl
take_all (suc n) (x ∷ items) h = ap (λ l. x ∷ l) (take_all n items (ground (arith, h)))

pub contents_of-take-drop :
    (n : ℕ) (items : List Item)
    → contents_of (take n items) ++ contents_of (drop n items) ≡ contents_of items
contents_of-take-drop zero items = refl
contents_of-take-drop (suc n) [] = refl
contents_of-take-drop (suc n) ((key, content c) ∷ items) =
    ap (λ l. c ∷ l) (contents_of-take-drop n items)
contents_of-take-drop (suc n) ((key, prefix t) ∷ items) = contents_of-take-drop n items

pub prefixes_of-take-drop :
    (n : ℕ) (items : List Item)
    → prefixes_of (take n items) ++ prefixes_of (drop n items) ≡ prefixes_of items
prefixes_of-take-drop zero items = refl
prefixes_of-take-drop (suc n) [] = refl
prefixes_of-take-drop (suc n) ((key, content c) ∷ items) = prefixes_of-take-drop n items
prefixes_of-take-drop (suc n) ((key, prefix t) ∷ items) =
    ap (λ l. t ∷ l) (prefixes_of-take-drop n items)

pub last_key-some :
    (key : Text) (items : List Item) → (s : Text) × (last_key items (some key) ≡ some s)
last_key-some key [] = (key, refl)
last_key-some key ((k, item) ∷ items) = last_key-some k items

pub last_key-take :
    (n : ℕ) (items : List Item)
    → 0 < n
    → ltb n (length items) ≡ true
    → (s : Text) × (last_key (take n items) none ≡ some s)
last_key-take zero items pos h = ground (arith, pos)
last_key-take (suc n) [] pos h = ground (arith, h)
last_key-take (suc n) ((key, item) ∷ items) pos h = last_key-some key (take n items)

pub length_drop : (n : ℕ) (items : List Item) → length (drop n items) ≡ length items - n
length_drop zero items = omega arith
length_drop (suc n) [] = omega arith
length_drop (suc n) (x ∷ items) = omega (arith, length_drop n items)
