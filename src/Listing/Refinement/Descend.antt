-- ===== src/Listing/Refinement/Descend.antt =====
-- Going down one directory of a prefix: only the entry of that name holds keys under the prefix.
use ferro_s.Base.{
  ◌≡◌, refl, sym, ap, ◌∙◌, List, [], ◌∷◌, ◌++◌, Option, none, some, true, false, ◌||◌, Text, codes,
  starts_with, text_eq, text_eq_sound, All, Bool-cases, inl, inr, arith,
}
use ferro_s.Base.Strings.Prefixes.{starts_with-append_both, starts_with_total}
use ferro_s.Metadata.{Metadata}
use ferro_s.Listing.Tree.{Node, file, dir, Entries, nil, entry, child_key, find_entry}
use ferro_s.Listing.Reference.{KeyFile, concat, reference_keys, reference_blocks}
use ferro_s.Listing.Refinement.Keys.{Under, reference_keys-Under}
use ferro_s.Listing.Refinement.Names.{HasNoSlash}
use ferro_s.Listing.Refinement.Search.{own_files_at}
use ferro_s.Listing.Refinement.Filter.{
  ListableEntries, matching, insert-matching_nil, insert-matching_alone,
}

-- A name is no extension of a text with a slash.
pub starts_with_no_slash :
    (name a t : Text) → HasNoSlash name → starts_with name (a ++ (b'/' ∷ t)) ≡ false
unfolding starts_with
starts_with_no_slash [] [] t h = refl
starts_with_no_slash [] (x ∷ a) t h = refl
starts_with_no_slash (c ∷ name) [] t (p, h) = rw p
starts_with_no_slash (c ∷ name) (x ∷ a) t (p, h) = ground (arith, starts_with_no_slash name a t h)

-- Texts that begin with a name and a slash have the same name where one starts with the other.
pub same_directory :
    (a b t : Text)
    → HasNoSlash a
    → HasNoSlash b
    → (starts_with (a ++ codes "/") (b ++ (b'/' ∷ t))
        || starts_with (b ++ (b'/' ∷ t)) (a ++ codes "/"))
      ≡ true
    → text_eq a b ≡ true
unfolding starts_with text_eq
same_directory [] [] t h k e = refl
same_directory [] (y ∷ b) t h k e = ground (arith, e, k.0)
same_directory (x ∷ a) [] t h k e = ground (arith, e, h.0)
same_directory (x ∷ a) (y ∷ b) t (p, h) (r, k) e = ground (arith, e, same_directory a b t h k)

pub matching-none :
    (p : Text) (files : List KeyFile)
    → All (λ (f : KeyFile). starts_with f.0 p ≡ false) files
    → matching p files ≡ []
unfolding matching
matching-none p [] h = refl
matching-none p ((key, m) ∷ files) (n, h) = rw n (matching-none p files h)

not-Under :
    (d name a t : Text) (files : List KeyFile)
    → HasNoSlash name
    → HasNoSlash a
    → text_eq name a ≡ false
    → Under (d ++ (name ++ codes "/")) files
    → All (λ (f : KeyFile). starts_with f.0 (d ++ (a ++ (b'/' ∷ t))) ≡ false) files
not-Under d name a t [] h k ne u = tt
not-Under d name a t ((key, m) ∷ files) h k ne (s, u) = (
  elim (Bool-cases (starts_with key (d ++ (a ++ (b'/' ∷ t))))) [
    | inr n ↦ n
    | inl y ↦ absurd (
        ground (
          arith,
          ne,
          same_directory name a t h k (
              ground (
                arith,
                starts_with_total key (d ++ (name ++ codes "/")) (d ++ (a ++ (b'/' ∷ t))) s y,
                starts_with-append_both d (name ++ codes "/") (a ++ (b'/' ∷ t)),
                starts_with-append_both d (a ++ (b'/' ∷ t)) (name ++ codes "/"),
              )),
        ))
  ],
  not-Under d name a t files h k ne u,
)

module _ (d a t : Text) (bare : HasNoSlash a) where
  matching-file :
      (name : Text) (m : Option Metadata)
      → HasNoSlash name
      → matching (d ++ (a ++ (b'/' ∷ t))) ((d ++ name, m) ∷ []) ≡ []
  matching-file name m h =
      matching-none (d ++ (a ++ (b'/' ∷ t))) ((d ++ name, m) ∷ [])
        (starts_with-append_both d name (a ++ (b'/' ∷ t)) ∙ starts_with_no_slash name a t h, tt)

  matching-other :
      (name : Text) (n : Node)
      → HasNoSlash name
      → text_eq name a ≡ false
      → matching (d ++ (a ++ (b'/' ∷ t))) (reference_keys (child_key d name n) n) ≡ []
  matching-other name (file m target) h ne = unfold reference_keys in matching-file name m h
  matching-other name (dir readable es) h ne =
      matching-none (d ++ (a ++ (b'/' ∷ t)))
        (reference_keys (d ++ (name ++ codes "/")) (dir readable es))
        (not-Under d name a t _ h bare ne
          (reference_keys-Under (d ++ (name ++ codes "/")) (dir readable es)))

  matching-same :
      (name : Text) (n : Node)
      → HasNoSlash name
      → text_eq name a ≡ true
      → matching (d ++ (a ++ (b'/' ∷ t))) (reference_keys (child_key d name n) n)
        ≡ matching (d ++ (a ++ (b'/' ∷ t))) (own_files_at (some n) (d ++ (a ++ codes "/")))
  matching-same name (file m target) h e =
      let gone : matching (d ++ (a ++ (b'/' ∷ t))) (reference_keys (d ++ name) (file m target))
          ≡ [] =
        unfold reference_keys in matching-file name m h in
      gone ∙ sym (matching-none (d ++ (a ++ (b'/' ∷ t))) [] tt)
  matching-same name (dir readable es) h e =
      ap
        (λ s.
          matching (d ++ (a ++ (b'/' ∷ t)))
            (reference_keys (d ++ (s ++ codes "/")) (dir readable es)))
        (text_eq_sound name a e)

  pub matching-entries :
      (es : Entries)
      → ListableEntries es
      → matching (d ++ (a ++ (b'/' ∷ t))) (concat (reference_blocks d es))
        ≡ matching (d ++ (a ++ (b'/' ∷ t))) (own_files_at (find_entry a es) (d ++ (a ++ codes "/")))
  unfolding reference_blocks find_entry
  matching-entries nil h = refl
  matching-entries (entry name n es) (named, fresh, ok, h) = elim (Bool-cases (text_eq name a)) [
    | inl y ↦
        let gone : find_entry a es ≡ none =
          ap (λ s. find_entry s es) (sym (text_eq_sound name a y)) ∙ fresh in
        let rest : matching (d ++ (a ++ (b'/' ∷ t))) (concat (reference_blocks d es)) ≡ [] =
          matching-entries es h
          ∙ ap (λ o. matching (d ++ (a ++ (b'/' ∷ t))) (own_files_at o (d ++ (a ++ codes "/"))))
              gone
          ∙ matching-none (d ++ (a ++ (b'/' ∷ t))) [] tt in
        rw y (
          insert-matching_alone (d ++ (a ++ (b'/' ∷ t))) (child_key d name n)
            (reference_keys (child_key d name n) n) (reference_blocks d es) rest
          ∙ matching-same name n named.no_slash y)
    | inr o ↦ rw o (
        insert-matching_nil (d ++ (a ++ (b'/' ∷ t))) (child_key d name n)
          (reference_keys (child_key d name n) n) (reference_blocks d es)
          (matching-other name n named.no_slash o)
        ∙ matching-entries es h)
  ]
