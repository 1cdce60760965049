-- ===== src/Listing/Refinement/Follows.antt =====
-- What a round of `collect_entries` of src/handlers/list.rs keeps: the listing that it leads to.
use ferro_s.Base.{
  ◌≡◌, refl, sym, ap, ◌∙◌, List, [], ◌∷◌, ◌++◌, Option, none, some, Bool, true, false, Text, length,
  length-append, take, leb, append_assoc, arith, if◌then◌else◌,
}
use ferro_s.Listing.Walk.{ListItem, Query, Walk, Round, stop, more, emit}
use ferro_s.Listing.Reference.{KeyFile, reference_items}
use ferro_s.Listing.Refinement.Keys.{pending}
use ferro_s.Listing.Refinement.Hidden.{AllHidden, reference_items-hidden}
use ferro_s.Listing.Refinement.Valid.{take-append_exact, rest_of, IsValid}

module _ (q : Query) where
  abbrev pub FollowsAt : List (Text × ListItem) → Round → Type 0
  FollowsAt whole (stop w) = w.items ≡ take q.limit whole
  FollowsAt whole (more w) = (w.items ++ rest_of q w ≡ whole) × IsValid q w

  -- The round leads to the listing `whole`, cut to the limit.
  pub record Follows (whole : List (Text × ListItem)) (r : Round) : Type 0 where
    pub at : FollowsAt whole r

  module _ {whole : List (Text × ListItem)} where
    pub Follows-if :
        (b : Bool) {x y : Round}
        → (b ≡ true → Follows whole x)
        → (b ≡ false → Follows whole y)
        → Follows whole (if b then x else y)
    Follows-if true h k = h refl
    Follows-if false h k = k refl

    pub Follows-option :
        (o : Option Text) {x : Round} {f : Text → Round}
        → (o ≡ none → Follows whole x)
        → ((t : Text) → o ≡ some t → Follows whole (f t))
        → Follows whole (elim o [ none ↦ x | some t ↦ f t ])
    Follows-option none h k = h refl
    Follows-option (some t) h k = k t refl

    -- A round that adds nothing.
    pub Follows-more :
        (w : Walk) → IsValid q w → w.items ++ rest_of q w ≡ whole → Follows whole (more w)
    Follows-more w v e = record { at = (e, v) }

    pub emit-Follows :
        (key : Text) (item : ListItem) (w : Walk)
        → IsValid q w
        → w.items ++ ((key, item) ∷ rest_of q w) ≡ whole
        → Follows whole (emit q key item w)
    unfolding emit
    emit-Follows key item w v e =
        let longer = length-append w.items ((key, item) ∷ []) in
        let regrouped : (w.items ++ ((key, item) ∷ [])) ++ rest_of q w ≡ whole =
          append_assoc w.items ((key, item) ∷ []) (rest_of q w) ∙ e in
        Follows-if (leb q.limit (length (w.items ++ ((key, item) ∷ []))))
          (λ full. record {
            at = sym (
                ap (take q.limit) (sym regrouped)
                ∙ take-append_exact q.limit (w.items ++ ((key, item) ∷ [])) (rest_of q w)
                    (ground (arith, longer, v.fits, full)));
          })
          (λ room.
            Follows-more _
              (record {
                fits = ground (arith, longer, room);
                frames = v.frames;
                settled = v.settled;
              })
              regrouped)

    -- The files in front are hidden.
    pub Follows-skip :
        (files : List KeyFile) (w : Walk)
        → IsValid q w
        → AllHidden q w.seen_prefixes files
        → w.items ++ reference_items q w.seen_prefixes (files ++ pending w.stack) ≡ whole
        → Follows whole (more w)
    Follows-skip files w v h e = Follows-more w v (
        ap (λ l. w.items ++ l)
          (sym (reference_items-hidden q w.seen_prefixes files (pending w.stack) h))
        ∙ e)
