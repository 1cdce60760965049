-- ===== src/Listing/Refinement/Steps.antt =====
-- The rounds of `collect_entries` of src/handlers/list.rs, by what they visit.
use ferro_s.Base.{
  ◌≡◌, sym, ap, ◌∙◌, List, [], ◌∷◌, ◌++◌, Option, none, some, Bool, true, not, ◌&&◌, Text, codes,
  starts_with, is_empty, arith, if◌then◌else◌,
}
use ferro_s.Metadata.{Metadata}
use ferro_s.Listing.Tree.{Node, dir, Entries, node_has_file}
use ferro_s.Listing.Walk.{
  ListItem, content, prefix, Query, Walk, more, in_settled, after_start, mem_text,
  subtree_may_contain, collapsing_group, common_prefix, emit, visit_dir, visit_object, content_of,
}
use ferro_s.Listing.Reference.{KeyFile, reference_keys, reference_items}
use ferro_s.Listing.Refinement.Groups.{GroupOf, collapsing_group-GroupOf}
use ferro_s.Listing.Refinement.Keys.{pending, Under, reference_keys-Under, pending-read_children}
use ferro_s.Listing.Refinement.Names.{NamesOk, read_children-FrameOf, IsDirKey-child}
use ferro_s.Listing.Refinement.Hidden.{
  AllHidden, reference_items-content, unreached-hidden, shown_as_early, shown_as-object,
}
use ferro_s.Listing.Refinement.Blocks.{node_has_file-reference_keys}
use ferro_s.Listing.Refinement.Valid.{Settled-cons, IsValid, not_new, group_block, settled-hidden}
use ferro_s.Listing.Refinement.Follows.{
  Follows, Follows-if, Follows-option, Follows-more, emit-Follows, Follows-skip,
}

module _ (q : Query) {whole : List (Text × ListItem)} where
  pub visit_object-Follows :
      (key : Text) (m : Option Metadata) (w : Walk)
      → starts_with key q.prefix ≡ true
      → common_prefix q key ≡ none
      → IsValid q w
      → w.items ++ reference_items q w.seen_prefixes ((key, m) ∷ pending w.stack) ≡ whole
      → Follows q whole (visit_object q key m w)
  unfolding visit_object
  visit_object-Follows key none w inside alone v e =
      let gone : AllHidden q w.seen_prefixes ((key, none) ∷ []) =
        (rw (shown_as-object q key none inside alone) tt, tt) in
      Follows-if q (not (after_start q.start_after key))
        (λ early. Follows-skip q ((key, none) ∷ []) w v gone e)
        (λ late. Follows-skip q ((key, none) ∷ []) w v gone e)
  visit_object-Follows key (some d) w inside alone v e =
      Follows-if q (not (after_start q.start_after key))
        (λ early.
          Follows-skip q ((key, some d) ∷ []) w v
            (shown_as_early q w.seen_prefixes key (some d) inside (ground (arith, early)), tt) e)
        (λ late.
          let past_start : after_start q.start_after key ≡ true = ground (arith, late) in
          emit-Follows q key (content (content_of q key d)) w v (
            ap (λ l. w.items ++ l)
              (sym (
                reference_items-content q w.seen_prefixes key (some d) (pending w.stack)
                  (shown_as-object q key (some d) inside alone)
                ∙ (rw past_start)))
            ∙ e))

  collapsed :
      (g : Text) (files : List KeyFile) (n : Node) (w : Walk)
      → IsValid q w
      → GroupOf q g
      → Under g files
      → node_has_file n ≡ not (is_empty files)
      → w.items ++ reference_items q w.seen_prefixes (files ++ pending w.stack) ≡ whole
      → Follows q whole (
          if after_start q.start_after g && (not (mem_text g w.seen_prefixes) && node_has_file n)
          then emit q g (prefix g) (record w { seen_prefixes = g ∷ w.seen_prefixes })
          else more w)
  collapsed g files n w v group u holds e =
      Follows-if q
        (after_start q.start_after g && (not (mem_text g w.seen_prefixes) && node_has_file n))
        (λ fresh.
          emit-Follows q g (prefix g) _
            (record {
              fits = v.fits;
              frames = v.frames;
              settled = Settled-cons q w.settled_group g w.seen_prefixes v.settled;
            })
            (ap (λ l. w.items ++ l)
                (sym (
                  group_block q g w.seen_prefixes files (pending w.stack) group u
                    (ground (arith, holds, fresh)) (ground (arith, fresh))))
              ∙ e))
        (λ stale.
          Follows-skip q files w v (not_new q g files w.seen_prefixes n group u holds stale) e)

  pub visit_dir-Follows :
      (d name : Text) (readable : Bool) (es : Entries) (w : Walk)
      → NamesOk (dir readable es)
      → IsValid q w
      → w.items
          ++ reference_items q w.seen_prefixes
              (reference_keys (d ++ (name ++ codes "/")) (dir readable es) ++ pending w.stack)
        ≡ whole
      → Follows q whole (visit_dir q (d ++ (name ++ codes "/")) (dir readable es) w)
  unfolding visit_dir
  visit_dir-Follows d name readable es w names v e =
      let subtree = d ++ (name ++ codes "/") in
      let files = reference_keys subtree (dir readable es) in
      let under = reference_keys-Under subtree (dir readable es) in
      Follows-if q (in_settled w.settled_group subtree)
        (λ s. Follows-skip q files w v (settled-hidden q subtree files w v s under) e)
        λ _.
          Follows-if q (not (subtree_may_contain subtree q.prefix q.start_after))
            (λ far.
              Follows-skip q files w v
                (unreached-hidden q w.seen_prefixes subtree files (ground (arith, far)) under) e)
            λ _.
              Follows-option q (collapsing_group subtree q.prefix q.delimiter)
                (λ _.
                  Follows-more q _
                    (record {
                      fits = v.fits;
                      frames = (
                        (
                          subtree,
                          IsDirKey-child d name,
                          read_children-FrameOf subtree (dir readable es) names,
                        ),
                        v.frames,
                      );
                      settled = v.settled;
                    })
                    (ap (λ fs. w.items ++ reference_items q w.seen_prefixes (fs ++ pending w.stack))
                        (pending-read_children subtree readable es)
                      ∙ e))
                (λ g c.
                  let (same, group) = collapsing_group-GroupOf q subtree c in
                  rw same (
                    collapsed subtree files (dir readable es) w v group under
                      (node_has_file-reference_keys subtree (dir readable es)) e))
