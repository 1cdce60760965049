-- ===== src/Listing/Refinement/Rounds.antt =====
-- Files, groups inside names, and a whole round of `collect_entries` of src/handlers/list.rs.
use ferro_s.Base.{
  ◌≡◌, ◌<◌, refl, sym, ap, ◌∙◌, inr, List, [], ◌∷◌, ◌++◌, Option, some, Bool, true, false, not,
  ◌&&◌, Text, starts_with, All, length, take, append-nil, append_assoc, arith, if◌then◌else◌,
}
use ferro_s.Base.Strings.Prefixes.{starts_with_refl}
use ferro_s.Metadata.{Metadata}
use ferro_s.Listing.Tree.{Node, file, dir, Child, child_key}
use ferro_s.Listing.Walk.{
  ListItem, prefix, Query, Walk, in_settled, after_start, mem_text, common_prefix, parent_key, pop,
  visit_group, visit_file, visit, round, round_at,
}
use ferro_s.Listing.Reference.{shown, once, past, reference_keys, reference_items}
use ferro_s.Listing.Refinement.Groups.{GroupOf, common_prefix-GroupOf}
use ferro_s.Listing.Refinement.Keys.{pending_frame, pending, Under-trans}
use ferro_s.Listing.Refinement.Names.{
  IsDirKey, FrameOf, parent_key-child, pending_frame-Under, HasNoSlash, NamesOk,
}
use ferro_s.Listing.Refinement.Hidden.{
  reference_items-hidden, reference_items-group, shown_as-GroupOf, GroupOf-hidden, shown_as-outside,
}
use ferro_s.Listing.Refinement.Valid.{
  mem_text-cons, rest_of, FrameIn, IsValid, settled-hidden, take_short,
}
use ferro_s.Listing.Refinement.Follows.{
  Follows, Follows-if, Follows-option, Follows-more, emit-Follows, Follows-skip,
}
use ferro_s.Listing.Refinement.Steps.{visit_object-Follows, visit_dir-Follows}

reference_items-nil : (q : Query) (seen : List Text) → reference_items q seen [] ≡ []
unfolding reference_items shown once past
reference_items-nil q seen = refl

module _ (q : Query) where
  -- Leaving the directory of a group that holds all of it changes nothing.
  leave_group :
      (d g key : Text) (seen : List Text) (frame : List Child) (frames : List (List Child))
      (b : Bool)
      → starts_with d g ≡ b
      → GroupOf q g
      → FrameOf d frame
      → reference_items q (g ∷ seen) (pending (frame ∷ frames))
        ≡ reference_items q
            (g ∷ seen)
            (pending (if b then pop (frame ∷ frames) else frame ∷ frames))
  leave_group d g key seen frame frames false e group fr = refl
  leave_group d g key seen frame frames true e group fr =
      reference_items-hidden q (g ∷ seen) (pending_frame frame) (pending frames) (
        GroupOf-hidden q (g ∷ seen) g (pending_frame frame) group (inr (mem_text-cons g seen))
          (Under-trans d g (pending_frame frame) e (pending_frame-Under d frame fr)))

  popped_frames :
      (b : Bool) (frame : List Child) (frames : List (List Child))
      → FrameIn q frame
      → All (FrameIn q) frames
      → All (FrameIn q) (if b then pop (frame ∷ frames) else frame ∷ frames)
  popped_frames true frame frames p h = h
  popped_frames false frame frames p h = (p, h)

module _ (q : Query) {whole : List (Text × ListItem)} where
  visit_group-Follows :
      (d name g : Text) (m : Option Metadata) (w : Walk) (frame : List Child)
      (frames : List (List Child))
      → IsDirKey d
      → HasNoSlash name
      → FrameOf d frame
      → All (FrameIn q) frames
      → starts_with (d ++ name) q.prefix ≡ true
      → common_prefix q (d ++ name) ≡ some g
      → length w.items < q.limit
      → w.items ++ reference_items q w.seen_prefixes ((d ++ name, m) ∷ pending (frame ∷ frames))
        ≡ whole
      → Follows q whole (visit_group q (d ++ name) g (record w { stack = frame ∷ frames }))
  unfolding visit_group
  visit_group-Follows d name g m w frame frames isdir bare fr frs inside e fits eq =
      let (member, group) = common_prefix-GroupOf q (d ++ name) inside e in
      let parent = parent_key-child d name isdir bare in
      let b = starts_with (parent_key (d ++ name)) g in
      let leave =
        leave_group q d g (d ++ name) w.seen_prefixes frame frames b
          (ap (λ k. starts_with k g) (sym parent)) group fr in
      let valid : IsValid q (record w {
        seen_prefixes = g ∷ w.seen_prefixes;
        settled_group = some g;
        stack = if b then pop (frame ∷ frames) else frame ∷ frames;
      }) =
        record {
          fits = fits;
          frames = popped_frames q b frame frames (d, isdir, fr) frs;
          settled = (mem_text-cons g w.seen_prefixes, group);
        } in
      let shown =
        reference_items-group q w.seen_prefixes (d ++ name) m (pending (frame ∷ frames))
          (shown_as-GroupOf q g (d ++ name) m group member) in
      Follows-if q (after_start q.start_after g && not (mem_text g w.seen_prefixes))
        (λ fresh. emit-Follows q g (prefix g) _ valid (
          ap (λ l. w.items ++ ((g, prefix g) ∷ l)) (sym leave)
          ∙ ap (λ l. w.items ++ l) (sym (shown ∙ (rw fresh)))
          ∙ eq))
        (λ stale. Follows-more q _ valid (
          ap (λ l. w.items ++ l) (sym leave)
          ∙ ap (λ l. w.items ++ l) (sym (shown ∙ (rw stale)))
          ∙ eq))

  visit_file-Follows :
      (d name : Text) (m : Option Metadata) (w : Walk) (frame : List Child)
      (frames : List (List Child))
      → IsDirKey d
      → HasNoSlash name
      → FrameOf d frame
      → IsValid q (record w { stack = frame ∷ frames })
      → w.items ++ reference_items q w.seen_prefixes ((d ++ name, m) ∷ pending (frame ∷ frames))
        ≡ whole
      → Follows q whole (visit_file q (d ++ name) m (record w { stack = frame ∷ frames }))
  unfolding visit_file
  visit_file-Follows d name m w frame frames isdir bare fr v e =
      let key = d ++ name in
      let w' : Walk = record w { stack = frame ∷ frames } in
      Follows-if q (in_settled w.settled_group key)
        (λ s.
          Follows-skip q ((key, m) ∷ []) w' v
            (settled-hidden q key ((key, m) ∷ []) w' v s (starts_with_refl key, tt)) e)
        λ _.
          Follows-if q (not (starts_with key q.prefix))
            (λ out.
              Follows-skip q ((key, m) ∷ []) w' v
                (rw (shown_as-outside q key m (ground (arith, out))) tt, tt) e)
            λ under.
              let inside : starts_with key q.prefix ≡ true = ground (arith, under) in
              Follows-option q (common_prefix q key)
                (λ alone. visit_object-Follows q key m w' inside alone v e)
                (λ g c.
                  visit_group-Follows d name g m w frame frames isdir bare fr v.frames.1 inside c
                    v.fits e)

  visit-Follows :
      (d name key : Text) (n : Node) (w : Walk) (frame : List Child) (frames : List (List Child))
      → IsDirKey d
      → HasNoSlash name
      → key ≡ child_key d name n
      → NamesOk n
      → FrameOf d frame
      → IsValid q (record w { stack = frame ∷ frames })
      → w.items
          ++ reference_items q w.seen_prefixes (reference_keys key n ++ pending (frame ∷ frames))
        ≡ whole
      → Follows q whole (visit q key n (record w { stack = frame ∷ frames }))
  unfolding visit reference_keys
  visit-Follows d name key (file m t) w frame frames isdir bare named below fr v e =
      rw named (visit_file-Follows d name m w frame frames isdir bare fr v (rw named at e))
  visit-Follows d name key (dir readable es) w frame frames isdir bare named below fr v e =
      rw named (
        visit_dir-Follows q d name readable es (record w { stack = frame ∷ frames }) below v
          (rw named at e))

  round_at-Follows :
      (stack : List (List Child)) (w : Walk)
      → IsValid q (record w { stack = stack })
      → w.items ++ reference_items q w.seen_prefixes (pending stack) ≡ whole
      → Follows q whole (round_at q stack w)
  unfolding round_at
  round_at-Follows [] w v e = record {
    at = sym (
        ap (take q.limit) (
          sym e
          ∙ ap (λ l. w.items ++ l) (reference_items-nil q w.seen_prefixes)
          ∙ append-nil w.items)
        ∙ take_short q.limit w.items v.fits);
  }
  round_at-Follows ([] ∷ frames) w v e =
      Follows-more q _ (record { fits = v.fits; frames = v.frames.1; settled = v.settled }) e
  round_at-Follows ((c ∷ rest) ∷ frames) w v e =
      let (d, isdir, fr) = v.frames.0 in
      visit-Follows d fr.0.name c.key c.node w rest frames isdir fr.0.no_slash fr.0.named fr.0.below
        fr.1
        (record { fits = v.fits; frames = ((d, isdir, fr.1), v.frames.1); settled = v.settled })
        (ap (λ fs. w.items ++ reference_items q w.seen_prefixes fs)
            (sym (append_assoc (reference_keys c.key c.node) (pending_frame rest) (pending frames)))
          ∙ e)

  -- A round of a valid walk leads to the listing that the walk holds.
  pub round-Follows :
      (w : Walk) → IsValid q w → w.items ++ rest_of q w ≡ whole → Follows q whole (round q w)
  unfolding round
  round-Follows w v e = round_at-Follows w.stack w v e
