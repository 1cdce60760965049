-- ===== src/Objects/Write/Copied/Steps.antt =====
-- The steps of `copy_object` of src/handlers/object.rs past its source: what each does to the files
-- and to the cache.
use ferro_s.Base.{
  ◌≡◌, ◌≢◌, refl, ◌∙◌, ◌⊎◌, inl, inr, none, Bool, true, false, Text, Option-cases, if◌then◌else◌,
  arith,
}
use ferro_s.FilePath.{FilePath, parent}
use ferro_s.State.{AppState, CacheOps, CacheLaws}
use ferro_s.Api.Documents.{Response}
use ferro_s.Api.Errors.{internal_error, to_response}
use ferro_s.Objects.Disk.{DiskOps, DiskLaws, CopyLaws}
use ferro_s.Objects.Env.{Env}
use ferro_s.Objects.Flow.{World, Flow, reply, next, response_of, ◌>>=◌, ◌>>◌, require}
use ferro_s.Objects.Ensures.{Ensures, Outcome, Ensures-bind, Ensures-require}
use ferro_s.Objects.Write.{call, ensure_parent_dir, copy_retrying, copy_response, forget}

module _ {S C : Type 0} (disk : DiskOps S) (cache : CacheOps C) (env : Env) (state : AppState C)
    (laws : DiskLaws disk) (copies : CopyLaws disk) (cache_laws : CacheLaws cache)
    (source path : FilePath) (ne : source ≢ path) (before : S) where
  -- Every other file is as it was.
  abbrev pub OthersKept : World S C → Type 0
  OthersKept w = (q : FilePath) → q ≢ path → disk.bytes_at w.disk q ≡ disk.bytes_at before q

  abbrev pub HasSource : World S C → Type 0
  HasSource w = disk.bytes_at w.disk path ≡ disk.bytes_at before source

  pub record CopiedTo (key : Text) (w : World S C) : Type 0 where
    pub others : OthersKept w
    pub copied : HasSource w
    pub dropped : cache.get w.cache key ≡ none

  abbrev Failed : Response → World S C → Type 0
  Failed resp w = (resp.status ≢ 200) × OthersKept w

  ensure_parent-OthersKept :
      Ensures OthersKept (ensure_parent_dir disk cache env state path) (λ _ w. OthersKept w) Failed
  unfolding ensure_parent_dir
  ensure_parent-OthersKept = elim (Option-cases (parent path)) [
    | inl e ↦ rw (e, ensure_parent_dir) (record { at = λ w h. h })
    | inr (dir, e) ↦
        rw (e, ensure_parent_dir)
          (record { at = λ w h q other. laws.bytes-create_dir_all w.disk dir q ∙ h q other })
  ]

  call_copy :
      Ensures OthersKept
        (call disk cache env state (λ s. disk.copy s source path))
        (λ ok w. OthersKept w × (ok ≡ true → HasSource w))
        Failed
  call_copy = record {
    at = λ w h. (
      λ q other. copies.bytes-copy_ne w.disk source path q other ∙ h q other,
      λ ok. copies.bytes-copy_self w.disk source path ne ok ∙ h source ne,
    );
  }

  abbrev Tried : Bool → World S C → Type 0
  Tried ok w = OthersKept w × (ok ≡ true → HasSource w)

  copy_again :
      (again : Bool)
      → Ensures OthersKept
          (if again
            then call disk cache env state (λ s. disk.copy s source path)
            else (λ w. (next false, w)))
          Tried
          Failed
  copy_again true = call_copy
  copy_again false = record { at = λ w h. (h, λ e. ground (arith, e)) }

  copied_once :
      (done : Bool)
      → Ensures
          (Tried done)
          (if done
            then (λ w. (next true, w))
            else (ensure_parent_dir disk cache env state path >>= λ again.
                if again
                then call disk cache env state (λ s. disk.copy s source path)
                else (λ w. (next false, w))))
          Tried
          Failed
  copied_once true = record { at = λ w h. (h.0, λ e. h.1 refl) }
  copied_once false =
      Ensures-bind (ensure_parent_dir disk cache env state path) _
        (record { at = λ w h. ensure_parent-OthersKept.at w h.0 }) copy_again

  copy_retrying-Tried :
      Ensures OthersKept (copy_retrying disk cache env state source path) Tried Failed
  unfolding copy_retrying
  copy_retrying-Tried = Ensures-bind _ _ call_copy copied_once

  forget-CopiedTo :
      (key : Text)
      → Ensures
          (λ w. OthersKept w × HasSource w)
          (forget disk cache env state key)
          (λ _ w. CopiedTo key w)
          Failed
  forget-CopiedTo key = record {
    at = λ w h. record {
      others = h.0;
      copied = h.1;
      dropped = cache_laws.get-remove_self w.cache key;
    };
  }

  abbrev Answered : Text → Response → World S C → Type 0
  Answered key resp w = (resp.status ≡ 200) × CopiedTo key w

  copy_response-CopiedTo :
      (key : Text)
      → Ensures (CopiedTo key) (copy_response disk cache env state path) (Answered key) Failed
  unfolding copy_response ◌>>=◌ to_response
  copy_response-CopiedTo key = record {
    at = λ w h. elim (Option-cases (disk.metadata w.disk path)) [
      | inl e ↦ rw e (λ ok. ground (arith, ok), h.others)
      | inr (m, e) ↦
          rw e (refl, record { others = h.others; copied = h.copied; dropped = h.dropped })
    ];
  }

  abbrev internal : Response
  internal = to_response env.request_id internal_error none

  internal-Failed : (w : World S C) → OthersKept w → Failed internal w
  unfolding to_response
  internal-Failed w h = (λ ok. ground (arith, ok), h)

  -- The copy, past the tests of its source.
  copying :
      (key : Text)
      → Ensures OthersKept
          (ensure_parent_dir disk cache env state path >>= λ made.
            require made internal
            >> (copy_retrying disk cache env state source path >>= λ done.
                require done internal
                >> (forget disk cache env state key >> copy_response disk cache env state path)))
          (Answered key)
          Failed
  copying key =
      Ensures-bind (ensure_parent_dir disk cache env state path) _ ensure_parent-OthersKept λ made.
        Ensures-require made _ _ internal-Failed λ _.
          Ensures-bind (copy_retrying disk cache env state source path) _ copy_retrying-Tried
            λ done.
              Ensures-require done _ _ (λ w h. internal-Failed w h.0)
                λ ok.
                  Ensures-bind (forget disk cache env state key) _
                    (record { at = λ w h. (forget-CopiedTo key).at w (h.0, h.1 ok) })
                    λ _. copy_response-CopiedTo key

  -- A copy is answered 200 and done, or it is refused or fails.
  abbrev pub Copies : Text → Response → World S C → Type 0
  Copies key resp w = (resp.status ≡ 200) × CopiedTo key w ⊎ Failed resp w

  pub settled :
      (key : Text) (r : Flow Response × World S C)
      → Outcome (Answered key) Failed r
      → Copies key (response_of r.0) r.1
  settled key (reply resp, w) h = inr h
  settled key (next resp, w) h = inl h

  -- With the tests of the source, which answer with an error of theirs.
  pub tested :
      (key : Text) (b c : Bool) (no_source same : Response)
      → no_source.status ≢ 200
      → same.status ≢ 200
      → Ensures OthersKept
          (require b no_source
            >> (require c same
                >> (ensure_parent_dir disk cache env state path >>= λ made.
                    require made internal
                    >> (copy_retrying disk cache env state source path >>= λ done.
                        require done internal
                        >> (forget disk cache env state key
                            >> copy_response disk cache env state path)))))
          (Answered key)
          Failed
  tested key b c no_source same h k =
      Ensures-require b _ _ (λ w o. (h, o))
        λ _. Ensures-require c _ _ (λ w o. (k, o)) λ _. copying key
