-- ===== src/Objects/Write/CopyRefused.antt =====
-- What `copy_object` of src/handlers/object.rs refuses, before it touches the disk.
use ferro_s.Base.{
  ◌≡◌, refl, ap, ◌∙◌, inl, inr, List, Option, none, some, false, not, Text, codes, Option-cases,
  Bool-cases, if◌then◌else◌, arith,
}
use ferro_s.FilePath.{FilePath, safe_join}
use ferro_s.State.{AppState, CacheOps, map_get}
use ferro_s.Headers.{header_text, has_acl_query}
use ferro_s.Api.Documents.{Response, status_only}
use ferro_s.Api.Errors.{no_such_bucket, access_denied, no_such_key, invalid_request, to_response}
use ferro_s.Objects.Disk.{DiskOps}
use ferro_s.Objects.Env.{Env, ObjectRequest}
use ferro_s.Objects.Flow.{World, Flow, reply, Handler, run, response_of, ◌>>◌, require}
use ferro_s.Objects.Names.{parse_copy_source}
use ferro_s.Objects.Resolve.{Resolves}
use ferro_s.Objects.Resolve.Steps.{
  after_some, no_some, after_require, no_require, after_key, after_bucket, no_bucket, after_path,
  no_path,
}
use ferro_s.Objects.Write.{is_object, same_file, copy_object, put_object, Chunk}

module _ {S C : Type 0} (disk : DiskOps S) (cache : CacheOps C) (env : Env)
    (state : AppState C) where
  -- The source of a copy: what stands there, or why the copy is refused.
  unfoldable pub source_refusal : S → Text → FilePath → Text → FilePath → Option Response
  source_refusal s key path source_key source_path =
      if not (is_object disk cache env state (disk.metadata s source_path))
      then some (to_response env.request_id no_such_key (some source_key))
      else if same_file disk cache env state (disk.canonicalize s source_path)
          (disk.canonicalize s path)
      then some (to_response env.request_id invalid_request (some key))
      else none

  -- What a copy to `key`, which stands at `path`, is refused with: its source header does not parse;
  -- the bucket of the source is not configured; the source's key leaves the bucket; no object stands
  -- there; or it is the very file that is to be written.
  unfoldable pub copy_refusal : S → Text → FilePath → Text → Option Response
  copy_refusal s key path copy_source = elim (parse_copy_source env.decode copy_source) [
    | none ↦ some (status_only 400)
    | some source ↦ elim (map_get state.storage_map source.0) [
      | none ↦ some (to_response env.request_id no_such_bucket (some source.0))
      | some storage ↦ elim (safe_join storage source.1) [
        | none ↦ some (to_response env.request_id access_denied (some source.1))
        | some source_path ↦ source_refusal s key path source.1 source_path
      ]
    ]
  ]

  module _ (bucket key : Text) (path : FilePath) (copy_source : Text) (w : World S C) where
    abbrev answer_of : Response → Flow Response × World S C
    answer_of r = (reply r, w)

    answers : {r resp : Response} → some r ≡ some resp → answer_of r ≡ answer_of resp
    answers {r} {resp} h = let same : r ≡ resp = ground (arith, h) in ap answer_of same

    source_refused :
        (source_path : FilePath) (source_key : Text) (rest : Handler (World S C) Response)
        {resp : Response}
        → source_refusal w.disk key path source_key source_path ≡ some resp
        → (require
                (is_object disk cache env state (disk.metadata w.disk source_path))
                (to_response env.request_id no_such_key (some source_key))
              >> (require
                    (not (
                      same_file disk cache env state
                        (disk.canonicalize w.disk source_path)
                        (disk.canonicalize w.disk path)))
                    (to_response env.request_id invalid_request (some key))
                  >> rest))
            w
          ≡ (reply resp, w)
    unfolding source_refusal
    source_refused source_path source_key rest h =
        elim (Bool-cases (is_object disk cache env state (disk.metadata w.disk source_path))) [
          | inr n ↦ no_require w _ _ n ∙ answers (rw (source_refusal, n) at h)
          | inl y ↦
              after_require w _ _ y
              ∙ (elim (Bool-cases (
                  same_file disk cache env state (disk.canonicalize w.disk source_path)
                    (disk.canonicalize w.disk path))) [
                      | inl same ↦
                          no_require w _ _ (rw same refl)
                          ∙ answers (rw (source_refusal, y, same) at h)
                      | inr other ↦ ground (arith, rw (source_refusal, y, other) at h)
                    ])
        ]

    copy_refused :
        {resp : Response}
        → copy_refusal w.disk key path copy_source ≡ some resp
        → copy_object disk cache env state bucket key path copy_source w ≡ (reply resp, w)
    unfolding copy_object copy_refusal source_refusal
    copy_refused {resp} h = elim (Option-cases (parse_copy_source env.decode copy_source)) [
      | inl e ↦ no_some w _ _ e ∙ answers (rw (copy_refusal, e) at h)
      | inr ((source_bucket, source_key), e) ↦
          after_some w _ _ e ∙ (elim (Option-cases (map_get state.storage_map source_bucket)) [
            | inl f ↦
                no_bucket disk cache env state w source_bucket _ f
                ∙ answers (rw (copy_refusal, e, f) at h)
            | inr (storage, f) ↦
                after_bucket disk cache env state w source_bucket _ f
                ∙ (elim (Option-cases (safe_join storage source_key)) [
                  | inl g ↦
                      no_path disk cache env state w storage source_key _ g
                      ∙ answers (rw (copy_refusal, e, f, g) at h)
                  | inr (source_path, g) ↦
                      after_path disk cache env state w storage source_key _ g
                      ∙ source_refused source_path source_key _ (rw (copy_refusal, e, f, g) at h)
                ])
          ])
    ]

  module _ (req : ObjectRequest) (chunks : List Chunk) {key copy_source : Text}
      {storage path : FilePath} (w : World S C) where
    pub put_object-copy :
        Resolves env state req key storage path
        → has_acl_query req.query ≡ false
        → header_text req.headers (codes "x-amz-copy-source") ≡ some copy_source
        → put_object disk cache env state req chunks w
          ≡ copy_object disk cache env state req.bucket key path copy_source w
    unfolding put_object
    put_object-copy r plain given =
        after_key disk cache env state w req _ r.decoded
        ∙ after_bucket disk cache env state w req.bucket _ r.configured
        ∙ (rw plain (after_path disk cache env state w storage key _ r.contained ∙ (rw given refl)))

    -- A PUT that resolves, is no ACL write and asks for a copy is refused, with the disk and the cache as they were,
    -- where its source does not parse (400), is in a bucket that is not configured (NoSuchBucket),
    -- leaves its bucket (AccessDenied), is no object (NoSuchKey), or is, by its canonical path, the
    -- very file that is to be written (InvalidRequest); the first of these that holds is the
    -- answer.
    pub put_object-copy_refusal :
        {resp : Response}
        → Resolves env state req key storage path
        → has_acl_query req.query ≡ false
        → header_text req.headers (codes "x-amz-copy-source") ≡ some copy_source
        → copy_refusal w.disk key path copy_source ≡ some resp
        → run (put_object disk cache env state req chunks) w ≡ (resp, w)
    put_object-copy_refusal r plain given h =
        ap (λ (p : Flow Response × World S C). (response_of p.0, p.1))
          (put_object-copy r plain given ∙ copy_refused req.bucket key path copy_source w h)
