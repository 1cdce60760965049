-- ===== src/Objects/Tests/Answers.antt =====
-- Refusals, responses and the stat cache, at inputs that meet the hypotheses of the properties.
use ferro_s.Objects.Disk.{ReadLaws}
use ferro_s.Objects.Names.{parse_copy_source, trim_slashes, temp_path_for, temp_name, file_name}
use ferro_s.Base.{◌⊎◌}
use ferro_s.Base.{
  ℕ, ◌^◌, List, [], ◌∷◌, Option, none, some, true, false, Text, codes, ◌≡◌, refl, arith, ap, ◌∙◌,
  text_eq, length, split, sym,
}
use ferro_s.Base.Run.{texts}
use ferro_s.Metadata.{Metadata}
use ferro_s.FilePath.{
  parent, safe_join, components, first_components, body_components, part_component, join_components,
}
use ferro_s.FilePath.Equal.{path_eq}
use ferro_s.State.{with_defaults, build_state, build_storage_map, map_insert, map_get}
use ferro_s.Api.Documents.{Response}
use ferro_s.Api.Errors.{access_denied, invalid_request, to_response}
use ferro_s.Headers.{header_text, has_acl_query, any_acl}
use ferro_s.Objects.Env.{Env, ObjectRequest}
use ferro_s.Objects.Resolve.{Resolves}
use ferro_s.Objects.Flow.{World, run, ◌>>=◌}
use ferro_s.Objects.Read.{decoded_key, bucket_storage, object_path, get_object, head_object}
use ferro_s.Objects.Write.{
  put_object, put_body, ensure_parent_dir, fresh_temp, upload, put_response,
  create_retrying_on_pruned_dir, or_abandon, abandon, write_chunks, maybe_sync,
}
use ferro_s.Objects.Write.Upload.{upload_bytes}
use ferro_s.Objects.Delete.{delete_object}
use ferro_s.Objects.Refused.{refusal, IsCached, refusal-handlers}
use ferro_s.Objects.Served.{IsFramed, header_of, get_object-IsFramed}
use ferro_s.Objects.Cached.{Tells, head_object-put_object}
use ferro_s.Objects.Write.CopyRefused.{source_refusal, copy_refusal, put_object-copy_refusal}
use ferro_s.Objects.MemDisk.{mem_disk, mem_disk-DiskLaws, MemDisk, metadata_of}
use ferro_s.Objects.MemCache.{MemCache, mem_cache, mem_cache-CacheLaws}
use ferro_s.Objects.Tests.{
  config, target, env, state, req, req-Resolves, no_acl, no_copy, world, chunks, storage,
}

-- A key that leaves the bucket.
abbrev outside : ObjectRequest
outside = record { bucket = codes "photos"; key = codes "../b"; query = none; headers = [] }

abbrev denied : Response
denied = to_response env.request_id access_denied (some (codes "../b"))

outside_refused : refusal env state outside ≡ some denied
unfolding refusal state config build_state build_storage_map map_insert with_defaults map_get split
    text_eq
outside_refused = refl

refusal-handlers_example :
    (run (get_object mem_disk mem_cache env state outside) world ≡ (denied, world))
    × (run (delete_object mem_disk mem_cache env state outside) world ≡ (denied, world))
    × ((run (head_object mem_disk mem_cache env state outside) world ≡ (denied, world))
        ⊎ IsCached mem_disk mem_cache env state outside world)
    × ((run (put_object mem_disk mem_cache env state outside chunks) world ≡ (denied, world))
        ⊎ (has_acl_query outside.query ≡ true))
refusal-handlers_example =
    refusal-handlers mem_disk mem_cache env state outside world chunks outside_refused

-- The upload of the tests, served from the disk of the tests.
abbrev meta : Metadata
meta = record { is_dir = false; modified = some 0; len = 1 }

opened : mem_disk.open_file world.disk target ≡ some (7 ∷ [])
unfolding path_eq text_eq
opened = refl

stat_read : mem_disk.metadata world.disk target ≡ some meta
unfolding path_eq text_eq
stat_read = refl

get_object-IsFramed_example :
    IsFramed (7 ∷ []) (run (get_object mem_disk mem_cache env state req) world).0
    × ((run (get_object mem_disk mem_cache env state req) world).1 ≡ world)
get_object-IsFramed_example =
    get_object-IsFramed mem_disk mem_cache env state req world req-Resolves opened stat_read refl
      no_acl

-- A copy of the object onto itself.
abbrev self_copy : ObjectRequest
self_copy = record req { headers = (codes "x-amz-copy-source", some (codes "/photos/a/b")) ∷ [] }

self_copy-Resolves : Resolves env state self_copy (codes "a/b") storage target
self_copy-Resolves = record {
  decoded = req-Resolves.decoded;
  configured = req-Resolves.configured;
  contained = req-Resolves.contained;
}

abbrev same : Response
same = to_response env.request_id invalid_request (some (codes "a/b"))

given : header_text self_copy.headers (codes "x-amz-copy-source") ≡ some (codes "/photos/a/b")
unfolding header_text text_eq
given = refl

refused :
    copy_refusal mem_disk mem_cache env state world.disk (codes "a/b") target (codes "/photos/a/b")
    ≡ some same
unfolding copy_refusal source_refusal parse_copy_source trim_slashes state config build_state
    build_storage_map map_insert with_defaults map_get safe_join components first_components
    body_components part_component join_components texts text_eq path_eq
refused = refl

put_object-copy_refusal_example :
    run (put_object mem_disk mem_cache env state self_copy chunks) world ≡ (same, world)
put_object-copy_refusal_example =
    put_object-copy_refusal mem_disk mem_cache env state self_copy chunks world self_copy-Resolves
      no_acl given refused

-- A disk in memory meets `ReadLaws`.
mem_disk-no_dir :
    (o : Option (List ℕ)) {b : List ℕ} {m : Metadata}
    → o ≡ some b
    → metadata_of o ≡ some m
    → m.is_dir ≡ false
mem_disk-no_dir none h k = ground (arith, h)
mem_disk-no_dir (some b) {m = m} h k =
    let same : record { is_dir = false; modified = some 0; len = length b } ≡ m =
      ground (arith, k) in
    ap (λ (x : Metadata). x.is_dir) (sym same)

mem_disk-len :
    (o : Option (List ℕ)) {b : List ℕ} {m : Metadata}
    → o ≡ some b
    → metadata_of o ≡ some m
    → m.len ≡ length b
mem_disk-len none h k = ground (arith, h)
mem_disk-len (some b) {b = c} {m = m} h k =
    let same : record { is_dir = false; modified = some 0; len = length b } ≡ m =
      ground (arith, k) in
    let bytes : b ≡ c = ground (arith, h) in
    ap (λ (x : Metadata). x.len) (sym same) ∙ ap (λ (x : List ℕ). length x) bytes

mem_disk-modified :
    (o : Option (List ℕ)) {b : List ℕ} {m : Metadata}
    → o ≡ some b
    → metadata_of o ≡ some m
    → (t : ℕ) × (m.modified ≡ some t)
mem_disk-modified none h k = ground (arith, h)
mem_disk-modified (some b) {m = m} h k =
    let same : record { is_dir = false; modified = some 0; len = length b } ≡ m =
      ground (arith, k) in
    (0, ap (λ (x : Metadata). x.modified) (sym same))

mem_disk-gone :
    (o : Option (List ℕ)) {m : Metadata} → o ≡ none → metadata_of o ≡ some m → m.is_dir ≡ true
mem_disk-gone none h k = ground (arith, k)
mem_disk-gone (some b) h k = ground (arith, h)

pub mem_disk-ReadLaws : ReadLaws mem_disk
mem_disk-ReadLaws = record {
  no_dir = λ s p h k. mem_disk-no_dir (mem_disk.bytes_at s p) h k;
  len = λ s p h k. mem_disk-len (mem_disk.bytes_at s p) h k;
  modified = λ s p h k. mem_disk-modified (mem_disk.bytes_at s p) h k;
  gone = λ s p h k. mem_disk-gone (mem_disk.bytes_at s p) h k;
  opened = λ s p {b} {c} h k. let same : some c ≡ some b = sym k ∙ h in ground (arith, same);
}

-- The HEAD comes later, when the entry of the cache is not fresh any more.
abbrev pub later : Env
later = record env { now = 5; instant = 2 ^ 40 }

pub req-Resolves-later : Resolves later state req (codes "a/b") storage target
req-Resolves-later = record {
  decoded = refl;
  configured = req-Resolves.configured;
  contained = req-Resolves.contained;
}

abbrev pub put_there : Response × World MemDisk MemCache
put_there = run (put_object mem_disk mem_cache env state req chunks) world

pub answered_200 : put_there.0.status ≡ 200
unfolding put_object put_body decoded_key bucket_storage object_path ensure_parent_dir fresh_temp
    upload put_response create_retrying_on_pruned_dir or_abandon abandon write_chunks maybe_sync
    text_eq path_eq state build_state build_storage_map map_insert with_defaults map_get safe_join
    components first_components body_components part_component join_components texts ◌>>=◌
    header_text has_acl_query any_acl temp_path_for temp_name file_name parent to_response
answered_200 = refl

pub opens_after : mem_disk.open_file put_there.1.disk target ≡ some (1 ∷ 2 ∷ 3 ∷ [])
unfolding put_object put_body decoded_key bucket_storage object_path ensure_parent_dir fresh_temp
    upload put_response create_retrying_on_pruned_dir or_abandon abandon write_chunks maybe_sync
    text_eq path_eq state build_state build_storage_map map_insert with_defaults map_get safe_join
    components first_components body_components part_component join_components texts ◌>>=◌
    header_text has_acl_query any_acl temp_path_for temp_name file_name parent to_response
opens_after = refl

head_object-put_object_example :
    (tag : Text) × (header_of put_there.0 (codes "etag") ≡ some tag)
    × Tells
        (length (upload_bytes chunks))
        tag
        (run (head_object mem_disk mem_cache later state req) put_there.1).0
head_object-put_object_example =
    head_object-put_object mem_disk mem_cache env state mem_disk-DiskLaws mem_cache-CacheLaws target
      mem_disk-ReadLaws later req chunks world req-Resolves req-Resolves-later no_acl no_copy
      answered_200
