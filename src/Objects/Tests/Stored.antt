-- ===== src/Objects/Tests/Stored.antt =====
-- An upload that is read back, and a copy, at inputs that meet the hypotheses of the properties.
use ferro_s.Objects.Disk.{CopyLaws}
use ferro_s.Base.{
  ℕ, List, [], ◌∷◌, Option, none, some, true, Text, codes, ◌≡◌, ◌≢◌, refl, sym, arith, text_eq,
}
use ferro_s.Base.Run.{texts}
use ferro_s.FilePath.{
  FilePath, safe_join, components, first_components, body_components, part_component,
  join_components,
}
use ferro_s.FilePath.Equal.{path_eq_refl}
use ferro_s.State.{with_defaults, build_state, build_storage_map, map_insert, map_get}
use ferro_s.Headers.{header_text}
use ferro_s.Objects.Env.{ObjectRequest}
use ferro_s.Objects.Resolve.{Resolves}
use ferro_s.Objects.Flow.{run}
use ferro_s.Objects.Names.{cache_key, parse_copy_source, trim_slashes}
use ferro_s.Objects.Read.{get_object, head_object}
use ferro_s.Api.Errors.{no_such_key, to_response}
use ferro_s.Objects.Delete.Outcome.{after_delete}
use ferro_s.Objects.Gone.{head_object-delete_object}
use ferro_s.Objects.Write.{put_object}
use ferro_s.Objects.Write.Upload.{upload_bytes}
use ferro_s.Objects.Write.Copied.Steps.{Copies}
use ferro_s.Objects.Write.Copied.{put_object-Copies}
use ferro_s.Objects.Served.{IsWhole, header_of}
use ferro_s.Objects.Isolated.{Elsewhere}
use ferro_s.Objects.History.{
  Event, deleting, putting, replay, AllElsewhere, replay-Elsewhere, get_object-replay,
}
use ferro_s.Objects.Write.Others.{put_object-others}
use ferro_s.Objects.Flow.{World}
use ferro_s.FilePath.{parent}
use ferro_s.Objects.Names.{temp_path_for, temp_name, file_name}
use ferro_s.Base.{length, ap, ◌∙◌}
use ferro_s.Objects.MemCache.{MemCache}
use ferro_s.Objects.MemDisk.{MemDisk, metadata_of}
use ferro_s.Objects.Stored.{IsObject, get_object-put_object}
use ferro_s.Objects.MemDisk.{mem_disk, mem_disk-DiskLaws, lookup, copy_to, path_eq-ne}
use ferro_s.Objects.MemCache.{mem_cache, mem_cache-CacheLaws}
use ferro_s.Objects.Tests.{
  removed, target, other, target-other, env, state, req, req-Resolves, no_acl, no_copy, world,
  chunks, storage,
}
use ferro_s.Objects.Tests.Answers.{
  later, req-Resolves-later, put_there, answered_200, opens_after, mem_disk-ReadLaws,
}

no_range : header_text req.headers (codes "range") ≡ none
unfolding header_text
no_range = refl

get_object-put_object_example :
    (tag : Text) × (header_of put_there.0 (codes "etag") ≡ some tag)
    × IsObject
        (upload_bytes chunks)
        tag
        (run (get_object mem_disk mem_cache later state req) put_there.1).0
get_object-put_object_example =
    get_object-put_object mem_disk mem_cache env state mem_disk-DiskLaws mem_cache-CacheLaws target
      mem_disk-ReadLaws later req req chunks world req-Resolves req-Resolves-later no_acl no_copy
      answered_200 no_acl no_range opens_after

copy_to_ne :
    (s : MemDisk) (p q : FilePath) (o : Option (List ℕ))
    → q ≢ p
    → lookup (copy_to s p o).0.files q ≡ lookup s.files q
copy_to_ne s p q none ne = refl
copy_to_ne s p q (some b) ne = rw (path_eq-ne p q (λ e. ne (sym e))) refl

copy_to_self :
    (s : MemDisk) (p : FilePath) (o : Option (List ℕ))
    → (copy_to s p o).1 ≡ true
    → lookup (copy_to s p o).0.files p ≡ o
copy_to_self s p none h = ground (arith, h)
copy_to_self s p (some b) h = rw (path_eq_refl p) refl

mem_disk-CopyLaws : CopyLaws mem_disk
mem_disk-CopyLaws = record {
  bytes-copy_ne = λ s source target q ne. copy_to_ne s target q (lookup s.files source) ne;
  bytes-copy_self = λ s source target ne h. copy_to_self s target (lookup s.files source) h;
}

-- A copy of the object to another key.
abbrev copy_req : ObjectRequest
copy_req = record {
  bucket = codes "photos";
  key = codes "c";
  query = none;
  headers = (codes "x-amz-copy-source", some (codes "/photos/a/b")) ∷ [];
}

copy_req-Resolves : Resolves env state copy_req (codes "c") storage other
unfolding state build_state build_storage_map map_insert with_defaults map_get safe_join components
    first_components body_components part_component join_components texts
copy_req-Resolves = record { decoded = refl; configured = refl; contained = refl }

copy_given : header_text copy_req.headers (codes "x-amz-copy-source") ≡ some (codes "/photos/a/b")
unfolding header_text text_eq
copy_given = refl

source_parsed :
    parse_copy_source env.decode (codes "/photos/a/b") ≡ some (codes "photos", codes "a/b")
unfolding parse_copy_source trim_slashes texts
source_parsed = refl

put_object-Copies_example :
    Copies mem_disk mem_cache env state mem_disk-DiskLaws mem_disk-CopyLaws mem_cache-CacheLaws
      target other target-other world.disk
      (cache_key copy_req.bucket (codes "c"))
      (run (put_object mem_disk mem_cache env state copy_req chunks) world).0
      (run (put_object mem_disk mem_cache env state copy_req chunks) world).1
put_object-Copies_example =
    put_object-Copies mem_disk mem_cache env state mem_disk-DiskLaws mem_disk-CopyLaws
      mem_cache-CacheLaws copy_req chunks target-other world copy_req-Resolves no_acl copy_given
      source_parsed req-Resolves.configured req-Resolves.contained

-- What a request for the other key resolves to.
Resolves-other :
    (key : Text) (storage' path : FilePath)
    → Resolves env state copy_req key storage' path
    → other ≡ path
Resolves-other key storage' path r =
    let one : some (codes "c") ≡ some key = r.decoded in
    let same : codes "c" ≡ key = ground (arith, one) in
    let two : some storage ≡ some storage' = sym copy_req-Resolves.configured ∙ r.configured in
    let there : storage ≡ storage' = ground (arith, two) in
    let three : some other ≡ some path =
      sym copy_req-Resolves.contained ∙ (rw (← same, ← there) at r.contained) in
    ground (arith, three)

temp-target : (n : ℕ) → temp_path_for env.pid n other ≢ target
unfolding temp_path_for parent file_name temp_name texts
temp-target n e = ground (arith, ap (λ (p : FilePath). length p) e)

copy_req-Elsewhere : Elsewhere env state copy_req target
copy_req-Elsewhere = record {
  apart = λ key s path r e. target-other (sym (Resolves-other key s path r ∙ e));
  temp_apart = λ key s path n r e.
      temp-target n (ap (temp_path_for env.pid n) (Resolves-other key s path r) ∙ e);
}

-- A copy to the other key, and a DELETE of it.
abbrev events : List Event
events =
    record { env = env; req = copy_req; operation = putting chunks }
    ∷ record { env = env; req = copy_req; operation = deleting }
    ∷ []

abbrev end : World MemDisk MemCache
end = replay mem_disk mem_cache state events put_there.1

copy_req-AllElsewhere : AllElsewhere mem_disk mem_cache state target events
copy_req-AllElsewhere = (copy_req-Elsewhere, (copy_req-Elsewhere, tt))

end_opens : mem_disk.open_file end.disk target ≡ some (1 ∷ 2 ∷ 3 ∷ [])
end_opens =
    replay-Elsewhere mem_disk mem_cache state mem_disk-DiskLaws mem_disk-CopyLaws target events
      put_there.1 copy_req-AllElsewhere
    ∙ opens_after

get_object-replay_example :
    IsWhole (upload_bytes chunks) (run (get_object mem_disk mem_cache later state req) end).0
get_object-replay_example =
    get_object-replay mem_disk mem_cache state mem_disk-DiskLaws mem_disk-CopyLaws
      mem_cache-CacheLaws mem_disk-ReadLaws env later req req chunks events world req-Resolves
      no_acl no_copy answered_200 copy_req-AllElsewhere req-Resolves-later no_acl no_range end_opens
      (ap metadata_of end_opens)

other_fresh : temp_path_for env.pid world.counter target ≢ other
unfolding temp_path_for parent file_name temp_name texts
other_fresh e = ground (arith, ap (λ (p : FilePath). length p) e)

put_object-others_example :
    mem_disk.bytes_at put_there.1.disk other ≡ mem_disk.bytes_at world.disk other
put_object-others_example =
    put_object-others mem_disk mem_cache env state mem_disk-DiskLaws req chunks other world
      req-Resolves no_acl no_copy target-other other_fresh

head_object-delete_object_example :
    run
      (head_object mem_disk mem_cache later state req)
      (after_delete mem_disk mem_cache env state req world)
    ≡ (
      to_response later.request_id no_such_key (some (codes "a/b")),
      after_delete mem_disk mem_cache env state req world,
    )
head_object-delete_object_example =
    head_object-delete_object mem_disk mem_cache env state mem_disk-DiskLaws mem_cache-CacheLaws
      mem_disk-ReadLaws later req world req-Resolves req-Resolves-later removed
