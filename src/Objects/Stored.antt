-- ===== src/Objects/Stored.antt =====
-- A PUT and the GET that comes after it: `put_object` and `get_object` of src/handlers/object.rs.
use ferro_s.Base.{
  ℕ, ◌≡◌, refl, sym, ap, ◌∙◌, List, none, some, Bool, false, Text, codes, text_eq, length,
}
use mathlib.Core.Path.{subst}
use ferro_s.Metadata.{Metadata, mod_time, etag}
use ferro_s.FilePath.{FilePath}
use ferro_s.State.{AppState, CacheOps, CacheLaws, map_get}
use ferro_s.Headers.{header_text, has_acl_query}
use ferro_s.Api.Documents.{Response}
use ferro_s.Objects.Disk.{DiskOps, DiskLaws, ReadLaws}
use ferro_s.Objects.Env.{Env, ObjectRequest}
use ferro_s.Objects.Flow.{World, Flow, run, response_of}
use ferro_s.Objects.Resolve.{Resolves}
use ferro_s.Objects.Read.{full_response, file_response, get_object}
use ferro_s.Objects.Served.{IsWhole, header_of, full_response-IsWhole, get_object-file}
use ferro_s.Objects.Cached.{put_object-Put, same_time}
use ferro_s.Objects.Write.{Chunk, put_object}
use ferro_s.Objects.Write.Upload.{upload_bytes}

-- The whole object, with this entity tag.
abbrev pub IsObject : List ℕ → Text → Response → Type 0
IsObject bytes tag resp = IsWhole bytes resp × (header_of resp (codes "etag") ≡ some tag)

pub full_response-IsObject :
    (env : Env) (m : Metadata) {bytes stored : List ℕ} {tag : Text}
    → bytes ≡ stored
    → m.len ≡ length stored
    → etag (mod_time env.now m) m.len ≡ tag
    → IsObject stored tag (full_response env m bytes)
unfolding full_response map_get text_eq
full_response-IsObject env m {bytes} {stored} {tag} same size h = (
  subst (λ b. IsWhole stored (full_response env m b)) (sym same)
      (full_response-IsWhole env m stored size),
  ap (λ t. some t) h,
)

pub whole_file_response :
    (env : Env) (req : ObjectRequest) (m : Metadata) (bytes : List ℕ) (seek : ℕ → Bool)
    → has_acl_query req.query ≡ false
    → header_text req.headers (codes "range") ≡ none
    → file_response env req m bytes seek ≡ full_response env m bytes
unfolding file_response
whole_file_response env req m bytes seek plain no_range = rw (file_response, plain, no_range) refl

module _ {S C : Type 0} (disk : DiskOps S) (cache : CacheOps C) (env : Env) (state : AppState C)
    (laws : DiskLaws disk) (cache_laws : CacheLaws cache) (path : FilePath) where
  -- What an upload stored is what comes back: after a PUT answered 200, that is no ACL write and no
  -- copy, a GET of the same path, with no Range header and for the object itself, whose file opens,
  -- answers 200 with all the bytes of the upload, their number, and the entity tag the PUT answered
  -- with.
  pub get_object-put_object :
      ReadLaws disk
      → (later : Env) (put get : ObjectRequest) (chunks : List Chunk) {key key' : Text}
        {storage storage' : FilePath} {opened : List ℕ} (w : World S C)
      → Resolves env state put key storage path
      → Resolves later state get key' storage' path
      → has_acl_query put.query ≡ false
      → header_text put.headers (codes "x-amz-copy-source") ≡ none
      → (run (put_object disk cache env state put chunks) w).0.status ≡ 200
      → has_acl_query get.query ≡ false
      → header_text get.headers (codes "range") ≡ none
      → disk.open_file (run (put_object disk cache env state put chunks) w).1.disk path
        ≡ some opened
      → (tag : Text) × (header_of
            (run (put_object disk cache env state put chunks) w).0
            (codes "etag")
          ≡ some tag)
        × IsObject
            (upload_bytes chunks)
            tag
            (run
              (get_object disk cache later state get)
              (run (put_object disk cache env state put chunks) w).1).0
  get_object-put_object read_laws later put get chunks {opened = opened} w r r' plain fresh ok
        plain' no_range opens =
      let done = (run (put_object disk cache env state put chunks) w).1 in
      let (object, primed) =
        put_object-Put disk cache env state laws cache_laws path put chunks w r plain fresh ok in
      let m = primed.meta in
      let (t, kept) = read_laws.modified done.disk path object.holds primed.stat in
      let tag = etag (mod_time env.now m) m.len in
      let whole =
        full_response-IsObject later m {tag = tag}
          (read_laws.opened done.disk path object.holds opens)
          (read_laws.len done.disk path object.holds primed.stat)
          (ap (λ x. etag x m.len) (same_time later.now env.now m kept)) in
      let answer =
        ap (λ (p : Flow Response × World S C). response_of p.0)
          (get_object-file disk cache later state get done r' opens primed.stat)
        ∙ whole_file_response later get m opened (disk.seek done.disk path) plain' no_range in
      (tag, primed.tagged, subst (IsObject (upload_bytes chunks) tag) (sym answer) whole)
