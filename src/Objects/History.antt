-- ===== src/Objects/History.antt =====
-- Requests one after the other, on one disk: the handlers of src/handlers/object.rs.
use ferro_s.Base.{ℕ, ◌≡◌, refl, sym, ap, ◌∙◌, List, [], ◌∷◌, none, some, All, false, Text, codes}
use mathlib.Core.Path.{subst}
use ferro_s.Metadata.{Metadata}
use ferro_s.FilePath.{FilePath}
use ferro_s.State.{AppState, CacheOps, CacheLaws}
use ferro_s.Headers.{header_text, has_acl_query}
use ferro_s.Api.Documents.{Response}
use ferro_s.Objects.Disk.{DiskOps, DiskLaws, ReadLaws, CopyLaws}
use ferro_s.Objects.Env.{Env, ObjectRequest}
use ferro_s.Objects.Flow.{World, Flow, run, response_of}
use ferro_s.Objects.Resolve.{Resolves}
use ferro_s.Objects.Read.{get_object, head_object}
use ferro_s.Objects.Served.{IsWhole, get_object-file}
use ferro_s.Objects.Cached.{put_object-Put}
use ferro_s.Objects.Stored.{full_response-IsObject, whole_file_response}
use ferro_s.Objects.Write.{Chunk, put_object}
use ferro_s.Objects.Write.Upload.{upload_bytes}
use ferro_s.Objects.Delete.{delete_object}
use ferro_s.Objects.Isolated.{
  Elsewhere, get_object-world, head_object-disk, delete_object-Elsewhere, put_object-Elsewhere,
}

-- The four handlers; a copy is a PUT.
pub data Operation : Type 0 where
  getting heading deleting : Operation
  putting : List Chunk → Operation

-- A request with what the server finds when it comes: the clock, and the process that serves it.
pub record Event : Type 0 where
  pub env : Env
  pub req : ObjectRequest
  pub operation : Operation

module _ {S C : Type 0} (disk : DiskOps S) (cache : CacheOps C) (state : AppState C) where
  abbrev pub perform : Env → ObjectRequest → Operation → World S C → Response × World S C
  perform env req getting w = run (get_object disk cache env state req) w
  perform env req heading w = run (head_object disk cache env state req) w
  perform env req deleting w = run (delete_object disk cache env state req) w
  perform env req (putting chunks) w = run (put_object disk cache env state req chunks) w

  abbrev pub replay : List Event → World S C → World S C
  replay [] w = w
  replay (e ∷ events) w = replay events (perform e.env e.req e.operation w).1

  abbrev pub AllElsewhere : FilePath → List Event → Type 0
  AllElsewhere q events = All (λ e. Elsewhere e.env state e.req q) events

  module _ (laws : DiskLaws disk) (copies : CopyLaws disk) (q : FilePath) where
    perform-Elsewhere :
        (env : Env) (req : ObjectRequest) (op : Operation) (w : World S C)
        → Elsewhere env state req q
        → disk.bytes_at (perform env req op w).1.disk q ≡ disk.bytes_at w.disk q
    perform-Elsewhere env req getting w away =
        ap (λ (v : World S C). disk.bytes_at v.disk q) (get_object-world disk cache env state req w)
    perform-Elsewhere env req heading w away =
        ap (λ s. disk.bytes_at s q) (head_object-disk disk cache env state req w)
    perform-Elsewhere env req deleting w away =
        delete_object-Elsewhere disk cache env state req laws copies q away w
    perform-Elsewhere env req (putting chunks) w away =
        put_object-Elsewhere disk cache env state req laws copies q away chunks w

    -- Requests that address other paths leave a file as it is.
    pub replay-Elsewhere :
        (events : List Event) (w : World S C)
        → AllElsewhere q events
        → disk.bytes_at (replay events w).disk q ≡ disk.bytes_at w.disk q
    replay-Elsewhere [] w h = refl
    replay-Elsewhere (e ∷ events) w (away, h) =
        replay-Elsewhere events (perform e.env e.req e.operation w).1 h
        ∙ perform-Elsewhere e.env e.req e.operation w away

  -- An object stays what it was uploaded as: after a PUT answered 200, that is no ACL write and no
  -- copy, and then any GET, HEAD, DELETE and PUT requests, copies among them, that address other
  -- paths and have no temporary file at its path, a GET of the path, for the object itself and
  -- without a Range header, whose file opens and whose metadata can be read, answers 200 with all
  -- the bytes of the upload and their number.
  pub get_object-replay :
      DiskLaws disk
      → CopyLaws disk
      → CacheLaws cache
      → ReadLaws disk
      → (env later : Env) (put get : ObjectRequest) (chunks : List Chunk) (events : List Event)
        {key key' : Text} {storage storage' path : FilePath} {opened : List ℕ} {m : Metadata}
        (w : World S C)
      → Resolves env state put key storage path
      → has_acl_query put.query ≡ false
      → header_text put.headers (codes "x-amz-copy-source") ≡ none
      → (run (put_object disk cache env state put chunks) w).0.status ≡ 200
      → AllElsewhere path events
      → Resolves later state get key' storage' path
      → has_acl_query get.query ≡ false
      → header_text get.headers (codes "range") ≡ none
      → disk.open_file
          (replay events (run (put_object disk cache env state put chunks) w).1).disk
          path
        ≡ some opened
      → disk.metadata
          (replay events (run (put_object disk cache env state put chunks) w).1).disk
          path
        ≡ some m
      → IsWhole
          (upload_bytes chunks)
          (run
            (get_object disk cache later state get)
            (replay events (run (put_object disk cache env state put chunks) w).1)).0
  get_object-replay laws copies cache_laws read_laws env later put get chunks events {path = path}
        {opened} {m} w r plain fresh ok away r' plain' no_range opens stat =
      let done = (run (put_object disk cache env state put chunks) w).1 in
      let end = replay events done in
      let (object, primed) =
        put_object-Put disk cache env state laws cache_laws path put chunks w r plain fresh ok in
      let holds = replay-Elsewhere laws copies path events done away ∙ object.holds in
      let whole =
        full_response-IsObject later m (read_laws.opened end.disk path holds opens)
          (read_laws.len end.disk path holds stat) refl in
      let answer =
        ap (λ (p : Flow Response × World S C). response_of p.0)
          (get_object-file disk cache later state get end r' opens stat)
        ∙ whole_file_response later get m opened (disk.seek end.disk path) plain' no_range in
      subst (IsWhole (upload_bytes chunks)) (sym answer) whole.0
