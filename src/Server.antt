-- ===== src/Server.antt =====
-- `build_api_router` of src/lib.rs: the route table, and the layers around it. Which
-- route a path matches, which method of a route is taken, how captures and parameters are extracted
-- and what is answered where that fails is axum, a parameter.
pub mod Guarded
mod Tests
use ferro_s.Base.{
  ℕ, suc, List, [], ◌∷◌, Option, none, some, Bool, not, ◌&&◌, ◌||◌, Text, codes, if◌then◌else◌,
  ◌==◌,
}
use ferro_s.State.{AppState, CacheOps, map_get}
use ferro_s.Headers.{HeaderMap}
use ferro_s.Api.Documents.{Response}
use ferro_s.Api.Errors.{access_denied, to_response}
use ferro_s.Objects.Disk.{DiskOps}
use ferro_s.Objects.Env.{Env, ObjectRequest}
use ferro_s.Objects.Flow.{World, run}
use ferro_s.Objects.Read.{get_object, head_object}
use ferro_s.Objects.Write.{Chunk, put_object}
use ferro_s.Objects.Delete.{delete_object}
use ferro_s.Buckets.{list_buckets, head_bucket}
use ferro_s.Listing.Tree.{Node}
use ferro_s.Listing.Page.{ListObjectsParams, ListEnv, list_objects}
use ferro_s.Listing.Ends.{node_weight}
use ferro_s.Auth.Crypto.{Crypto}
use ferro_s.Auth.Middleware.{AuthRequest, run_next, denied, auth_middleware}
use ferro_s.Auth.Presign.{PresignParams, generate_presigned_url}
use ferro_s.Router.{has_body, timeout_middleware}

-- The handlers that the table names.
pub data Endpoint : Type 0 where
  buckets_list presign : Endpoint
  objects_list bucket_head : Endpoint
  object_get object_head object_put object_delete : Endpoint

abbrev bucket_methods : List (Text × Endpoint)
bucket_methods = (codes "GET", objects_list) ∷ (codes "HEAD", bucket_head) ∷ []

abbrev object_methods : List (Text × Endpoint)
object_methods =
    (codes "GET", object_get)
    ∷ (codes "HEAD", object_head)
    ∷ (codes "PUT", object_put)
    ∷ (codes "DELETE", object_delete)
    ∷ []

-- The routes, each with its methods.
abbrev pub api_routes : List (Text × List (Text × Endpoint))
api_routes =
    (codes "/", (codes "GET", buckets_list) ∷ [])
    ∷ (codes "/_admin/presign", (codes "POST", presign) ∷ [])
    ∷ (codes "/:bucket", bucket_methods)
    ∷ (codes "/:bucket/", bucket_methods)
    ∷ (codes "/:bucket/*key", object_methods)
    ∷ []

abbrev pub patterns {ℓ} : {A : Type ℓ} → List (Text × A) → List Text
patterns [] = []
patterns ((p, a) ∷ routes) = p ∷ patterns routes

-- A request as it reaches the router, with its body as a stream.
pub record Call : Type 0 where
  pub method : Text
  pub path : Text
  pub query : Option Text
  pub headers : HeaderMap
  pub body : List Chunk

-- What axum does: the pattern that a path matches, with what its captures decode to; the method of a
-- route; the parameters of a query, for each of its two uses; and its own answers.
pub record Axum : Type 0 where
  pub matched : List Text → Text → Option (Text × List Text)
  pub pick : List (Text × Endpoint) → Text → Option Endpoint
  pub list_params : Option Text → Option ListObjectsParams
  pub presign_params : Option Text → Option PresignParams
  pub not_found : Response
  pub method_not_allowed : Response
  pub rejected : Response

-- What a request finds besides the disk and the cache: the clock of signatures, the directory tree
-- below a bucket's storage and whether its walk is joined, whether more than some seconds pass
-- before the response, and what a handler that is cut off then leaves behind.
pub record Around (S C : Type 0) : Type 0 where
  pub auth_now : ℕ
  pub tree : S → Text → Node
  pub joined : Bool
  pub late : ℕ → Bool
  pub cut_off : World S C → World S C

abbrev pub auth_request : Call → AuthRequest
auth_request call = record {
  method = call.method;
  path = call.path;
  query = call.query;
  headers = call.headers;
}

module _ {S C : Type 0} (disk : DiskOps S) (cache : CacheOps C) (env : Env) (state : AppState C)
    (c : Crypto) (axum : Axum) (around : Around S C) where
  abbrev pub list_env : S → Text → ListEnv
  list_env s bucket = record {
    now = env.now;
    rfc3339 = env.rfc3339;
    request_id = env.request_id;
    tree = around.tree s bucket;
    joined = around.joined;
  }

  abbrev pub listed : World S C → Text → ListObjectsParams → Response
  listed w bucket params =
      list_objects (list_env w.disk bucket) (suc (suc (node_weight (around.tree w.disk bucket))))
        state bucket params

  abbrev pub object_request : Call → Text → Text → ObjectRequest
  object_request call bucket key = record {
    bucket = bucket;
    key = key;
    query = call.query;
    headers = call.headers;
  }

  -- A handler on the captures of its route.
  unfoldable pub call_bucket : Endpoint → Call → Text → World S C → Response × World S C
  call_bucket objects_list call bucket w = elim (axum.list_params call.query) [
    | none ↦ (axum.rejected, w)
    | some params ↦ (listed w bucket params, w)
  ]
  call_bucket bucket_head call bucket w = (head_bucket state env.request_id bucket, w)
  call_bucket _ call bucket w = (axum.rejected, w)

  unfoldable pub call_object : Endpoint → Call → Text → Text → World S C → Response × World S C
  call_object object_get call bucket key w =
      run (get_object disk cache env state (object_request call bucket key)) w
  call_object object_head call bucket key w =
      run (head_object disk cache env state (object_request call bucket key)) w
  call_object object_put call bucket key w =
      run (put_object disk cache env state (object_request call bucket key) call.body) w
  call_object object_delete call bucket key w =
      run (delete_object disk cache env state (object_request call bucket key)) w
  call_object _ call bucket key w = (axum.rejected, w)

  unfoldable pub call_plain : Endpoint → Call → World S C → Response × World S C
  call_plain buckets_list call w = (list_buckets state, w)
  call_plain presign call w = elim (axum.presign_params call.query) [
    | none ↦ (axum.rejected, w)
    | some p ↦ (
      generate_presigned_url c state.config.auth state.config.endpoint state.config.port
          around.auth_now p,
      w,
    )
  ]
  call_plain _ call w = (axum.rejected, w)

  unfoldable pub call_endpoint : Endpoint → Call → List Text → World S C → Response × World S C
  unfolding call_plain call_bucket call_object
  call_endpoint e call [] w = call_plain e call w
  call_endpoint e call (bucket ∷ []) w = call_bucket e call bucket w
  call_endpoint e call (bucket ∷ key ∷ more) w = call_object e call bucket key w

  -- The routes.
  unfoldable pub dispatch : Call → World S C → Response × World S C
  dispatch call w = elim (axum.matched (patterns api_routes) call.path) [
    | none ↦ (axum.not_found, w)
    | some (pattern_text, captures) ↦ elim (map_get api_routes pattern_text) [
      | none ↦ (axum.not_found, w)
      | some methods ↦ elim (axum.pick methods call.method) [
        | none ↦ (axum.method_not_allowed, w)
        | some e ↦ call_endpoint e call captures w
      ]
    ]
  ]

  -- The inner layer: `auth_middleware` around the routes.
  unfoldable pub auth_layer : Call → World S C → Response × World S C
  auth_layer call w =
      elim (auth_middleware c state.config.auth around.auth_now (auth_request call)) [
        | run_next ↦ dispatch call w
        | denied ↦ (to_response env.request_id access_denied none, w)
      ]

  -- Where the outer layer gives up, the inner one has been dropped on its way.
  unfoldable pub dropped : Call → World S C → World S C
  dropped call w = elim (auth_middleware c state.config.auth around.auth_now (auth_request call)) [
    | run_next ↦ around.cut_off w
    | denied ↦ w
  ]

  abbrev pub gives_up : Call → Bool
  gives_up call =
      not (state.config.request_timeout_secs == 0 || has_body call.method)
      && around.late state.config.request_timeout_secs

  -- The router with both layers.
  unfoldable pub api_router : Call → World S C → Response × World S C
  api_router call w =
      let (response, w') = auth_layer call w in
      (
        timeout_middleware state.config env.request_id call.method
            (λ n. if around.late n then none else some response) response,
        if gives_up call then dropped call w else w',
      )
