-- ===== src/Listing/Page.antt =====
-- `list_objects` of src/handlers/list.rs: the page that is built from the walk's items.
use ferro_s.Base.{
  ℕ, ◌+◌, ◌-◌, min, List, [], ◌∷◌, ◌++◌, Option, none, some, Bool, true, false, Text, codes, leb,
  length, if◌then◌else◌, ◌==◌, unwrap_or, u64_mod,
}
use ferro_s.FilePath.{FilePath}
use ferro_s.State.{AppState, map_get}
use ferro_s.Api.Documents.{ObjectContent, ListBucketResult, Response, listing}
use ferro_s.Api.Errors.{no_such_bucket, internal_error, to_response}
use ferro_s.Listing.Tree.{Node}
use ferro_s.Listing.Walk.{ListItem, content, prefix, Query, collect_entries}

pub record ListObjectsParams : Type 0 where
  pub prefix : Option Text
  pub delimiter : Option Text
  pub marker : Option Text
  pub max_keys : Option ℕ
  pub list_type : Option ℕ
  pub continuation_token : Option Text

-- The variables of the loop that emits the page.
pub record Page : Type 0 where
  pub contents : List ObjectContent
  pub common_prefixes : List Text
  pub is_truncated : Bool
  pub next_key : Option Text

abbrev pub page_count : Page → ℕ
page_count p = length p.contents + length p.common_prefixes

abbrev pub add_item : Text → ListItem → Page → Page
add_item key (content c) p = record p { contents = p.contents ++ (c ∷ []); next_key = some key }
add_item key (prefix t) p = record p {
  common_prefixes = p.common_prefixes ++ (t ∷ []);
  next_key = some key;
}

unfoldable pub emit_page : ℕ → List (Text × ListItem) → Page → Page
emit_page max_keys [] p = p
emit_page max_keys ((key, item) ∷ items) p =
    let rest = emit_page max_keys items (add_item key item p) in
    if leb max_keys (page_count p) then record p { is_truncated = true } else rest

abbrev pub empty_page : Page
empty_page = record { contents = []; common_prefixes = []; is_truncated = false; next_key = none }

-- `usize::saturating_add(1)`.
abbrev pub saturating_succ : ℕ → ℕ
saturating_succ n = min (n + 1) (u64_mod - 1)

-- `or_else`.
abbrev pub or_else {ℓ} : {A : Type ℓ} → Option A → Option A → Option A
or_else none b = b
or_else (some a) b = some a

abbrev pub is_two : Option ℕ → Bool
is_two none = false
is_two (some n) = n == 2

-- What the handler reads besides its request: the clock, chrono's formatting, a request id, the
-- bucket's directory tree, and whether the blocking task was joined.
pub record ListEnv : Type 0 where
  pub now : ℕ
  pub rfc3339 : ℕ → Text
  pub request_id : Text
  pub tree : Node
  pub joined : Bool

unfoldable pub list_query : ListEnv → ListObjectsParams → Query
list_query env params = record {
  prefix = unwrap_or params.prefix [];
  delimiter = params.delimiter;
  start_after = or_else params.continuation_token params.marker;
  limit = saturating_succ (unwrap_or params.max_keys 1000);
  now = env.now;
  rfc3339 = env.rfc3339;
}

unfoldable pub list_result : Text → ListObjectsParams → Page → ListBucketResult
list_result bucket params page =
    let is_v2 = is_two params.list_type in
    let next_token = if page.is_truncated then page.next_key else none in
    record {
      xmlns = codes "http://s3.amazonaws.com/doc/2006-03-01/";
      name = bucket;
      prefix = unwrap_or params.prefix [];
      marker = params.marker;
      next_marker = if is_v2 then none else next_token;
      max_keys = unwrap_or params.max_keys 1000;
      delimiter = params.delimiter;
      is_truncated = page.is_truncated;
      contents = page.contents;
      common_prefixes = page.common_prefixes;
      key_count = if is_v2 then some (page_count page) else none;
      continuation_token = params.continuation_token;
      next_continuation_token = if is_v2 then next_token else none;
    }

-- The joined result of the blocking walk.
unfoldable pub blocking_walk :
    ListEnv → ℕ → FilePath → ListObjectsParams → Option (List (Text × ListItem))
blocking_walk env fuel storage params =
    if env.joined then collect_entries (list_query env params) fuel storage env.tree else none

unfoldable pub list_objects :
    {C : Type 0} → ListEnv → ℕ → AppState C → Text → ListObjectsParams → Response
list_objects env fuel state bucket params = elim (map_get state.storage_map bucket) [
  | none ↦ to_response env.request_id no_such_bucket (some bucket)
  | some storage ↦ elim (blocking_walk env fuel storage params) [
    | none ↦ to_response env.request_id internal_error none
    | some items ↦ record {
      status = 200;
      headers = (codes "content-type", codes "application/xml") ∷ [];
      body =
          listing (
            list_result bucket params
              (emit_page (unwrap_or params.max_keys 1000) items empty_page));
    }
  ]
]
