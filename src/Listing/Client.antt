-- ===== src/Listing/Client.antt =====
-- A client that lists a bucket page by page, by the token or the marker that `list_objects` of
-- src/handlers/list.rs answers for the next page.
pub mod Complete
pub mod Cuts
mod Tests
use ferro_s.Base.{ℕ, zero, suc, List, ◌++◌, Option, none, some, Text, if◌then◌else◌}
use ferro_s.State.{AppState}
use ferro_s.Api.Documents.{ObjectContent, ListBucketResult, Body, listing}
use ferro_s.Listing.Page.{ListObjectsParams, ListEnv, or_else, is_two, list_objects}

abbrev pub result_of : Body → Option ListBucketResult
result_of (listing r) = some r
result_of _ = none

-- What the next page is asked for with: the second version of the call has a token of its own.
abbrev pub next_of : ListBucketResult → Option Text
next_of r = or_else r.next_continuation_token r.next_marker

abbrev pub next_params : ListObjectsParams → Text → ListObjectsParams
next_params params t = record params {
  continuation_token = if is_two params.list_type then some t else params.continuation_token;
  marker = if is_two params.list_type then params.marker else some t;
}

-- All that a client is shown, or nothing where a page is no listing or the rounds run out.
abbrev pub Shown : Type 0
Shown = List ObjectContent × List Text

abbrev pub and_then : Shown → Option Shown → Option Shown
and_then page none = none
and_then (contents, prefixes) (some (more, groups)) = some (contents ++ more, prefixes ++ groups)

-- A page, and what follows it where it names a next one.
abbrev pub goes_on : Shown → (Text → Option Shown) → Option Text → Option Shown
goes_on page following none = some page
goes_on page following (some t) = and_then page (following t)

module _ {C : Type 0} (env : ListEnv) (fuel : ℕ) (state : AppState C) (bucket : Text) where
  unfoldable pub follow : ℕ → ListObjectsParams → Option Shown
  follow zero params = none
  follow (suc rounds) params = elim (result_of (list_objects env fuel state bucket params).body) [
    | none ↦ none
    | some r ↦
        goes_on (r.contents, r.common_prefixes) (λ t. follow rounds (next_params params t))
          (next_of r)
  ]
