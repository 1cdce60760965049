-- ===== src/Router.antt =====
-- `timeout_middleware` of src/lib.rs, around a handler that answers in time or not.
use ferro_s.Base.{ℕ, Option, none, some, Bool, Text, codes, text_eq, if◌then◌else◌, ◌||◌, ◌==◌}
use ferro_s.State.{Config}
use ferro_s.Api.Documents.{Response}
use ferro_s.Api.Errors.{request_timeout, to_response}

-- `matches!(method, PUT | POST)`.
abbrev pub has_body : Text → Bool
has_body method = text_eq method (codes "PUT") || text_eq method (codes "POST")

-- `within n` is the handler's response where it comes within n seconds, and `response` the one that
-- it gives in the end.
unfoldable pub timeout_middleware :
    Config → Text → Text → (ℕ → Option Response) → Response → Response
timeout_middleware config request_id method within response =
    let seconds = config.request_timeout_secs in
    if seconds == 0 || has_body method then response else elim (within seconds) [
      | some answered ↦ answered
      | none ↦ to_response request_id request_timeout none
    ]
