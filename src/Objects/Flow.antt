-- ===== src/Objects/Flow.antt =====
-- Handlers as actions on the server's world, with early returns.
use ferro_s.Base.{ℕ, Option, none, some, Bool, true, false}
use ferro_s.Api.Documents.{Response}

pub record World (S C : Type 0) : Type 0 where
  pub disk : S
  pub cache : C
  -- The counter behind the names of temporary files.
  pub counter : ℕ

pub data Flow (A : Type 0) : Type 0 where
  reply : Response → Flow A
  next : A → Flow A

abbrev pub Handler : Type 0 → Type 0 → Type 0
Handler W A = W → Flow A × W

infixl 5 ◌>>=◌ ◌>>◌
unfoldable pub ◌>>=◌ : {W A B : Type 0} → Handler W A → (A → Handler W B) → Handler W B
◌>>=◌ m f w = let (r, w') = m w in elim r [ reply resp ↦ (reply resp, w') | next a ↦ f a w' ]

abbrev pub ◌>>◌ : {W B : Type 0} → Handler W (Unit {0}) → Handler W B → Handler W B
m >> k = m >>= λ _. k

abbrev pub answer : {W A : Type 0} → Response → Handler W A
answer resp w = (reply resp, w)

-- `match o { Some(a) => a, None => return resp }`.
abbrev pub some_or : {W A : Type 0} → Option A → Response → Handler W A
some_or none resp w = (reply resp, w)
some_or (some a) resp w = (next a, w)

-- `if !b { return resp }`.
abbrev pub require : {W : Type 0} → Bool → Response → Handler W (Unit {0})
require true resp w = (next tt, w)
require false resp w = (reply resp, w)

-- The response of a handler that always returns one.
abbrev pub response_of : Flow Response → Response
response_of (reply resp) = resp
response_of (next resp) = resp

abbrev pub run : {W : Type 0} → Handler W Response → W → Response × W
run m w = let (r, w') = m w in (response_of r, w')
