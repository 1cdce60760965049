-- ===== src/Objects/Ensures.antt =====
-- Total correctness of handlers: what holds of the world after each outcome.
use ferro_s.Base.{◌≡◌, Bool, true, false, refl}
use ferro_s.Api.Documents.{Response}
use ferro_s.Objects.Flow.{Flow, reply, next, Handler, ◌>>=◌, ◌>>◌, require}

abbrev pub Outcome :
    {W A : Type 0} → (A → W → Type 0) → (Response → W → Type 0) → Flow A × W → Type 0
Outcome post early (reply resp, w) = early resp w
Outcome post early (next a, w) = post a w

-- From a world in `pre` the handler goes on in `post` or answers early in `early`.
pub record Ensures {W A : Type 0} (pre : W → Type 0) (m : Handler W A) (post : A → W → Type 0)
    (early : Response → W → Type 0) : Type 0 where
  pub at : (w : W) → pre w → Outcome post early (m w)

module _ {W A B : Type 0} {early : Response → W → Type 0} where
  bind_at :
      {mid : A → W → Type 0} {post : B → W → Type 0} (r : Flow A × W) (f : A → Handler W B)
      → Outcome mid early r
      → ((a : A) → Ensures (mid a) (f a) post early)
      → Outcome post early (elim r.0 [ reply resp ↦ (reply resp, r.1) | next a ↦ f a r.1 ])
  bind_at (reply resp, w) f h k = h
  bind_at (next a, w) f h k = (k a).at w h

  pub Ensures-bind :
      {pre : W → Type 0} {mid : A → W → Type 0} {post : B → W → Type 0} (m : Handler W A)
      (f : A → Handler W B)
      → Ensures pre m mid early
      → ((a : A) → Ensures (mid a) (f a) post early)
      → Ensures pre (m >>= f) post early
  unfolding ◌>>=◌
  Ensures-bind m f km kf = record { at = λ w h. bind_at (m w) f (km.at w h) kf }

module _ {W : Type 0} {pre : W → Type 0} {early : Response → W → Type 0} where
  -- Past `require b`, the test has passed.
  pub Ensures-require :
      {A : Type 0} {post : A → W → Type 0} (b : Bool) (resp : Response) (m : Handler W A)
      → ((w : W) → pre w → early resp w)
      → (b ≡ true → Ensures pre m post early)
      → Ensures pre (require b resp >> m) post early
  unfolding ◌>>=◌
  Ensures-require true resp m bad k = k refl
  Ensures-require false resp m bad k = record { at = bad }

  pub Ensures-pre :
      {A : Type 0} {post : A → W → Type 0} (weak : W → Type 0) (m : Handler W A)
      → ((w : W) → pre w → weak w)
      → Ensures weak m post early
      → Ensures pre m post early
  Ensures-pre weak m h k = record { at = λ w p. k.at w (h w p) }

  -- A fact about no world is kept beside the proof.
  pub Ensures-fact :
      {A F : Type 0} {post : A → W → Type 0} (m : Handler W A)
      → (F → Ensures pre m post early)
      → Ensures (λ w. pre w × F) m post early
  Ensures-fact m k = record { at = λ w p. (k p.1).at w p.0 }

  -- The rule of consequence, for both outcomes.
  pub Ensures-conseq :
      {A : Type 0} (strong : A → W → Type 0) {post : A → W → Type 0}
      (narrow : Response → W → Type 0) (m : Handler W A)
      → Ensures pre m strong narrow
      → ((a : A) (w : W) → strong a w → post a w)
      → ((resp : Response) (w : W) → narrow resp w → early resp w)
      → Ensures pre m post early
  Ensures-conseq {A} strong {post} narrow m k h g = record { at = λ w p. weaken (m w) (k.at w p) }
    where
      weaken : (r : Flow A × W) → Outcome strong narrow r → Outcome post early r
      weaken (reply resp, w) o = g resp w o
      weaken (next a, w) o = h a w o
