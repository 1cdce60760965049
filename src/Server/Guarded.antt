-- ===== src/Server/Guarded.antt =====
-- The router of src/lib.rs against `auth_middleware`: what a request that proves nothing can do.
use ferro_s.Base.{
  ℕ, ◌≡◌, refl, sym, ap, ◌∙◌, ◌⊎◌, inl, inr, none, some, Bool, true, false, ◌||◌, Text, Bool-cases,
  if◌then◌else◌, ◌==◌,
}
use mathlib.Core.Path.{subst}
use ferro_s.State.{Config, AppState, CacheOps, AuthConfig}
use ferro_s.Api.Documents.{Response}
use ferro_s.Api.Errors.{access_denied, request_timeout, to_response}
use ferro_s.Objects.Disk.{DiskOps}
use ferro_s.Objects.Env.{Env}
use ferro_s.Objects.Flow.{World}
use ferro_s.Auth.Crypto.{Crypto}
use ferro_s.Auth.Middleware.{Verdict, run_next, denied, auth_middleware}
use ferro_s.Auth.Middleware.Sound.{Authenticated, auth_middleware-Authenticated}
use ferro_s.Router.{has_body, timeout_middleware}
use ferro_s.Server.{Call, Axum, Around, auth_request, auth_layer, dropped, gives_up, api_router}

Verdict-cases : (v : Verdict) → (v ≡ run_next) ⊎ (v ≡ denied)
Verdict-cases run_next = inl refl
Verdict-cases denied = inr refl

-- The outer layer answers what the inner one does, or that time is up.
timeout_middleware-cases :
    (config : Config) (rid method : Text) (late : ℕ → Bool) (response : Response)
    → (timeout_middleware config rid method (λ n. if late n then none else some response) response
        ≡ response)
      ⊎ (timeout_middleware config rid method (λ n. if late n then none else some response) response
          ≡ to_response rid request_timeout none)
unfolding timeout_middleware
timeout_middleware-cases config rid method late response =
    elim (Bool-cases (config.request_timeout_secs == 0 || has_body method)) [
      | inl y ↦ rw y (inl refl)
      | inr n ↦ elim (Bool-cases (late config.request_timeout_secs)) [
        | inl y ↦ rw (n, y) (inr refl)
        | inr o ↦ rw (n, o) (inl refl)
      ]
    ]

module _ {S C : Type 0} (disk : DiskOps S) (cache : CacheOps C) (env : Env) (state : AppState C)
    (c : Crypto) (axum : Axum) (around : Around S C) (call : Call) (w : World S C) where
  abbrev refusal : Response
  refusal = to_response env.request_id access_denied none

  abbrev pub answered : Response × World S C
  answered = api_router disk cache env state c axum around call w

  auth_layer-denied :
      auth_middleware c state.config.auth around.auth_now (auth_request call) ≡ denied
      → auth_layer disk cache env state c axum around call w ≡ (refusal, w)
  unfolding auth_layer
  auth_layer-denied e = rw (auth_layer, e) refl

  dropped-denied :
      auth_middleware c state.config.auth around.auth_now (auth_request call) ≡ denied
      → dropped disk cache env state c axum around call w ≡ w
  unfolding dropped
  dropped-denied e = rw (dropped, e) refl

  same_world : (b : Bool) (u v : World S C) → u ≡ w → v ≡ w → (if b then u else v) ≡ w
  same_world true u v h k = h
  same_world false u v h k = k

  -- A request that the middleware denies changes nothing, and is answered so, or with a timeout.
  pub api_router-denied :
      auth_middleware c state.config.auth around.auth_now (auth_request call) ≡ denied
      → (answered.1 ≡ w)
        × ((answered.0 ≡ refusal) ⊎ (answered.0 ≡ to_response env.request_id request_timeout none))
  unfolding api_router
  api_router-denied e = (
    same_world (gives_up disk cache env state c axum around call) _ _ (dropped-denied e)
        (ap (λ (p : Response × World S C). p.1) (auth_layer-denied e)),
    subst
        (λ (r : Response).
          (timeout_middleware state.config env.request_id call.method
              (λ n. if around.late n then none else some r) r
            ≡ refusal)
          ⊎ (timeout_middleware state.config env.request_id call.method
                (λ n. if around.late n then none else some r) r
              ≡ to_response env.request_id request_timeout none))
        (sym (ap (λ (p : Response × World S C). p.0) (auth_layer-denied e)))
        (timeout_middleware-cases state.config env.request_id call.method around.late refusal),
  )

  -- With credentials configured, whatever the route, a request that does not prove itself (by a
  -- signature that verifies, by the configured user and password, or by a presigned URL in its
  -- lifetime) leaves the disk, the cache and the counter of temporary names as they were, and is
  -- answered with AccessDenied or, where the timeout strikes first, with RequestTimeout.
  pub api_router-Authenticated :
      (cfg : AuthConfig)
      → state.config.auth ≡ some cfg
      → Authenticated c cfg around.auth_now (auth_request call)
        ⊎ ((answered.1 ≡ w)
            × ((answered.0 ≡ to_response env.request_id access_denied none)
                ⊎ (answered.0 ≡ to_response env.request_id request_timeout none)))
  api_router-Authenticated cfg configured =
      elim (Verdict-cases
        (auth_middleware c state.config.auth around.auth_now (auth_request call))) [
          | inl run ↦ inl (
              auth_middleware-Authenticated c cfg around.auth_now (auth_request call) (
                ap (λ a. auth_middleware c a around.auth_now (auth_request call)) (sym configured)
                ∙ run))
          | inr refused ↦ inr (api_router-denied refused)
        ]
