-- ===== src/Api/Serve/Guarded.antt =====
-- Nothing is generated for a request that the guards have not let pass.
use mathlib.Core.Option.{some-injective}
use nexus_ai_platform.Prelude.{
  String, Bool, true, false, ◌&&◌, Option, some, Option-cases, List, [], ◌∷◌, ◌≡◌, refl, sym, ◌∙◌,
  subst, ◌⊎◌, inl, inr, arith, All, str_eq, eq_iff, Bool-cases,
}
use nexus_ai_platform.Prelude.Int.{pos, ◌≤ℤ◌}
use nexus_ai_platform.Errors.{Exception, Result, ok, raise, Result-cases}
use nexus_ai_platform.Floats.{Floats}
use nexus_ai_platform.Codec.{Codec}
use nexus_ai_platform.Settings.{Settings}
use nexus_ai_platform.Cache.Redis.{Redis}
use nexus_ai_platform.Cache.RedisCache.Counts.{counters}
use nexus_ai_platform.Cache.RateLimiter.{RateLimiter, RateLimitResult, check}
use nexus_ai_platform.Llm.Gateway.{World, GatewayState}
use nexus_ai_platform.Api.Auth.{Secrets, require_api_key, IsAuthentic, require_api_key_iff}
use nexus_ai_platform.Api.Dependencies.{
  enforce_rate_limit, get_rate_limiter, IsEnforced, passed, enforce_rate_limit-IsEnforced,
}
use nexus_ai_platform.Api.Generate.{accepts_prompt}
use nexus_ai_platform.Api.Routes.{
  Handler, generate, health, readiness, metrics, rate_limit_check, Route, api_router,
  generate_router, health_router, metrics_router, rate_limit_router, find_in,
}
use nexus_ai_platform.Api.Serve.{
  Call, Answer, not_found, unprocessable, refused, answered, generated, Parts, guard, handle,
  after_guard, run_route, fails_first, serve,
}

-- The routes that serve a text of a provider or the caller's own limit stand behind the guards.
abbrev pub needs_guard : Handler → Bool
needs_guard generate = true
needs_guard rate_limit_check = true
needs_guard _ = false

abbrev pub is_generate : Handler → Bool
is_generate generate = true
is_generate _ = false

abbrev IsGuarded : Route → Type 0
IsGuarded route =
    (route.guarded ≡ needs_guard route.handler)
    × (is_generate route.handler ≡ true → (route.method ≡ "POST") × (route.path ≡ "/v1/generate"))

pub find_in-All :
    (P : Route → Type 0) (routes : List Route) (method path : String) (route : Route)
    → All P routes
    → find_in routes method path ≡ some route
    → P route
find_in-All P [] method path route h e = cc
find_in-All P (r ∷ routes) method path route h e =
    elim (Bool-cases (str_eq r.method method && str_eq r.path path)) [
      | inl here ↦ subst P (some-injective r route (rw here at e)) h.0
      | inr there ↦ find_in-All P routes method path route h.1 (rw there at e)
    ]

both : (a b : Bool) → (a && b) ≡ true → (a ≡ true) × (b ≡ true)
both a b h = ground arith

pub find_in-inv :
    (routes : List Route) (method path : String) (route : Route)
    → find_in routes method path ≡ some route
    → (route.method ≡ method) × (route.path ≡ path)
find_in-inv [] method path route e = cc
find_in-inv (r ∷ routes) method path route e =
    elim (Bool-cases (str_eq r.method method && str_eq r.path path)) [
      | inl here ↦
          let (m, p) = both (str_eq r.method method) (str_eq r.path path) here in
          subst (λ q. (q.method ≡ method) × (q.path ≡ path)) (some-injective r route (rw here at e))
            ((eq_iff r.method method).0 m, (eq_iff r.path path).0 p)
      | inr there ↦ find_in-inv routes method path route (rw there at e)
    ]

api_router-IsGuarded : All IsGuarded api_router
unfolding api_router generate_router health_router metrics_router rate_limit_router
api_router-IsGuarded = (
  (refl, λ _. (refl, refl)),
  ((refl, λ e. cc), ((refl, λ e. cc), ((refl, λ e. cc), ((refl, λ e. cc), tt)))),
)

-- Does the answer hold a text of a provider, new or kept?
abbrev pub has_content : Answer → Bool
has_content (answered (generated response)) = true
has_content _ = false

module _ (secrets : Secrets) (codec : Codec) (redis : Redis) (fl : Floats) (world : World fl)
    (describe : Exception → String × String) (validates_first : Bool) (settings : Settings fl.F)
    (app : Parts fl.F) where
  open fl use {F}

  -- The caller is known, and its checks were within both limits.
  pub data IsAdmitted (call : Call) (c : redis.State) : Type 0 where
    admitted :
        (caller : String) (limiter : RateLimiter) (result : RateLimitResult)
        → IsAuthentic secrets settings.api_key call.x_api_key caller
        → app.rate_limiter ≡ some limiter
        → (check (counters redis) limiter caller c).0 ≡ ok result
        → pos result.minute_count ≤ℤ limiter.minute_limit
        → pos result.hour_count ≤ℤ limiter.hour_limit
        → IsAdmitted call c

  enforced :
      (limiter : RateLimiter) (r : Result RateLimitResult) (u : Result (Unit {0}))
      → IsEnforced limiter r u
      → u ≡ ok tt
      → (result : RateLimitResult) × (r ≡ ok result)
        × (pos result.minute_count ≤ℤ limiter.minute_limit)
        × (pos result.hour_count ≤ℤ limiter.hour_limit)
  enforced limiter _ _ (IsEnforced.lost e) h = absurd (cc h)
  enforced limiter _ _ (passed result minutes hours) h = (result, refl, minutes, hours)
  enforced limiter _ _ (IsEnforced.refused result seconds headers over told_when low high) h =
      absurd (cc h)

  guard-IsAdmitted :
      (call : Call) (c : redis.State)
      → (guard secrets codec redis fl world describe validates_first settings app call.x_api_key
          c).0
        ≡ ok tt
      → IsAdmitted call c
  unfolding guard enforce_rate_limit get_rate_limiter
  guard-IsAdmitted call c e =
      elim (Result-cases (require_api_key secrets settings call.x_api_key)) [
        | inr (x, unknown) ↦ absurd (cc (rw unknown at e))
        | inl (caller, known) ↦ elim (Option-cases app.rate_limiter) [
          | inl nothing ↦ absurd (cc (rw (known, nothing) at e))
          | inr (limiter, set_up) ↦
              let (result, counted, minutes, hours) =
                enforced limiter _ _
                  (enforce_rate_limit-IsEnforced (counters redis) limiter caller c).0
                  (rw (known, set_up) at e) in
              admitted caller limiter result
                ((require_api_key_iff secrets settings call.x_api_key caller).0 known) set_up
                counted minutes hours
        ]
      ]

  abbrev Served : Type 0
  Served = Answer × redis.State × GatewayState F world.State

  -- The gateway is as it was, and the answer has no content.
  abbrev pub IsIdle : GatewayState F world.State → Served → Type 0
  IsIdle s x = (x.2 ≡ s) × (has_content x.0 ≡ false)

  abbrev run : Handler → String → redis.State → GatewayState F world.State → Option Served
  run handler prompt c s =
      handle secrets codec redis fl world describe validates_first app handler prompt c s

  idle : (s : GatewayState F world.State) (x y : Served) → IsIdle s x → some x ≡ some y → IsIdle s y
  idle s x y h e = subst (IsIdle s) (some-injective x y e) h

  -- What a handler may do.
  handle-cases :
      (handler : Handler) (prompt : String) (c : redis.State) (s : GatewayState F world.State)
      (x : Served)
      → run handler prompt c s ≡ some x
      → IsIdle s x ⊎ ((is_generate handler ≡ true) × (accepts_prompt prompt ≡ true))
  unfolding handle
  handle-cases generate prompt c s x e = elim (Bool-cases (accepts_prompt prompt)) [
    | inl accepted ↦ inr (refl, accepted)
    | inr not_accepted ↦ inl (idle s (unprocessable, c, s) x (refl, refl) (rw not_accepted at e))
  ]
  handle-cases health prompt c s x e = inl (idle s (_, c, s) x (refl, refl) e)
  handle-cases readiness prompt c s x e = inl (idle s (_, _, s) x (refl, refl) e)
  handle-cases metrics prompt c s x e = inl (idle s (_, c, s) x (refl, refl) e)
  handle-cases rate_limit_check prompt c s x e = inl (idle s (_, c, s) x (refl, refl) e)

  guarded-cases :
      (call : Call) (c : redis.State) (s : GatewayState F world.State) (handler : Handler)
      (x : Served) (r : Result (Unit {0}) × redis.State)
      → (r.0 ≡ ok tt → IsAdmitted call c)
      → after_guard secrets codec redis fl world describe validates_first app handler call.prompt s
          r
        ≡ some x
      → IsIdle s x
        ⊎ (IsAdmitted call c × (is_generate handler ≡ true) × (accepts_prompt call.prompt ≡ true))
  guarded-cases call c s handler x (raise e, c') pass h =
      inl (idle s (refused e, c', s) x (refl, refl) h)
  guarded-cases call c s handler x (ok tt, c') pass h =
      elim (handle-cases handler call.prompt c' s x h) [
        | inl still ↦ inl still
        | inr (kind, accepted) ↦ inr (pass refl, kind, accepted)
      ]

  route-cases :
      (call : Call) (c : redis.State) (s : GatewayState F world.State) (x : Served) (route : Route)
      → route.guarded ≡ needs_guard route.handler
      → run_route secrets codec redis fl world describe validates_first settings app call c s
          (some route)
        ≡ some x
      → IsIdle s x
        ⊎ (IsAdmitted call c
            × (is_generate route.handler ≡ true)
            × (accepts_prompt call.prompt ≡ true))
  route-cases call c s x route needs e = elim (Bool-cases (first route.handler)) [
    | inl early ↦ inl (idle s (unprocessable, c, s) x (refl, refl) (rw early at e))
    | inr later ↦ elim (Bool-cases route.guarded) [
      | inl guarded ↦
          guarded-cases call c s route.handler x
            (guard secrets codec redis fl world describe validates_first settings app call.x_api_key
              c)
            (guard-IsAdmitted call c) (rw (later, guarded) at e)
      | inr free ↦ elim (handle-cases route.handler call.prompt c s x (rw (later, free) at e)) [
        | inl still ↦ inl still
        | inr (kind, _) ↦ absurd (needed route.handler kind (sym needs ∙ free))
      ]
    ]
  ]
    where
      first : Handler → Bool
      first handler =
          fails_first secrets codec redis fl world describe validates_first handler call.prompt

      needed : (handler : Handler) → is_generate handler ≡ true → needs_guard handler ≡ false → ⊥
      needed generate k h = cc
      needed health k h = cc
      needed readiness k h = cc
      needed metrics k h = cc
      needed rate_limit_check k h = cc

  -- Whatever a request is, what the application has and what the Redis does: the gateway is left
  -- alone and no content is given, unless the request is a POST to /v1/generate with a prompt of
  -- accepted length, by a caller who sent the configured API key and whose count of requests, this
  -- one included, was within both limits.
  pub serve-IsAdmitted :
      (call : Call) (c c' : redis.State) (s s' : GatewayState F world.State) (a : Answer)
      → serve secrets codec redis fl world describe validates_first settings app call c s
        ≡ some (a, c', s')
      → ((s' ≡ s) × (has_content a ≡ false))
        ⊎ (IsAdmitted call c
            × (call.method ≡ "POST")
            × (call.path ≡ "/v1/generate")
            × (accepts_prompt call.prompt ≡ true))
  unfolding serve
  serve-IsAdmitted call c c' s s' a e =
      elim (Option-cases (find_in api_router call.method call.path)) [
        | inl nothing ↦ inl (idle s (not_found, c, s) (a, c', s') (refl, refl) (rw nothing at e))
        | inr (route, is_found) ↦
            let (guarded, place) =
              find_in-All IsGuarded api_router call.method call.path route api_router-IsGuarded
                is_found in
            let (method, path) = find_in-inv api_router call.method call.path route is_found in
            elim (route-cases call c s (a, c', s') route guarded (rw is_found at e)) [
              | inl still ↦ inl still
              | inr (may, kind, accepted) ↦
                  let (post, at_generate) = place kind in
                  inr (may, sym method ∙ post, sym path ∙ at_generate, accepted)
            ]
      ]
