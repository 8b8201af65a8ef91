-- ===== src/Api/Serve/Replies.antt =====
-- What the answer to a request may be, said of the endpoints and of the services behind them.
use nexus_ai_platform.Prelude.{
  String, Bool, true, false, none, some, List, [], ◌∷◌, ◌≡◌, refl, subst, All,
}
use nexus_ai_platform.Errors.{Exception, ok, raise}
use nexus_ai_platform.Floats.{Floats}
use nexus_ai_platform.Codec.{Codec}
use nexus_ai_platform.Settings.{Settings}
use nexus_ai_platform.Cache.Redis.{Redis}
use nexus_ai_platform.Cache.RedisCache.Texts.{text_store}
use nexus_ai_platform.Llm.Gateway.{World, GatewayState}
use nexus_ai_platform.Api.Auth.{Secrets}
use nexus_ai_platform.Api.Generate.{GenerateResponse, accepts_prompt}
use nexus_ai_platform.Api.Generate.Served.{IsServed}
use nexus_ai_platform.Api.Health
use nexus_ai_platform.Api.Health.{JsonResponse}
use nexus_ai_platform.Api.Routes.{
  Handler, generate, health, readiness, metrics, rate_limit_check, Route, api_router,
  generate_router, health_router, metrics_router, rate_limit_router, find_in,
}
use nexus_ai_platform.Api.Serve.{
  Call, Answer, not_found, unprocessable, refused, failed, answered, generated, told, probed,
  exposition, Parts, guard, Event, calls, changes,
}
use nexus_ai_platform.Api.Serve.Guarded.{needs_guard, find_in-All, find_in-inv}

-- The endpoints of the API.
pub data IsEndpoint (method path : String) : Handler → Type 0 where
  generates : method ≡ "POST" → path ≡ "/v1/generate" → IsEndpoint method path generate
  lives : method ≡ "GET" → path ≡ "/v1/health" → IsEndpoint method path health
  is_ready : method ≡ "GET" → path ≡ "/v1/ready" → IsEndpoint method path readiness
  measures : method ≡ "GET" → path ≡ "/v1/metrics" → IsEndpoint method path metrics
  checks : method ≡ "GET" → path ≡ "/v1/rate-limit/check" → IsEndpoint method path rate_limit_check

abbrev IsPlaced : Route → Type 0
IsPlaced route =
    IsEndpoint route.method route.path route.handler × (route.guarded ≡ needs_guard route.handler)

api_router-IsPlaced : All IsPlaced api_router
unfolding api_router generate_router health_router metrics_router rate_limit_router
api_router-IsPlaced = (
  (generates refl refl, refl),
  (
    (lives refl refl, refl),
    ((is_ready refl refl, refl), ((measures refl refl, refl), ((checks refl refl, refl), tt))),
  ),
)

-- A route that is found is the endpoint's.
pub route-IsEndpoint :
    (method path : String) (route : Route)
    → find_in api_router method path ≡ some route
    → IsEndpoint method path route.handler × (route.guarded ≡ needs_guard route.handler)
route-IsEndpoint method path route e =
    let (place, guarded) =
      find_in-All IsPlaced api_router method path route api_router-IsPlaced e in
    let (m, p) = find_in-inv api_router method path route e in
    (
      subst (λ x. IsEndpoint x path route.handler) m
          (subst (λ x. IsEndpoint route.method x route.handler) p place),
      guarded,
    )

-- Where no route is found, there is no endpoint.
pub no_endpoint :
    (method path : String) (handler : Handler)
    → find_in api_router method path ≡ none
    → IsEndpoint method path handler
    → ⊥
unfolding api_router generate_router health_router metrics_router rate_limit_router
no_endpoint method path _ e (generates m p) = cc (rw (m, p) at e)
no_endpoint method path _ e (lives m p) = cc (rw (m, p) at e)
no_endpoint method path _ e (is_ready m p) = cc (rw (m, p) at e)
no_endpoint method path _ e (measures m p) = cc (rw (m, p) at e)
no_endpoint method path _ e (checks m p) = cc (rw (m, p) at e)

module _ (secrets : Secrets) (codec : Codec) (redis : Redis) (fl : Floats) (world : World fl)
    (describe : Exception → String × String) (validates_first : Bool) (settings : Settings fl.F)
    (app : Parts fl.F) where
  open fl use {F}

  abbrev pub Served : Type 0
  Served = Answer × redis.State × GatewayState F world.State

  -- What a handler answers: `generate` refuses a prompt of another length, and else answers with what
  -- the cache and the gateway serve, or fails with the gateway's exception, and only with it; the
  -- others answer always.
  pub data IsReplied (prompt : String) (c : redis.State) (s : GatewayState F world.State)
      : Handler → Served → Type 0 where
    declined : accepts_prompt prompt ≡ false → IsReplied prompt c s generate (unprocessable, c, s)
    served :
        (response : GenerateResponse) (c' : redis.State) (s' : GatewayState F world.State)
        → accepts_prompt prompt ≡ true
        → IsServed codec
            (text_store redis)
            fl
            world
            app.semantic_cache
            app.llm_gateway
            prompt
            c
            s
            (ok response, c', s')
        → IsReplied prompt c s generate (answered (generated response), c', s')
    not_served :
        (e : Exception) (c' : redis.State) (s' : GatewayState F world.State)
        → accepts_prompt prompt ≡ true
        → IsServed codec
            (text_store redis)
            fl
            world
            app.semantic_cache
            app.llm_gateway
            prompt
            c
            s
            (raise e, c', s')
        → IsReplied prompt c s generate (failed e, c', s')
    alive : IsReplied prompt c s health (answered (told (("status", "ok") ∷ [])), c, s)
    probe :
        (r : JsonResponse) (c' : redis.State)
        → Health.readiness redis describe app.cache_adapter c ≡ (r, c')
        → IsReplied prompt c s readiness (answered (probed r), c', s)
    exposed : IsReplied prompt c s metrics (answered exposition, c, s)
    allowed :
        IsReplied prompt c s rate_limit_check (answered (told (("status", "allowed") ∷ [])), c, s)

  -- What a request is answered: nothing is found exactly off the endpoints; the guards refuse only
  -- where they stand, and with their own exception; and else the handler answers.
  pub data IsAnswered (call : Call) (c : redis.State) (s : GatewayState F world.State)
      : Served → Type 0 where
    unknown :
        ((handler : Handler) → IsEndpoint call.method call.path handler → ⊥)
        → IsAnswered call c s (not_found, c, s)
    invalid :
        IsEndpoint call.method call.path generate
        → accepts_prompt call.prompt ≡ false
        → IsAnswered call c s (unprocessable, c, s)
    turned_away :
        (handler : Handler) (e : Exception) (c' : redis.State)
        → IsEndpoint call.method call.path handler
        → needs_guard handler ≡ true
        → guard secrets codec redis fl world describe validates_first settings app call.x_api_key c
          ≡ (raise e, c')
        → IsAnswered call c s (refused e, c', s)
    let_in :
        (handler : Handler) (c' : redis.State) (x : Served)
        → IsEndpoint call.method call.path handler
        → needs_guard handler ≡ true
        → guard secrets codec redis fl world describe validates_first settings app call.x_api_key c
          ≡ (ok tt, c')
        → IsReplied call.prompt c' s handler x
        → IsAnswered call c s x
    open_to_all :
        (handler : Handler) (x : Served)
        → IsEndpoint call.method call.path handler
        → needs_guard handler ≡ false
        → IsReplied call.prompt c s handler x
        → IsAnswered call c s x

  -- The answers to all requests, each in the state that the events before it have left.
  pub data AreAnswered
      : List (Event secrets codec redis fl world describe validates_first)
        → redis.State
        → GatewayState F world.State
        → List Answer
        → redis.State
        → GatewayState F world.State
        → Type 0 where
    over : {c : redis.State} {s : GatewayState F world.State} → AreAnswered [] c s [] c s
    one_more :
        {events : List (Event secrets codec redis fl world describe validates_first)}
        {c c1 c2 : redis.State} {s s1 s2 : GatewayState F world.State} {answers : List Answer}
        (call : Call) (a : Answer)
        → IsAnswered call c s (a, c1, s1)
        → AreAnswered events c1 s1 answers c2 s2
        → AreAnswered (calls call ∷ events) c s (a ∷ answers) c2 s2
    changed :
        {events : List (Event secrets codec redis fl world describe validates_first)}
        {c c2 : redis.State} {s s2 : GatewayState F world.State} {answers : List Answer}
        (f : redis.State → redis.State) (g : world.State → world.State)
        → AreAnswered events (f c) (record s { world = g s.world }) answers c2 s2
        → AreAnswered (changes f g ∷ events) c s answers c2 s2
