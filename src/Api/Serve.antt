-- ===== src/Api/Serve.antt =====
-- A request through the API: the route, the guards that it depends on, the payload and the handler,
-- over one Redis adapter for the limiter, the cache and the probe. Finding the route, running the
-- dependencies before the handler and refusing a payload is FastAPI's part; whether it validates the
-- payload before or after the dependencies is a parameter.
pub mod Guarded
pub mod Replies
pub mod Answers
use nexus_ai_platform.Prelude.{
  ℕ, suc, String, Bool, true, false, not, ◌&&◌, Option, none, some, List, [], ◌∷◌, Dict,
  if◌then◌else◌,
}
use nexus_ai_platform.Errors.{Exception, Result, ok, raise}
use nexus_ai_platform.Floats.{Floats}
use nexus_ai_platform.Codec.{Codec}
use nexus_ai_platform.Settings.{Settings}
use nexus_ai_platform.Cache.Redis.{Redis}
use nexus_ai_platform.Cache.RedisCache.Counts.{counters}
use nexus_ai_platform.Cache.RedisCache.Texts.{text_store}
use nexus_ai_platform.Cache.RateLimiter.{RateLimiter}
use nexus_ai_platform.Cache.SemanticCache.{SemanticCache}
use nexus_ai_platform.Llm.Gateway.{World, Gateway, GatewayState}
use nexus_ai_platform.Api.Auth.{Secrets, require_api_key}
use nexus_ai_platform.Api.Dependencies.{enforce_rate_limit}
use nexus_ai_platform.Api.Generate
use nexus_ai_platform.Api.Generate.{GenerateResponse, accepts_prompt}
use nexus_ai_platform.Api.Health
use nexus_ai_platform.Api.Health.{JsonResponse, CacheAdapter}
use nexus_ai_platform.Api.Routes.{
  Handler, generate, health, readiness, metrics, rate_limit_check, Route, api_router, find_in,
}

-- What a request carries: the header `X-API-Key`, and the prompt of its payload.
pub record Call : Type 0 where
  pub method : String
  pub path : String
  pub x_api_key : Option String
  pub prompt : String

pub data Reply : Type 0 where
  generated : GenerateResponse → Reply
  told : Dict String → Reply
  probed : JsonResponse → Reply
  exposition : Reply

-- What becomes of a request: no route with that method and path; a payload that is not valid; an exception of a guard; an
-- answer of the handler, or an exception of it.
pub data Answer : Type 0 where
  not_found unprocessable : Answer
  refused failed : Exception → Answer
  answered : Reply → Answer

-- What the application has.
pub record Parts (F : Type 0) : Type 0 where
  pub rate_limiter : Option RateLimiter
  pub semantic_cache : SemanticCache
  pub llm_gateway : Gateway F
  pub cache_adapter : CacheAdapter

module _ (secrets : Secrets) (codec : Codec) (redis : Redis) (fl : Floats) (world : World fl)
    (describe : Exception → String × String) (validates_first : Bool) where
  open fl use {F}

  abbrev pub Served : Type 0
  Served = Answer × redis.State × GatewayState F world.State

  -- `Depends(enforce_rate_limit)`, whose argument `caller_id` is `Depends(require_api_key)`.
  abbrev pub limit_caller : Parts F → Result String → redis.State → Result (Unit {0}) × redis.State
  limit_caller app (raise e) c = (raise e, c)
  limit_caller app (ok caller_id) c =
      enforce_rate_limit (counters redis) app.rate_limiter caller_id c

  unfoldable pub guard :
      Settings F → Parts F → Option String → redis.State → Result (Unit {0}) × redis.State
  guard settings app x_api_key c = limit_caller app (require_api_key secrets settings x_api_key) c

  abbrev pub generated_or_failed : Result GenerateResponse → Answer
  generated_or_failed (ok response) = answered (generated response)
  generated_or_failed (raise e) = failed e

  abbrev pub as_answer :
      Option (Result GenerateResponse × redis.State × GatewayState F world.State) → Option Served
  as_answer none = none
  as_answer (some (r, c, s)) = some (generated_or_failed r, c, s)

  unfoldable pub handle :
      Parts F → Handler → String → redis.State → GatewayState F world.State → Option Served
  handle app generate prompt c s =
      if accepts_prompt prompt
      then as_answer (
          Generate.generate codec (text_store redis) fl world app.semantic_cache app.llm_gateway
            prompt c s)
      else some (unprocessable, c, s)
  handle app health prompt c s = some (answered (told Health.health), c, s)
  handle app readiness prompt c s =
      let (r, c') = Health.readiness redis describe app.cache_adapter c in
      some (answered (probed r), c', s)
  handle app metrics prompt c s = some (answered exposition, c, s)
  handle app rate_limit_check prompt c s = some (answered (told (("status", "allowed") ∷ [])), c, s)

  -- The handler, if the guards have let the request pass.
  abbrev pub after_guard :
      Parts F
      → Handler
      → String
      → GatewayState F world.State
      → Result (Unit {0}) × redis.State
      → Option Served
  after_guard app handler prompt s (raise e, c) = some (refused e, c, s)
  after_guard app handler prompt s (ok _, c) = handle app handler prompt c s

  -- Does the payload fail before the guards run? Only `generate` has one.
  abbrev pub fails_first : Handler → String → Bool
  fails_first generate prompt = validates_first && not (accepts_prompt prompt)
  fails_first _ prompt = false

  abbrev pub run_route :
      Settings F
      → Parts F
      → Call
      → redis.State
      → GatewayState F world.State
      → Option Route
      → Option Served
  run_route settings app call c s none = some (not_found, c, s)
  run_route settings app call c s (some route) =
      if fails_first route.handler call.prompt
      then some (unprocessable, c, s)
      else if route.guarded
      then after_guard app route.handler call.prompt s (guard settings app call.x_api_key c)
      else handle app route.handler call.prompt c s

  unfoldable pub serve :
      Settings F → Parts F → Call → redis.State → GatewayState F world.State → Option Served
  serve settings app call c s =
      run_route settings app call c s (find_in api_router call.method call.path)

  -- A request, or anything that happens outside this worker to the Redis and to the world.
  pub data Event : Type 0 where
    calls : Call → Event
    changes : (redis.State → redis.State) → (world.State → world.State) → Event

  abbrev pub Run : Type 0
  Run = List Answer × redis.State × GatewayState F world.State

  abbrev pub requests_of : List Event → ℕ
  requests_of [] = 0
  requests_of (calls call ∷ events) = suc (requests_of events)
  requests_of (changes f g ∷ events) = requests_of events

  abbrev pub then_answer : Answer → Option Run → Option Run
  then_answer a none = none
  then_answer a (some (answers, c, s)) = some (a ∷ answers, c, s)

  abbrev pub then_serve :
      Option Served → (redis.State → GatewayState F world.State → Option Run) → Option Run
  then_serve none rest = none
  then_serve (some (a, c, s)) rest = then_answer a (rest c s)

  -- The answers to the requests, in their order.
  abbrev pub serve_all :
      Settings F → Parts F → List Event → redis.State → GatewayState F world.State → Option Run
  serve_all settings app [] c s = some ([], c, s)
  serve_all settings app (calls call ∷ events) c s =
      then_serve (serve settings app call c s) (serve_all settings app events)
  serve_all settings app (changes f g ∷ events) c s =
      serve_all settings app events (f c) (record s { world = g s.world })
