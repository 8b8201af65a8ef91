-- ===== src/Main/Serves.antt =====
-- An application that has started answers every request.
use mathlib.Core.Option.{some-injective}
use nexus_ai_platform.Prelude.{ℕ, String, Bool, some, List, ◌≡◌, sym, ◌∙◌, subst, length}
use nexus_ai_platform.Prelude.Int.{pos}
use nexus_ai_platform.Errors.{Exception, Result, ok, ok-injective}
use nexus_ai_platform.Floats.{Floats}
use nexus_ai_platform.Codec.{Codec}
use nexus_ai_platform.Settings.{Settings}
use nexus_ai_platform.Cache.Connections.{Client}
use nexus_ai_platform.Cache.Redis.{Redis}
use nexus_ai_platform.Llm.Gateway.{World, GatewayState}
use nexus_ai_platform.Llm.Gateway.Publishing.{IsReady}
use nexus_ai_platform.Api.Auth.{Secrets}
use nexus_ai_platform.Api.Health.{adapter}
use nexus_ai_platform.Api.Serve.{Answer, Parts, Event, requests_of, serve_all}
use nexus_ai_platform.Api.Serve.Replies.{AreAnswered}
use nexus_ai_platform.Api.Serve.Answers.{serve_all_answers}
use nexus_ai_platform.Main.{Application, startup}
use nexus_ai_platform.Main.Starts.{startup_succeeds, startup-IsStartable}

module _ (fl : Floats) (world : World fl) (codec : Codec)
    (connects : Client fl.F → Result (Unit {0})) where
  open fl use {F}

  -- The state of the application, as the routes read it.
  abbrev pub parts_of : Application F → Parts F
  parts_of app = record {
    rate_limiter = some app.rate_limiter;
    semantic_cache = app.semantic_cache;
    llm_gateway = app.llm_gateway;
    cache_adapter = adapter;
  }

  abbrev CanServe : Application F × GatewayState F world.State → Type 0
  CanServe x =
      IsReady fl world x.0.llm_gateway x.1.router
      × ((n : ℕ) × (x.0.llm_gateway.max_retries ≡ pos n))

  startup-CanServe :
      (settings : Settings F) (w : world.State) {app : Application F}
      {s : GatewayState F world.State}
      → startup fl world codec connects settings w ≡ some (ok (app, s))
      → CanServe (app, s)
  startup-CanServe settings w {app} {s} e =
      let (app2, s2, e2, ready, _, _, retries) =
        startup_succeeds fl world codec connects settings w
          (startup-IsStartable fl world codec connects settings w e) in
      subst CanServe (ok-injective _ _ (some-injective _ _ (sym e2 ∙ e))) (ready, retries)

  -- An application that has started answers every request, however many come and of whatever kind,
  -- and whatever happens to the Redis and to the world between them; and each as `IsAnswered` says, in
  -- the state that the events before it have left: off the endpoints nothing is found; a guard refuses with
  -- its own exception, and only where it stands; a prompt is declined only for its length; and every other
  -- call of `generate` is served by the cache or the gateway, and fails only with the gateway's exception.
  pub startup_serves :
      (secrets : Secrets) (redis : Redis) (describe : Exception → String × String)
      (validates_first : Bool) (settings : Settings F) (w : world.State) {app : Application F}
      {s : GatewayState F world.State}
      (events : List (Event secrets codec redis fl world describe validates_first))
      (c : redis.State)
      → startup fl world codec connects settings w ≡ some (ok (app, s))
      → (answers : List Answer) × (c' : redis.State) × (s' : GatewayState F world.State)
        × (serve_all secrets codec redis fl world describe validates_first settings
              (parts_of app)
              events
              c
              s
            ≡ some (answers, c', s'))
        × (length answers
            ≡ requests_of secrets codec redis fl world describe validates_first events)
        × AreAnswered secrets codec redis fl world describe validates_first settings
            (parts_of app)
            events
            c
            s
            answers
            c'
            s'
  startup_serves secrets redis describe validates_first settings w {app} {s} events c e =
      let (ready, (n, max)) = startup-CanServe settings w e in
      let (answers, c', s', served, same, _, replies) =
        serve_all_answers secrets codec redis fl world describe validates_first settings
          (parts_of app) n max events c s ready in
      (answers, c', s', served, same, replies)
