-- ===== src/Api/Serve/Answers.antt =====
-- Every request is answered, one after the other.
use mathlib.Core.Option.{some-injective}
use nexus_ai_platform.Prelude.{
  not, true, false, ◌&&◌, arith, ℕ, suc, String, Bool, Option, none, some, List, [], ◌∷◌, ◌≡◌, refl,
  ap, sym, ◌∙◌, subst, inl, inr, Bool-cases, length,
}
use nexus_ai_platform.Prelude.Int.{pos}
use nexus_ai_platform.Errors.{Exception, Result, ok, raise}
use nexus_ai_platform.Floats.{Floats}
use nexus_ai_platform.Codec.{Codec}
use nexus_ai_platform.Settings.{Settings}
use nexus_ai_platform.Cache.Redis.{Redis}
use nexus_ai_platform.Cache.RedisCache.Texts.{text_store}
use nexus_ai_platform.Llm.Models.{LlmResponse}
use nexus_ai_platform.Llm.Gateway
use nexus_ai_platform.Llm.Gateway.{World, GatewayState}
use nexus_ai_platform.Llm.Gateway.Publishing.{IsReady}
use nexus_ai_platform.Llm.Gateway.Generate.{generate_run}
use nexus_ai_platform.Api.Auth.{Secrets}
use nexus_ai_platform.Api.Generate.{GenerateResponse, accepts_prompt, request_of}
use nexus_ai_platform.Api.Generate.Served.{IsServed, generate-IsServed}
use nexus_ai_platform.Api.Health
use nexus_ai_platform.Api.Serve.Guarded.{needs_guard}
use nexus_ai_platform.Api.Serve.Replies.{
  IsEndpoint, route-IsEndpoint, no_endpoint, IsReplied, declined, served, not_served, alive, probe,
  exposed, allowed, IsAnswered, unknown, invalid, turned_away, let_in, open_to_all, AreAnswered,
  over, one_more, changed,
}
use nexus_ai_platform.Api.Routes.{
  Handler, generate, health, readiness, metrics, rate_limit_check, Route, api_router, find_in,
}
use nexus_ai_platform.Api.Serve.{
  Call, as_answer, Answer, Parts, guard, handle, after_guard, run_route, fails_first, serve, Event,
  calls, changes, requests_of, serve_all,
}

module _ (secrets : Secrets) (codec : Codec) (redis : Redis) (fl : Floats) (world : World fl)
    (describe : Exception → String × String) (validates_first : Bool) (settings : Settings fl.F)
    (app : Parts fl.F) (n : ℕ) (max : app.llm_gateway.max_retries ≡ pos n) where
  open fl use {F}

  abbrev Ready : GatewayState F world.State → Type 0
  Ready s = IsReady fl world app.llm_gateway s.router

  abbrev Served : Type 0
  Served = Answer × redis.State × GatewayState F world.State

  abbrev Replied : String → redis.State → GatewayState F world.State → Handler → Served → Type 0
  Replied = IsReplied secrets codec redis fl world describe validates_first settings app

  abbrev Answered : Call → redis.State → GatewayState F world.State → Served → Type 0
  Answered = IsAnswered secrets codec redis fl world describe validates_first settings app

  -- The step ends as `P` says, and the gateway can serve again.
  abbrev Ends : (Served → Type 0) → Option Served → Type 0
  Ends P o = (x : Served) × (o ≡ some x) × Ready x.2 × P x

  gateway-Ready :
      (prompt : String) (s s' : GatewayState F world.State) (r : Result LlmResponse)
      → Ready s
      → Gateway.generate fl world app.llm_gateway (request_of fl prompt) s ≡ some (r, s')
      → Ready s'
  gateway-Ready prompt s s' r ready e =
      let (_, _, (r2, t, _, _, ended, _, _, _, again)) =
        generate_run fl world app.llm_gateway n (request_of fl prompt) s max ready in
      subst Ready
        (ap (λ (x : Result LlmResponse × GatewayState F world.State). x.1)
          (some-injective _ _ (sym ended ∙ e)))
        again

  served-Ready :
      (prompt : String) (c : redis.State) (s : GatewayState F world.State)
      (x : Result GenerateResponse × redis.State × GatewayState F world.State)
      → Ready s
      → IsServed codec (text_store redis) fl world app.semantic_cache app.llm_gateway prompt c s x
      → Ready x.2
  served-Ready prompt c s _ ready (IsServed.hit cached c' e) = ready
  served-Ready prompt c s _ ready (IsServed.answered response s' nothing e) =
      gateway-Ready prompt s s' (ok response) ready e
  served-Ready prompt c s _ ready (IsServed.failed x s' nothing e) =
      gateway-Ready prompt s s' (raise x) ready e

  generate-Ends :
      (prompt : String) (c : redis.State) (s : GatewayState F world.State)
      (x : Result GenerateResponse × redis.State × GatewayState F world.State)
      → Ready x.2
      → accepts_prompt prompt ≡ true
      → IsServed codec (text_store redis) fl world app.semantic_cache app.llm_gateway prompt c s x
      → Ends
          (Replied prompt c s generate)
          (as_answer secrets codec redis fl world describe validates_first (some x))
  generate-Ends prompt c s (ok response, c', s') ready accepted h =
      (_, refl, ready, served response c' s' accepted h)
  generate-Ends prompt c s (raise e, c', s') ready accepted h =
      (_, refl, ready, not_served e c' s' accepted h)

  handle-Ends :
      (handler : Handler) (prompt : String) (c : redis.State) (s : GatewayState F world.State)
      → Ready s
      → Ends
          (Replied prompt c s handler)
          (handle secrets codec redis fl world describe validates_first app handler prompt c s)
  unfolding handle Health.health
  handle-Ends generate prompt c s ready = elim (Bool-cases (accepts_prompt prompt)) [
    | inr not_accepted ↦ rw not_accepted (_, refl, ready, declined not_accepted)
    | inl accepted ↦
        let (x, e, h) =
          generate-IsServed codec (text_store redis) fl world app.semantic_cache app.llm_gateway n
            prompt c s max ready in
        rw (accepted, e) (generate-Ends prompt c s x (served-Ready prompt c s x ready h) accepted h)
  ]
  handle-Ends health prompt c s ready = (_, refl, ready, alive)
  handle-Ends readiness prompt c s ready = (
    _,
    refl,
    ready,
    probe (Health.readiness redis describe app.cache_adapter c).0
        (Health.readiness redis describe app.cache_adapter c).1 refl,
  )
  handle-Ends metrics prompt c s ready = (_, refl, ready, exposed)
  handle-Ends rate_limit_check prompt c s ready = (_, refl, ready, allowed)

  guarded-Ends :
      (call : Call) (c : redis.State) (handler : Handler) (s : GatewayState F world.State)
      (r : Result (Unit {0}) × redis.State)
      → Ready s
      → IsEndpoint call.method call.path handler
      → needs_guard handler ≡ true
      → guard secrets codec redis fl world describe validates_first settings app call.x_api_key c
        ≡ r
      → Ends (Answered call c s) (
          after_guard secrets codec redis fl world describe validates_first app handler call.prompt
            s r)
  guarded-Ends call c handler s (raise e, c') ready place needs g =
      (_, refl, ready, turned_away handler e c' place needs g)
  guarded-Ends call c handler s (ok tt, c') ready place needs g =
      let (x, e, ready', h) = handle-Ends handler call.prompt c' s ready in
      (x, e, ready', let_in handler c' x place needs g h)

  first-inv :
      (handler : Handler) (prompt : String)
      → fails_first secrets codec redis fl world describe validates_first handler prompt ≡ true
      → (generate ≡ handler) × (accepts_prompt prompt ≡ false)
  first-inv generate prompt e = (refl, second validates_first (accepts_prompt prompt) e)
    where
      second : (a b : Bool) → (a && not b) ≡ true → b ≡ false
      second a b h = ground arith
  first-inv health prompt e = cc
  first-inv readiness prompt e = cc
  first-inv metrics prompt e = cc
  first-inv rate_limit_check prompt e = cc

  route-Ends :
      (call : Call) (c : redis.State) (s : GatewayState F world.State) (o : Option Route)
      → find_in api_router call.method call.path ≡ o
      → Ready s
      → Ends
          (Answered call c s)
          (run_route secrets codec redis fl world describe validates_first settings app call c s o)
  route-Ends call c s none e ready =
      (_, refl, ready, unknown (λ handler. no_endpoint call.method call.path handler e))
  route-Ends call c s (some route) e ready =
      let (place, guards) = route-IsEndpoint call.method call.path route e in
      elim (Bool-cases (first route.handler)) [
        | inl early ↦
            let (is_generate, too_long) = first-inv route.handler call.prompt early in
            rw early (
              _,
              refl,
              ready,
              invalid (subst (IsEndpoint call.method call.path) (sym is_generate) place) too_long,
            )
        | inr later ↦ elim (Bool-cases route.guarded) [
          | inl guarded ↦
              rw (later, guarded)
                (guarded-Ends call c route.handler s _ ready place (sym guards ∙ guarded) refl)
          | inr free ↦
              let (x, ends, ready', h) = handle-Ends route.handler call.prompt c s ready in
              rw (later, free)
                (x, ends, ready', open_to_all route.handler x place (sym guards ∙ free) h)
        ]
      ]
    where
      first : Handler → Bool
      first handler =
          fails_first secrets codec redis fl world describe validates_first handler call.prompt

  pub serve-Ends :
      (call : Call) (c : redis.State) (s : GatewayState F world.State)
      → Ready s
      → Ends
          (Answered call c s)
          (serve secrets codec redis fl world describe validates_first settings app call c s)
  unfolding serve
  serve-Ends call c s ready =
      route-Ends call c s (find_in api_router call.method call.path) refl ready

  -- However many requests come, of whatever kind, and whatever happens to the Redis and to the world
  -- between them: a gateway that was ready once answers every one, as `IsAnswered` says, and stays ready.
  pub serve_all_answers :
      (events : List (Event secrets codec redis fl world describe validates_first))
      (c : redis.State) (s : GatewayState F world.State)
      → IsReady fl world app.llm_gateway s.router
      → (answers : List Answer) × (c' : redis.State) × (s' : GatewayState F world.State)
        × (serve_all secrets codec redis fl world describe validates_first settings app events c s
            ≡ some (answers, c', s'))
        × (length answers
            ≡ requests_of secrets codec redis fl world describe validates_first events)
        × IsReady fl world app.llm_gateway s'.router
        × AreAnswered secrets codec redis fl world describe validates_first settings app events c s
            answers c' s'
  serve_all_answers [] c s ready = ([], c, s, refl, refl, ready, over)
  serve_all_answers (changes f g ∷ events) c s ready =
      let (answers, c', s', e, same, ready', h) =
        serve_all_answers events (f c) (record s { world = g s.world }) ready in
      (answers, c', s', e, same, ready', changed f g h)
  serve_all_answers (calls call ∷ events) c s ready =
      let ((a, c1, s1), e, ready1, h1) = serve-Ends call c s ready in
      let (answers, c2, s2, e2, same, ready2, h) = serve_all_answers events c1 s1 ready1 in
      (a ∷ answers, c2, s2, rw (e, e2) refl, ap suc same, ready2, one_more call a h1 h)
