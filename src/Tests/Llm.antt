-- ===== src/Tests/Llm.antt =====
-- Tests of the router and the gateway.
use mathlib.Core.List.{Memᴰ}
use nexus_ai_platform.Prelude.{
  ℕ, ◌≡◌, ◌≢◌, refl, true, false, some, List, [], ◌∷◌, ◌++◌, ◌≤◌, ◌*◌, ◌+◌, All, arith, lookup,
  insert, count,
}
use nexus_ai_platform.Prelude.Int.{pos}
use nexus_ai_platform.Errors.{Result, ok, raise, builtin_timeout}
use nexus_ai_platform.Llm.Models.{Provider, LlmResponse}
use nexus_ai_platform.Llm.Router.{
  Router, initial_stats, select_provider, new_router, init_stats, is_available, provider_name,
}
use nexus_ai_platform.Llm.Router.Lookup.{IsManaged}
use nexus_ai_platform.Llm.Router.Select.{IsBest, select_provider-IsBest}
use nexus_ai_platform.Llm.Router.History.{
  Report, succeeded, failed, IsSound, Tracks, record_all, available_by, history_summary,
  is_available-eq-history,
}
use nexus_ai_platform.Llm.Gateway.{
  Gateway, GatewayState, Act, generate, generate_with_retry, new_gateway,
}
use nexus_ai_platform.Llm.Gateway.Policy.{surface, Others}
use nexus_ai_platform.Llm.Gateway.Publishing.{IsReady}
use nexus_ai_platform.Llm.Gateway.Retry.{Retried, generate_with_retry-Retried}
use nexus_ai_platform.Llm.Gateway.Failover.{Tried}
use nexus_ai_platform.Llm.Gateway.Generate.{generate_lem}
use nexus_ai_platform.Llm.Gateway.Shares.{is_call_of, pauses_after}
use nexus_ai_platform.Llm.Gateway.Bounds.{
  is_call, is_pause, last_call, generate_calls, generate_answer,
}
use nexus_ai_platform.Llm.Gateway.Pauses.{IsShort, generate_pauses}
use nexus_ai_platform.Llm.Gateway.Startup.{IsAcceptable, new_gateway_starts, new_gateway_checks}
use nexus_ai_platform.Tests.Fixtures.{
  decimals, Scene, scripted, mistral, groq, settings, request, answer, unavailable, scene,
}

abbrev pub router : Router ℕ
router = record {
  providers = mistral ∷ groq ∷ [];
  recovery_cooldown_seconds = 30000;
  stats = ("mistral", initial_stats decimals) ∷ ("groq", initial_stats decimals) ∷ [];
}

router-IsManaged : All (IsManaged decimals router) (mistral ∷ groq ∷ [])
unfolding lookup provider_name
router-IsManaged = ((_, refl), ((_, refl), tt))

two_providers : ◌≢◌ {A = List Provider} (mistral ∷ groq ∷ []) []
two_providers e = cc

select_provider-IsBest_example :
    (q : Provider) × (select_provider decimals router 0 ≡ ok q) × IsBest decimals router 0 q
select_provider-IsBest_example =
    select_provider-IsBest decimals router 0 two_providers router-IsManaged

pub new_router_two : new_router decimals (mistral ∷ groq ∷ []) 30000 ≡ ok router
unfolding new_router init_stats insert provider_name
new_router_two = refl

-- Three failures of the first provider, after a success of the second.
abbrev reports : List (Report ℕ)
reports = failed mistral 3000 ∷ failed mistral 2000 ∷ failed mistral 1500 ∷ succeeded groq 200 ∷ []

reports-IsSound : All (IsSound decimals (mistral ∷ groq ∷ [])) reports
reports-IsSound =
    (Memᴰ.head refl, (Memᴰ.head refl, (Memᴰ.head refl, ((Memᴰ.tail (Memᴰ.head refl), refl), tt))))

history_summary_example :
    (r : Router ℕ) × (record_all decimals router reports ≡ ok r)
    × Tracks decimals (mistral ∷ groq ∷ []) 30000 reports r
history_summary_example =
    history_summary decimals (mistral ∷ groq ∷ []) 30000 router reports new_router_two
      reports-IsSound

told :
    (r : Router ℕ) × (record_all decimals router reports ≡ ok r)
    × Tracks decimals (mistral ∷ groq ∷ []) 30000 reports r
told =
    history_summary decimals (mistral ∷ groq ∷ []) 30000 router reports new_router_two
      reports-IsSound

-- What the first provider is, right after its third failure.
is_available-eq-history_example :
    is_available decimals told.0 4000 mistral
    ≡ ok (available_by decimals 30000 4000 (provider_name mistral) reports)
is_available-eq-history_example =
    is_available-eq-history decimals (mistral ∷ groq ∷ []) 30000 reports told.0 4000 mistral told.2
      (Memᴰ.head refl)

third_failure_closes : available_by decimals 30000 4000 (provider_name mistral) reports ≡ false
unfolding provider_name
third_failure_closes = refl

cooldown_opens : available_by decimals 30000 33000 (provider_name mistral) reports ≡ true
unfolding provider_name
cooldown_opens = refl

abbrev pub gateway : Gateway ℕ
gateway = record {
  providers = mistral ∷ groq ∷ [];
  timeout_seconds = 30000;
  max_retries = pos 2;
  retry_base_delay = 500;
  retry_max_delay = 5000;
}

abbrev pub start : List (Result LlmResponse) → GatewayState ℕ Scene
start script = record { router = router; world = scene script; acts = []; metrics = [] }

pub router-IsReady : IsReady decimals scripted gateway router
router-IsReady = record { nonempty = two_providers; providers = refl; managed = router-IsManaged }

-- The first provider is down for all three attempts; the second one answers.
abbrev outage : List (Result LlmResponse)
outage = unavailable ∷ raise builtin_timeout ∷ unavailable ∷ ok answer ∷ []

generate_lem_example :
    (q : Provider) × (rest : List Provider) × IsBest decimals router 1000 q
    × Others q (mistral ∷ groq ∷ []) rest
    × Tried decimals scripted gateway 2
        (q ∷ rest)
        (generate decimals scripted gateway request (start outage))
        (start outage)
generate_lem_example =
    generate_lem decimals scripted gateway 2 request (start outage) refl router-IsReady

generate_with_retry-Retried_example :
    Retried decimals scripted gateway 2 mistral 0
      (generate_with_retry decimals scripted gateway mistral request (start outage))
      (start outage)
generate_with_retry-Retried_example =
    generate_with_retry-Retried decimals scripted gateway 2 mistral request (start outage) refl

generate_calls_example :
    (r : Result LlmResponse) × (s' : GatewayState ℕ Scene) × (acts : List (Act ℕ)) × (generate
        decimals scripted gateway request
        (start outage)
      ≡ some (r, s'))
    × (s'.acts ≡ [] ++ acts)
    × (count (is_call_of mistral) acts ≤ 1 * (2 + 1))
    × (count is_call acts ≤ 2 * (2 + 1))
generate_calls_example =
    generate_calls decimals scripted gateway 2 request (start outage) mistral refl router-IsReady

generate_pauses_example :
    (r : Result LlmResponse) × (s' : GatewayState ℕ Scene) × (acts : List (Act ℕ)) × (generate
        decimals scripted gateway request
        (start outage)
      ≡ some (r, s'))
    × (s'.acts ≡ [] ++ acts)
    × All (IsShort decimals 5000) acts
    × (pauses_after mistral false acts ≤ 1 * 2)
    × (count is_pause acts ≤ 2 * 2)
generate_pauses_example =
    generate_pauses decimals scripted gateway 2 request (start outage) mistral refl router-IsReady

generate_answer_example :
    (p : Provider) × (o : Result LlmResponse) × (s' : GatewayState ℕ Scene) × (acts : List (Act ℕ))
    × (generate decimals scripted gateway request (start outage) ≡ some (surface o, s'))
    × (s'.acts ≡ [] ++ acts)
    × (last_call acts ≡ some (p, o))
generate_answer_example =
    generate_answer decimals scripted gateway 2 request (start outage) refl router-IsReady

pub settings_pass : IsAcceptable decimals settings
settings_pass = record {
  timeout = refl;
  retries = omega arith;
  base_delay = refl;
  max_delay = refl;
  delays = refl;
}

new_gateway_starts_example :
    (n : ℕ) × (s : GatewayState ℕ Scene) × (new_gateway decimals scripted
        (mistral ∷ groq ∷ [])
        settings
        (scene [])
      ≡ some (ok (gateway, s)))
    × (pos 2 ≡ pos n)
    × IsReady decimals scripted gateway s.router
new_gateway_starts_example =
    new_gateway_starts decimals scripted (mistral ∷ groq ∷ []) settings (scene []) two_providers
      settings_pass

started_gateway :
    (n : ℕ) × (s : GatewayState ℕ Scene) × (new_gateway decimals scripted
        (mistral ∷ groq ∷ [])
        settings
        (scene [])
      ≡ some (ok (gateway, s)))
    × (pos 2 ≡ pos n)
    × IsReady decimals scripted gateway s.router
started_gateway =
    new_gateway_starts decimals scripted (mistral ∷ groq ∷ []) settings (scene []) two_providers
      settings_pass

new_gateway_checks_example :
    (◌≢◌ {A = List Provider} (mistral ∷ groq ∷ []) []) × IsAcceptable decimals settings
new_gateway_checks_example =
    new_gateway_checks decimals scripted (mistral ∷ groq ∷ []) settings (scene []) {g = gateway}
      {s = started_gateway.1} started_gateway.2
