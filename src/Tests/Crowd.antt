-- ===== src/Tests/Crowd.antt =====
-- Tests of many requests at one gateway.
use nexus_ai_platform.Prelude.{ℕ, some, List, [], ◌∷◌, ◌++◌, ◌≡◌, ◌≤◌, ◌<◌, length}
use nexus_ai_platform.Errors.{ok}
use nexus_ai_platform.Llm.Models.{Provider}
use nexus_ai_platform.Llm.Router.History.{Report, Tracks}
use nexus_ai_platform.Llm.Router.Select.{IsBest}
use nexus_ai_platform.Llm.Gateway.{GatewayState, others}
use nexus_ai_platform.Llm.Gateway.Concurrent.{
  Flight, waiting, turns, arrive, land, reports_of, Busy, opened, arrives,
}
use nexus_ai_platform.Llm.Gateway.Concurrent.Steps.{IsNext}
use nexus_ai_platform.Llm.Gateway.Concurrent.Orders.{arrive-IsBest, land-Tracks}
use nexus_ai_platform.Tests.Fixtures.{decimals, scripted, Scene, mistral, groq, unavailable}
use nexus_ai_platform.Tests.Llm.{gateway, start, new_router_two}

quiet : Busy decimals scripted gateway 30000 [] [] (start [])
quiet = opened new_router_two

arrive-IsBest_example :
    Tracks decimals (mistral ∷ groq ∷ []) 30000 [] (start []).router
    × ((q : Provider) × (s' : GatewayState ℕ Scene) × (arrive decimals scripted gateway (start [])
          ≡ some (ok (waiting q (others q (mistral ∷ groq ∷ [])) 1000), s'))
        × IsBest decimals (start []).router 1000 q)
arrive-IsBest_example = arrive-IsBest decimals scripted gateway 30000 quiet

-- One more request.
with_another :
    {fs : List (Flight ℕ)} {reports : List (Report ℕ)} {s : GatewayState ℕ Scene}
    → Busy decimals scripted gateway 30000 fs reports s
    → (q : Provider) × (rest : List Provider) × (started : ℕ) × (s' : GatewayState ℕ Scene) × Busy
        decimals scripted gateway 30000
        (waiting q rest started ∷ fs)
        reports
        s'
with_another busy =
    let (_, (q, s', arrived, _)) = arrive-IsBest decimals scripted gateway 30000 busy in
    (q, _, _, s', arrives _ s' busy arrived)

one :
    (q : Provider) × (rest : List Provider) × (started : ℕ) × (s' : GatewayState ℕ Scene) × Busy
      decimals scripted gateway 30000
      (waiting q rest started ∷ [])
      []
      s'
one = with_another quiet

two :
    (q : Provider) × (rest : List Provider) × (started : ℕ) × (s' : GatewayState ℕ Scene) × Busy
      decimals scripted gateway 30000
      (waiting q rest started ∷ waiting one.0 one.1 one.2 ∷ [])
      []
      s'
two = with_another one.4

-- The second of two requests is told that its provider is down, while the first one waits.
land-Tracks_example :
    (f : Flight ℕ) × (s' : GatewayState ℕ Scene) × (land decimals scripted gateway one.0 one.1 one.2
        unavailable two.3
      ≡ some (ok f, s'))
    × IsNext decimals scripted gateway 30000 one.1 two.3.world.time unavailable f
    × Tracks decimals
        (mistral ∷ groq ∷ [])
        30000
        (reports_of decimals scripted one.0 one.2 unavailable two.3 ++ [])
        s'.router
    × (turns f < turns (waiting one.0 one.1 one.2))
    × (turns (waiting one.0 one.1 one.2) ≤ length (mistral ∷ groq ∷ []))
land-Tracks_example =
    land-Tracks decimals scripted gateway 30000 (waiting two.0 two.1 two.2 ∷ []) one.0 one.1 one.2
      [] unavailable two.4
