-- ===== src/Tests/Starting.antt =====
-- Tests of the chain of providers and of the start of the application.
use nexus_ai_platform.Prelude.{
  ℕ, false, none, some, List, [], ◌∷◌, map, All, ◌≡◌, ◌≢◌, refl, sym, subst,
}
use nexus_ai_platform.Prelude.Int.{pos}
use nexus_ai_platform.Errors.{Result, ok}
use nexus_ai_platform.Text.{is_blank, is_space, strip, lstrip, rstrip, split_at}
use nexus_ai_platform.Llm.Gateway.{GatewayState}
use nexus_ai_platform.Llm.Gateway.Publishing.{IsReady}
use nexus_ai_platform.Llm.Http.{client}
use nexus_ai_platform.Llm.Factory.{Built, built_name, provider_names, build_llm_providers}
use nexus_ai_platform.Llm.Factory.Configured.{IsConfigured, as_mistral, as_groq}
use nexus_ai_platform.Llm.Factory.Chain.{
  Names, pieces_of, provider_names-Names, build_llm_providers-names, build_llm_providers_succeeds,
}
use nexus_ai_platform.Cache.Connections.{Client}
use nexus_ai_platform.Main.{Application, startup}
use nexus_ai_platform.Main.Starts.{IsStartable, startup_succeeds, startup-IsStartable}
use nexus_ai_platform.Tests.Fixtures.{decimals, scripted, Scene, settings, scene}
use nexus_ai_platform.Tests.Llm.{settings_pass}
use nexus_ai_platform.Tests.Codecs.{codec}

-- A Redis client that takes any options.
abbrev pub connects : Client ℕ → Result (Unit {0})
connects options = ok tt

named : provider_names codec settings ≡ "mistral" ∷ "groq" ∷ []
unfolding provider_names is_blank is_space strip lstrip rstrip split_at
named = refl

some_named : provider_names codec settings ≢ []
some_named e = cc named

ink : (is_blank "m-key" ≡ false) × (is_blank "g-key" ≡ false)
unfolding is_blank is_space
ink = (refl, refl)

both_configured : All (IsConfigured settings) (provider_names codec settings)
both_configured =
    subst (All (IsConfigured settings)) (sym named)
      (as_mistral refl ("m-key", refl, ink.0), (as_groq refl ("g-key", refl, ink.1), tt))

chain :
    (ps : List (Built ℕ)) × (build_llm_providers decimals settings none codec ≡ ok ps)
    × (map built_name ps ≡ provider_names codec settings)
chain = build_llm_providers_succeeds decimals settings none codec some_named both_configured

build_llm_providers-names_example :
    Names codec ("mistral" ∷ "groq" ∷ []) (map built_name chain.0)
    × (map built_name chain.0 ≢ [])
    × All (IsConfigured settings) (map built_name chain.0)
unfolding split_at
build_llm_providers-names_example =
    build_llm_providers-names decimals settings none codec chain.0 chain.1

startable : IsStartable decimals scripted codec connects settings
startable = record {
  minute = refl;
  hour = refl;
  cache_ttl = refl;
  cache_bytes = refl;
  acceptable = settings_pass;
  connected = refl;
  names = provider_names codec settings;
  spelled = provider_names-Names codec settings;
  named = some_named;
  configured = both_configured;
}

startup_succeeds_example :
    (app : Application ℕ) × (s : GatewayState ℕ Scene) × (startup decimals scripted codec connects
        settings
        (scene [])
      ≡ some (ok (app, s)))
    × IsReady decimals scripted app.llm_gateway s.router
    × Names codec (pieces_of codec settings) (map built_name app.llm_providers)
    × (client app.http_client ≡ ok tt)
    × ((n : ℕ) × (app.llm_gateway.max_retries ≡ pos n))
startup_succeeds_example =
    startup_succeeds decimals scripted codec connects settings (scene []) startable

pub started :
    (app : Application ℕ) × (s : GatewayState ℕ Scene) × (startup decimals scripted codec connects
        settings
        (scene [])
      ≡ some (ok (app, s)))
    × IsReady decimals scripted app.llm_gateway s.router
    × Names codec (pieces_of codec settings) (map built_name app.llm_providers)
    × (client app.http_client ≡ ok tt)
    × ((n : ℕ) × (app.llm_gateway.max_retries ≡ pos n))
started = startup_succeeds decimals scripted codec connects settings (scene []) startable

startup-IsStartable_example : IsStartable decimals scripted codec connects settings
startup-IsStartable_example =
    startup-IsStartable decimals scripted codec connects settings (scene []) {app = started.0}
      {s = started.1} started.2
