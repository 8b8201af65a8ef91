-- ===== src/Tests/Serving.antt =====
-- Tests of the routes behind their guards, of the application as it runs, and of tracing.
use nexus_ai_platform.Prelude.{ℕ, true, false, ◌⊎◌, some, List, [], ◌∷◌, ◌≡◌, refl, length, none}
use nexus_ai_platform.Errors.{ok}
use nexus_ai_platform.Llm.Gateway.{GatewayState}
use nexus_ai_platform.Llm.Gateway.Publishing.{IsReady}
use nexus_ai_platform.Api.Generate.{accepts_prompt}
use nexus_ai_platform.Api.Health.{adapter}
use nexus_ai_platform.Api.Serve.{Call, Answer, Parts, Event, calls, changes, serve, serve_all}
use nexus_ai_platform.Api.Serve.Guarded.{IsAdmitted, has_content, serve-IsAdmitted}
use nexus_ai_platform.Api.Serve.Replies.{IsAnswered, AreAnswered}
use nexus_ai_platform.Api.Serve.Answers.{serve-Ends}
use nexus_ai_platform.Main.Serves.{parts_of, startup_serves}
use nexus_ai_platform.Tracing.{proxy, foreign}
use nexus_ai_platform.Tracing.Once.{configure_all, first_enabled, configure_all-first}
use nexus_ai_platform.Settings.{Settings}
use nexus_ai_platform.Tests.Fixtures.{decimals, scripted, Scene, settings, scene, answer}
use nexus_ai_platform.Tests.Llm.{gateway, router-IsReady, start}
use nexus_ai_platform.Tests.Codecs.{codec}
use nexus_ai_platform.Tests.Servers.{Server, server, empty_server}
use nexus_ai_platform.Tests.Store.{semantic_cache, question}
use nexus_ai_platform.Tests.Routes.{describe}
use nexus_ai_platform.Tests.Cache.{limiter}
use nexus_ai_platform.Tests.Api.{secrets}
use nexus_ai_platform.Tests.Starting.{connects, started}

abbrev parts : Parts ℕ
parts = record {
  rate_limiter = some limiter;
  semantic_cache = semantic_cache;
  llm_gateway = gateway;
  cache_adapter = adapter;
}

abbrev post : Call
post = record {
  method = "POST";
  path = "/v1/generate";
  x_api_key = some "secret";
  prompt = question;
}

abbrev probe : Call
probe = record { method = "GET"; path = "/v1/ready"; x_api_key = none; prompt = "" }

served_post :
    (x : Answer × Server × GatewayState ℕ Scene) × (serve secrets codec server decimals scripted
        describe true settings parts post
        (empty_server 1000)
        (start (ok answer ∷ []))
      ≡ some x)
    × IsReady decimals scripted gateway x.2.router
    × IsAnswered secrets codec server decimals scripted describe true settings parts post
        (empty_server 1000)
        (start (ok answer ∷ []))
        x
served_post =
    serve-Ends secrets codec server decimals scripted describe true settings parts 2 refl post
      (empty_server 1000) (start (ok answer ∷ [])) router-IsReady

serve-IsAdmitted_example :
    ((served_post.0.2 ≡ start (ok answer ∷ [])) × (has_content served_post.0.0 ≡ false))
    ⊎ (IsAdmitted secrets codec server decimals scripted describe true settings parts post
          (empty_server 1000)
        × (post.method ≡ "POST")
        × (post.path ≡ "/v1/generate")
        × (accepts_prompt post.prompt ≡ true))
serve-IsAdmitted_example =
    serve-IsAdmitted secrets codec server decimals scripted describe true settings parts post
      (empty_server 1000) served_post.0.1 (start (ok answer ∷ [])) served_post.0.2 served_post.0.0
      served_post.1

-- Two requests, before the second of which another worker empties the Redis.
abbrev requests : List (Event secrets codec server decimals scripted describe true)
requests = calls post ∷ changes (λ _. empty_server 1000) (λ w. w) ∷ calls probe ∷ []

startup_serves_example :
    (answers : List Answer) × (c' : Server) × (s' : GatewayState ℕ Scene) × (serve_all secrets codec
        server decimals scripted describe true settings
        (parts_of decimals scripted codec connects started.0)
        requests
        (empty_server 1000)
        started.1
      ≡ some (answers, c', s'))
    × (length answers ≡ 2)
    × AreAnswered secrets codec server decimals scripted describe true settings
        (parts_of decimals scripted codec connects started.0)
        requests
        (empty_server 1000)
        started.1
        answers
        c'
        s'
startup_serves_example =
    startup_serves decimals scripted codec connects secrets server describe true settings (scene [])
      {app = started.0} {s = started.1} requests (empty_server 1000) started.2

abbrev untraced : Settings ℕ
untraced = record settings { otel_enabled = false }

configure_all-first_example :
    (configure_all (untraced ∷ settings ∷ untraced ∷ []) proxy
      ≡ first_enabled (untraced ∷ settings ∷ untraced ∷ []))
    × (configure_all (untraced ∷ settings ∷ untraced ∷ []) (foreign "theirs") ≡ foreign "theirs")
configure_all-first_example = configure_all-first (untraced ∷ settings ∷ untraced ∷ []) "theirs"
