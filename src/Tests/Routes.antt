-- ===== src/Tests/Routes.antt =====
-- Tests of the routes, the middleware and the one-provider gateway.
use nexus_ai_platform.Prelude.{ℕ, suc, ◌+◌, String, true, some, [], ◌∷◌, ◌≡◌, refl, arith}
use nexus_ai_platform.Errors.{Result, ok}
use nexus_ai_platform.Cache.RedisCache.Texts.{text_store}
use nexus_ai_platform.Cache.SemanticCache
use nexus_ai_platform.Llm.Gateway.{GatewayState}
use nexus_ai_platform.Llm.Service as OneProvider
use nexus_ai_platform.Llm.Service.Valid.{IsHandled, generate-IsHandled}
use nexus_ai_platform.Api.Generate.{GenerateResponse, generate}
use nexus_ai_platform.Api.Generate.Served.{IsServed, generate-IsServed, generate-set}
use nexus_ai_platform.Api.Middleware.{
  HttpCall, Service, IsIdentified, IsObserved, dispatch, dispatch-IsObserved,
}
use nexus_ai_platform.Cache.RedisCache.{ping}
use nexus_ai_platform.Api.Health.{CacheAdapter, adapter, readiness}
use nexus_ai_platform.Api.Health.Ready.{IsProbe, readiness-IsProbe}
use nexus_ai_platform.Errors.{Exception}
use nexus_ai_platform.Tests.Fixtures.{decimals, scripted, Scene, scene, request, answer, mistral}
use nexus_ai_platform.Tests.Llm.{gateway, router-IsReady, start}
use nexus_ai_platform.Tests.Codecs.{codec}
use nexus_ai_platform.Tests.Servers.{Server, server, empty_server}
use nexus_ai_platform.Tests.Store.{
  semantic_cache, question, spaced, taken, same_words, after, replied_spaced,
}

generate-IsServed_example :
    (x : Result GenerateResponse × Server × GatewayState ℕ Scene) × (generate codec
        (text_store server)
        decimals
        scripted
        semantic_cache
        gateway
        question
        (empty_server 1000)
        (start (ok answer ∷ []))
      ≡ some x)
    × IsServed codec
        (text_store server)
        decimals
        scripted
        semantic_cache
        gateway
        question
        (empty_server 1000)
        (start (ok answer ∷ []))
        x
generate-IsServed_example =
    generate-IsServed codec (text_store server) decimals scripted semantic_cache gateway 2 question
      (empty_server 1000) (start (ok answer ∷ [])) refl router-IsReady

-- The gateway's script is empty: a call of it would fail.
generate-set_example :
    (c' : Server) × (generate codec
        (text_store server)
        decimals
        scripted
        semantic_cache
        gateway
        spaced
        after
        (start [])
      ≡ some (
        ok (record { content = "42"; model = "cache"; source = "semantic_cache" }),
        c',
        start [],
      ))
generate-set_example =
    generate-set codec (text_store server) decimals scripted semantic_cache gateway 3600 10 question
      spaced "42" (empty_server 1000) (start []) true
      (after.texts (SemanticCache.cache_key codec spaced)) refl taken same_words (omega arith)
      replied_spaced

abbrev hello : HttpCall
hello = record {
  method = "GET";
  request_id_header = some "";
  url_path = "/health";
  route_path = some "/health";
}

-- An application that answers 200 after 200 thousandths of a second; the state is the time.
abbrev service : Service decimals
service = record {
  State = ℕ;
  perf_counter = λ s. s;
  uuid4 = λ s. ("3f2b", suc s);
  call_next = λ call s. (ok (record { status_code = 200; headers = [] }), s + 200);
}

dispatch-IsObserved_example :
    (id : String) × (s' : ℕ) × IsIdentified decimals service 1000 (some "") (id, s')
    × IsObserved decimals service hello id s'
        (ok (record { status_code = 200; headers = [] }), s' + 200)
        (dispatch decimals service hello 1000)
dispatch-IsObserved_example = dispatch-IsObserved decimals service hello 1000

abbrev one_provider : OneProvider.Service ℕ
one_provider = record { provider = mistral; timeout_seconds = 30000 }

generate-IsHandled_example :
    IsHandled decimals scripted one_provider request
      (scene (ok answer ∷ []))
      (OneProvider.generate decimals scripted one_provider request (scene (ok answer ∷ [])))
generate-IsHandled_example =
    generate-IsHandled decimals scripted one_provider request (scene (ok answer ∷ []))

abbrev pub describe : Exception → String × String
describe e = ("ConnectionError", "refused")

readiness-IsProbe_example :
    IsProbe
      ((◌≡◌ {A = CacheAdapter} adapter adapter) × ((ping server (empty_server 0)).0 ≡ ok true))
      (readiness server describe adapter (empty_server 0)).0.status_code
readiness-IsProbe_example = readiness-IsProbe server describe adapter (empty_server 0)
