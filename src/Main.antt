-- ===== src/Main.antt =====
-- main.py: what the application is made of when it starts, and what it closes when it stops.
pub mod Starts
pub mod App
pub mod Serves
use nexus_ai_platform.Prelude.{ℕ, String, Bool, Option, none, some, List}
use nexus_ai_platform.Prelude.Int.{pos}
use nexus_ai_platform.Errors.{Exception, Result, ok, raise, ◌>>=◌, ◌>>◌}
use nexus_ai_platform.Floats.{Floats}
use nexus_ai_platform.Codec.{Codec}
use nexus_ai_platform.Settings.{Settings}
use nexus_ai_platform.Cache.Connections.{Client, cache_client, close_client}
use nexus_ai_platform.Cache.RateLimiter.{RateLimiter, new_rate_limiter}
use nexus_ai_platform.Cache.SemanticCache.{SemanticCache, new_semantic_cache}
use nexus_ai_platform.Llm.Http.{HttpClientPool, new_pool, start, close}
use nexus_ai_platform.Llm.Gateway.{World, Gateway, GatewayState, new_gateway}
use nexus_ai_platform.Llm.Factory.{Built, build_llm_providers, as_providers}

-- What stands in `application.state`, and the providers that the gateway is made of.
pub record Application (F : Type 0) : Type 0 where
  pub cache_adapter : Client F
  pub rate_limiter : RateLimiter
  pub semantic_cache : SemanticCache
  pub http_client : HttpClientPool
  pub llm_providers : List (Built F)
  pub llm_gateway : Gateway F

-- What is made before the gateway.
pub record Parts (F : Type 0) : Type 0 where
  pub cache_adapter : Client F
  pub rate_limiter : RateLimiter
  pub semantic_cache : SemanticCache
  pub http_client : HttpClientPool
  pub llm_providers : List (Built F)

-- `connects` is what redis-py raises, or does not, of the options for a client.
module _ (fl : Floats) (world : World fl) (codec : Codec)
    (connects : Client fl.F → Result (Unit {0})) where
  open fl use {F}

  unfoldable pub make_parts : Settings F → Result (Parts F)
  make_parts settings = do
    cache_adapter ← cache_client connects settings
    rate_limiter ← new_rate_limiter settings
    semantic_cache ← new_semantic_cache settings
    pool ← new_pool fl settings.llm_request_timeout_seconds (pos 100) (pos 20)
    llm_providers ← build_llm_providers fl settings (some (start pool)) codec
    ok (record {
      cache_adapter = cache_adapter;
      rate_limiter = rate_limiter;
      semantic_cache = semantic_cache;
      http_client = start pool;
      llm_providers = llm_providers;
    })

  abbrev pub assemble :
      Parts F
      → Option (Result (Gateway F × GatewayState F world.State))
      → Option (Result (Application F × GatewayState F world.State))
  assemble parts none = none
  assemble parts (some (raise e)) = some (raise e)
  assemble parts (some (ok (g, s))) = some (
      ok (
        record {
          cache_adapter = parts.cache_adapter;
          rate_limiter = parts.rate_limiter;
          semantic_cache = parts.semantic_cache;
          http_client = parts.http_client;
          llm_providers = parts.llm_providers;
          llm_gateway = g;
        },
        s,
      ))

  abbrev pub start_gateway :
      Settings F
      → world.State
      → Result (Parts F)
      → Option (Result (Application F × GatewayState F world.State))
  start_gateway settings w (raise e) = some (raise e)
  start_gateway settings w (ok parts) =
      assemble parts (new_gateway fl world (as_providers 0 parts.llm_providers) settings w)

  -- `lifespan`, up to the `yield`
  unfoldable pub startup :
      Settings F → world.State → Option (Result (Application F × GatewayState F world.State))
  startup settings w = start_gateway settings w (make_parts settings)

  -- The `finally` clause.
  unfoldable pub shutdown : Application F → Application F
  shutdown app = record app {
    http_client = close app.http_client;
    cache_adapter = close_client app.cache_adapter;
  }
