-- ===== src/Lib.antt =====
-- Nexus AI platform: the LLM gateway, its providers, the caches and the HTTP API in front.
--
-- The program (src/nexus) is an asynchronous HTTP service that passes a prompt to one of several
-- LLM providers. It starts (main.py) by making a Redis adapter, the rate limiter, the semantic cache,
-- the HTTP pool, the chain of providers (llm/factory.py) and the gateway from the settings. A request
-- then goes through these parts:
--   * the middleware (api/middleware.py) gives it an identifier and observes how it ends;
--   * the guards (security/auth.py, api/dependencies.py) identify the caller by an API key and refuse
--     the requests over the limit;
--   * the rate limiter (cache/services/rate_limiter.py) counts the caller's requests in windows of
--     a minute and an hour, in a store that all workers share;
--   * the route (api/routes/generate.py) asks the semantic cache for an answer that was kept, and
--     else the gateway, whose answer it keeps;
--   * the semantic cache (cache/services/semantic_cache.py) and the memory of agents
--     (cache/services/memory.py) keep texts that expire, through the adapters of cache/adapters;
--   * the gateway (llm/gateway.py) asks its router for a provider, calls it under a deadline,
--     repeats a call whose failure may pass, with pauses that grow, falls back to the other
--     providers, reports to the router how each provider fared, and updates metrics;
--   * the router (llm/routing/router.py) keeps statistics of each provider and selects by them;
--   * the clients (llm/providers) make a request for a provider's API, through the shared pool of
--     llm/http/client.py, and turn the reply into a response or into one of llm/errors.py.
--
-- Which file models what:
--   * Prelude: names of the library passed on, Boolean tests, list, dictionary and integer helpers.
--   * Errors: the exceptions, and `Result` for a call that may raise. Exec: methods that change an
--     object, may raise and hold a loop. Floats: the numbers that the program has as floats, an
--     ordered structure with the laws that the proofs use. Text: Python's `strip`, `split`, `join`,
--     and the length of a text in characters and in UTF-8 bytes. Codec: `json`, SHA-256, `casefold`.
--   * Tracing: observability/tracing.py, with Once (many calls of it). Logging: core/logging.py.
--   * Settings: core/config.py. Llm.Models: llm/models.py and llm/protocol.py.
--   * Llm.Router: ProviderRouter, one function per method; a private helper or a step of a method is
--     a function of its own. The router's object is the record `Router`, its dictionary of statistics
--     an association list. The clock `monotonic()` is an argument. Below it: Lookup (what the methods
--     return when the dictionary has the provider), Select (what selection promises), Records and
--     History (the statistics as a summary of all that was reported).
--   * Llm.Gateway: LLMGateway of llm/gateway.py. `generate`, `generate_with_retry`,
--     `update_provider_metrics`, `ordered_providers` and `backoff` are the methods of those names; the
--     `except` clauses are `handle` and `react` for one attempt, `conclude` for one provider. State is
--     `GatewayState`: the router, the world, and logs of what was awaited and of the metrics. Below
--     it: State, Config (the constructor), Policy (the reliability policy as relations on what is
--     awaited), Publishing, Retry, Reports, Failover and Generate (the code follows the policy),
--     Shares, Bounds and Pauses (what the policy costs), Startup, and Concurrent: many requests at one gateway,
--     with Turns (the turns of a request are the parts of `generate`), Steps and Orders.
--   * Llm.Service: LLMGateway of llm/services/gateway.py, over one provider, with Valid.
--   * Llm.Factory: llm/factory.py; a built provider is a value of `Built`. Configured and Chain
--     say which are built.
--   * Llm.Json: JSON values. Llm.Http: HTTPClientPool, with Lifecycle. Llm.Providers: Chat is mistral.py
--     and groq.py, which have the same code; Mistral and Groq are their constructors; Gemini, Fake;
--     and Replies, Answers and GeminiReplies on what the clients make of a reply.
--   * Cache.Keys: cache/keys.py, with Distinct and Kinds (which keys differ). Cache.Counters,
--     Cache.TextStore and Cache.SessionStore: what the rate limiter, the semantic cache and the memory
--     rely on of their stores.
--   * Cache.RateLimiter: RateLimiter, with Windows (the limits over any sequence of requests),
--     Concurrent (checks that interleave between their three parts: `ask` reads the time, `begin` is
--     the store's run of the first increment, `finish` the rest) and Retry (when to come back). Cache.SemanticCache: SemanticCache, with Stored and
--     Kept. Cache.Memory: AgentMemory, with Recent.
--   * Cache.RedisCache: RedisCacheAdapter; its Counts and Texts make a `Counters` and a `TextStore` of
--     it, and Increment says what its `increment` does. Cache.RedisMemory: RedisSessionMemoryAdapter;
--     its Sessions makes a `SessionStore` of it. A script and a transaction are one step of the server.
--     Cache.Connections: `from_settings` and `close` of both. Cache.Shared: what any of the services asks
--     of the one Redis under them (`Operation` and `perform`), with Commands, Apart and Limit.
--   * Api.Auth: security/auth.py. Api.Dependencies: api/dependencies.py. Api.Generate:
--     api/routes/generate.py, with Served. Api.Middleware: api/middleware.py. Api.Health:
--     api/routes/health.py, with Ready. Guardrails: guardrails.
--   * Api.Routes: api/router.py and the routers of api/routes, with their paths and guards. Api.Serve: a
--     request that goes through the routes, the guards in front of them and the handlers, and many
--     requests one after the other; with Guarded (what the guards keep out), Replies (what an answer
--     may be) and Answers (every request has one). Main: `lifespan` of main.py, with Starts, App (`create_app`) and
--     Serves (the application that was started, as it serves).
--   * Tests: runs of the code, and the theorems applied to them, over concrete stand-ins.
--
-- Parameters. `World` is what is outside the gateway: the clocks, `asyncio.sleep`, and the awaited
-- call of a provider under its deadline, with any outcome; of it the proofs rely on
-- `perf_counter` never running backwards. `Network` is httpx; `Redis` is a Redis server behind its
-- client, where any command may fail before it is run, or lose its reply after, and `Separates` says
-- that its commands change the key that they name and no other; `connects`
-- what redis-py raises, or does not, of the options for a client; `validates_first` says whether FastAPI validates a payload before or after it runs the guards; `Codec` is Python's
-- `json`, SHA-256 and the foldings of case; `Service` of Api.Middleware the rest of the application;
-- `Secrets` the comparison of keys and SHA-256; `Floats` is arithmetic.
--
-- Fuel. The `while True` loop of `_generate_with_retry` is recursion on fuel, `max_retries + 1`
-- rounds; that this is enough is part of what is proved of it, and `none`, which stands for fuel that
-- ran out, is never the result.
--
-- Not modelled: trace spans and log lines, which the program does not read; integer and float
-- overflow (`2 ** attempt` is an exact number); reading the environment, of which `get_settings` is
-- told the outcome; the registration of the collectors with Prometheus, and the text that it makes of
-- them; what FastAPI replies to a request that no handler answers.
pub mod Prelude
pub mod Errors
pub mod Floats
pub mod Text
pub mod Exec
pub mod Settings
pub mod Codec
pub mod Llm
pub mod Cache
pub mod Api
pub mod Guardrails
pub mod Tracing
pub mod Logging
pub mod Main
mod Tests
