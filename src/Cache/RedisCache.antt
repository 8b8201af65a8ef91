-- ===== src/Cache/RedisCache.antt =====
-- cache/adapters/redis.py: RedisCacheAdapter. The client decodes every reply, so that what GET
-- returns is a text or nothing, and the adapter's test for another type always passes.
pub mod Counts
pub mod Increment
pub mod Texts
use nexus_ai_platform.Prelude.{
  ℕ, String, Bool, true, false, not, Option, none, some, ◌==◌, if◌then◌else◌,
}
use nexus_ai_platform.Prelude.Int.{ℤ, pos, leb_ℤ, nat_of}
use nexus_ai_platform.Errors.{Result, ok, raise, value_error}
use nexus_ai_platform.Cache.Redis.{Redis, Command, send}

module _ (redis : Redis) where
  open redis use {State}

  -- PING answers whenever the call is run.
  unfoldable pub ping : State → Result Bool × State
  ping s = send redis Command.ping (λ t. (true, t)) s

  unfoldable pub get : String → State → Result (Option String) × State
  get key s = send redis (Command.get key) (λ t. (redis.get key t, t)) s

  -- SET, once the time to live has passed the test
  unfoldable pub store_text : String → String → Option ℤ → State → Result Bool × State
  store_text key value ttl_seconds s =
      send redis (Command.set key value ttl_seconds)
        (λ t. (true, redis.set key value ttl_seconds t)) s

  unfoldable pub set : String → String → Option ℤ → State → Result Bool × State
  set key value none s = store_text key value none s
  set key value (some ttl_seconds) s =
      if leb_ℤ ttl_seconds (pos 0)
      then (raise (value_error "ttl_seconds must be positive"), s)
      else store_text key value (some ttl_seconds) s

  -- The script `_INCREMENT_WITH_TTL_SCRIPT`, which the server runs as one command.
  abbrev pub expire_first : String → ℕ → ℕ × State → ℕ × State
  expire_first key ttl (n, t) = if n == 1 then (n, redis.expire key ttl t) else (n, t)

  unfoldable pub increment_with_ttl : String → ℕ → State → ℕ × State
  increment_with_ttl key ttl t = expire_first key ttl (redis.incr key t)

  unfoldable pub increment : String → ℤ → State → Result ℕ × State
  increment key ttl_seconds s =
      if leb_ℤ ttl_seconds (pos 0)
      then (raise (value_error "ttl_seconds must be positive"), s)
      else send redis (Command.eval key ttl_seconds) (increment_with_ttl key (nat_of ttl_seconds)) s

  unfoldable pub ttl : String → State → Result ℤ × State
  ttl key s = send redis (Command.ttl key) (λ t. (redis.ttl key t, t)) s

  unfoldable pub delete : String → State → Result ℕ × State
  delete key s = send redis (Command.delete key) (redis.delete key) s

  unfoldable pub exists : String → State → Result Bool × State
  exists key s = send redis (Command.exists key) (λ t. (not (redis.exists key t == 0), t)) s
