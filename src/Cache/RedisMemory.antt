-- ===== src/Cache/RedisMemory.antt =====
-- cache/adapters/redis_memory.py: RedisSessionMemoryAdapter.
pub mod Sessions
use nexus_ai_platform.Prelude.{ℕ, zero, suc, String, List, if◌then◌else◌}
use nexus_ai_platform.Prelude.Int.{ℤ, pos, negsuc, leb_ℤ, nat_of, negate}
use nexus_ai_platform.Errors.{Result, ok, raise, value_error}
use nexus_ai_platform.Cache.Redis.{Redis, Command, send}

module _ (redis : Redis) where
  open redis use {State}

  -- The pipeline, a transaction, which the server runs as one command.
  unfoldable pub append_trim_expire : String → String → ℤ → ℕ → State → Unit {0} × State
  append_trim_expire key value max_items ttl_seconds t = (
    tt,
    redis.expire key ttl_seconds
        (redis.ltrim key (negate max_items) (negsuc 0) (redis.rpush key value t)),
  )

  unfoldable pub append_bounded : String → String → ℤ → ℤ → State → Result (Unit {0}) × State
  append_bounded key value max_items ttl_seconds s =
      if leb_ℤ max_items (pos 0)
      then (raise (value_error "max_items must be positive"), s)
      else if leb_ℤ ttl_seconds (pos 0)
      then (raise (value_error "ttl_seconds must be positive"), s)
      else send redis (Command.append key value max_items ttl_seconds)
          (append_trim_expire key value max_items (nat_of ttl_seconds)) s

  unfoldable pub get_recent : String → ℤ → State → Result (List String) × State
  get_recent key max_items s =
      if leb_ℤ max_items (pos 0)
      then (raise (value_error "max_items must be positive"), s)
      else send redis (Command.lrange key (negate max_items) (negsuc 0))
          (λ t. (redis.lrange key (negate max_items) (negsuc 0) t, t)) s

  unfoldable pub delete : String → State → Result ℕ × State
  delete key s = send redis (Command.delete key) (redis.delete key) s
