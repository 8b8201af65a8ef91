-- ===== src/Cache/Connections.antt =====
-- How the two adapters of cache/adapters come by their client, and give it up. What redis-py checks of the
-- options, and raises of them, is a parameter; of a client the model has its options and whether it was
-- closed.
use nexus_ai_platform.Prelude.{String, Bool, true, false}
use nexus_ai_platform.Prelude.Int.{ℤ}
use nexus_ai_platform.Errors.{Result, ok, ◌>>◌}
use nexus_ai_platform.Settings.{Settings}

pub record Client (F : Type 0) : Type 0 where
  pub url : String
  pub max_connections : ℤ
  pub socket_connect_timeout : F
  pub socket_timeout : F
  pub health_check_interval : ℤ
  pub decode_responses : Bool
  pub closed : Bool

-- What either `from_settings` asks for.
abbrev pub options : {F : Type 0} → Settings F → Client F
options settings = record {
  url = settings.redis_url;
  max_connections = settings.redis_max_connections;
  socket_connect_timeout = settings.redis_connect_timeout_seconds;
  socket_timeout = settings.redis_socket_timeout_seconds;
  health_check_interval = settings.redis_health_check_interval_seconds;
  decode_responses = true;
  closed = false;
}

module _ {F : Type 0} (connects : Client F → Result (Unit {0})) where
  -- `RedisCacheAdapter.from_settings`
  unfoldable pub cache_client : Settings F → Result (Client F)
  cache_client settings = connects (options settings) >> ok (options settings)

  -- `RedisSessionMemoryAdapter.from_settings`
  unfoldable pub memory_client : Settings F → Result (Client F)
  memory_client settings = connects (options settings) >> ok (options settings)

-- `close` of either
unfoldable pub close_client : {F : Type 0} → Client F → Client F
close_client client = record client { closed = true }
