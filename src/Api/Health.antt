-- ===== src/Api/Health.antt =====
-- api/routes/health.py: the probes.
pub mod Ready
use nexus_ai_platform.Prelude.{ℕ, String, Bool, true, false, [], ◌∷◌, Dict}
use nexus_ai_platform.Errors.{Exception, Result, ok, raise}
use nexus_ai_platform.Cache.Redis.{Redis}
use nexus_ai_platform.Cache.RedisCache.{ping}

pub record JsonResponse : Type 0 where
  pub status_code : ℕ
  pub content : Dict String

-- What the application has as `cache_adapter`.
pub data CacheAdapter : Type 0 where
  missing adapter : CacheAdapter
  another_type : String → CacheAdapter

unfoldable pub health : Dict String
health = ("status", "ok") ∷ []

abbrev pub str_bool : Bool → String
str_bool true = "True"
str_bool false = "False"

-- `describe` gives `type(exc).__name__` and `str(exc)`.
unfoldable pub report_ping : (Exception → String × String) → Result Bool → JsonResponse
report_ping describe (ok result) = record {
  status_code = 200;
  content = ("status", "ready") ∷ ("cache", "ok") ∷ ("ping", str_bool result) ∷ [];
}
report_ping describe (raise e) = record {
  status_code = 503;
  content =
      ("status", "not_ready")
      ∷ ("reason", "cache_ping_failed")
      ∷ ("error", (describe e).0)
      ∷ ("message", (describe e).1)
      ∷ [];
}

unfoldable pub readiness :
    (redis : Redis)
    → (Exception → String × String)
    → CacheAdapter
    → redis.State
    → JsonResponse × redis.State
readiness redis describe missing s = (
  record {
    status_code = 503;
    content = ("status", "not_ready") ∷ ("reason", "cache_adapter_missing") ∷ [];
  },
  s,
)
readiness redis describe (another_type name) s = (
  record {
    status_code = 503;
    content =
        ("status", "not_ready") ∷ ("reason", "invalid_cache_adapter") ∷ ("cache_type", name) ∷ [];
  },
  s,
)
readiness redis describe adapter s =
    let (result, s') = ping redis s in (report_ping describe result, s')
