-- ===== src/Api/Health/Ready.antt =====
-- When the readiness probe says that the instance is ready.
use nexus_ai_platform.Prelude.{ℕ, String, Bool, true, ◌≡◌, refl}
use nexus_ai_platform.Errors.{Exception, Result, ok}
use nexus_ai_platform.Cache.Redis.{Redis, Command, send-elim}
use nexus_ai_platform.Cache.RedisCache.{ping}
use nexus_ai_platform.Api.Health.{
  CacheAdapter, missing, adapter, another_type, report_ping, readiness,
}

-- The status of a probe that is ready or not.
pub data IsProbe (ready : Type 0) : ℕ → Type 0 where
  up : ready → IsProbe ready 200
  down : (ready → ⊥) → IsProbe ready 503

module _ (redis : Redis) (describe : Exception → String × String) where
  -- The probe answers 200 if the application's cache adapter is the Redis one and its ping returns,
  -- and 503 if not.
  pub readiness-IsProbe :
      (cache : CacheAdapter) (s : redis.State)
      → IsProbe
          ((cache ≡ adapter) × ((ping redis s).0 ≡ ok true))
          (readiness redis describe cache s).0.status_code
  unfolding readiness report_ping ping
  readiness-IsProbe missing s = down (λ h. cc h.0)
  readiness-IsProbe (another_type name) s = down (λ h. cc h.0)
  readiness-IsProbe adapter s =
      send-elim redis
        (λ (x : Result Bool × redis.State).
          IsProbe ((adapter ≡ adapter) × (x.0 ≡ ok true)) (report_ping describe x.0).status_code)
        Command.ping (λ t. (true, t)) s (up (refl, refl)) (λ e. down (λ h. cc h.1))
        (λ e. down (λ h. cc h.1))
