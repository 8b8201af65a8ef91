-- ===== src/Cache/RateLimiter/Windows.antt =====
-- What is counted of a caller's requests in a window, over any sequence of requests of any callers.
pub mod Touches
pub mod Raises
pub mod Limit
use nexus_ai_platform.Prelude.{
  ℕ, suc, ◌+◌, ◌-◌, ◌*◌, ◌/◌, ◌≤◌, ◌<◌, String, Bool, true, false, ◌&&◌, List, [], ◌∷◌, ◌≡◌, refl,
  arith, ◌==◌, ==_iff, ltb→lt, str_eq, eq_iff, if◌then◌else◌, ltb, Bool-cases, ◌⊎◌, inl, inr, subst,
  ◌∙◌, ap,
}
use nexus_ai_platform.Prelude.Int.{ℤ, pos, ltb_ℤ}
use nexus_ai_platform.Errors.{Result, ok, raise, ◌>>=◌}
use nexus_ai_platform.Cache.Counters.{Counters}
use nexus_ai_platform.Cache.Keys.{rate_limit_minute_key, rate_limit_hour_key}
use nexus_ai_platform.Cache.Keys.Distinct.{hour-minute}
use nexus_ai_platform.Cache.RateLimiter.{
  RateLimiter, RateLimitResult, decide, check, count_hour, and_hour,
}

-- What happens to the store: time passes, or a caller sends a request.
pub data Event : Type 0 where
  passes : ℕ → Event
  requests : String → Event

pub data Window : Type 0 where
  minute hour : Window

abbrev pub size : Window → ℕ
size minute = 60
size hour = 3600

abbrev pub window_key : Window → String → ℕ → String
window_key minute user bucket = rate_limit_minute_key user bucket
window_key hour user bucket = rate_limit_hour_key user bucket

abbrev pub limit_of : Window → RateLimiter → ℤ
limit_of minute limiter = limiter.minute_limit
limit_of hour limiter = limiter.hour_limit

-- The seconds at which the window of that number begins, and ends.
abbrev pub opens : Window → ℕ → ℕ
opens minute bucket = 60 * bucket
opens hour bucket = 3600 * bucket

abbrev pub closes : Window → ℕ → ℕ
closes minute bucket = 60 * (bucket + 1)
closes hour bucket = 3600 * (bucket + 1)

abbrev pub is_allowed : Result RateLimitResult → Bool
is_allowed (ok r) = r.allowed
is_allowed (raise e) = false

module _ (store : Counters) (limiter : RateLimiter) where
  open store use {State, clock, value, deadline}

  module _ (w : Window) (user : String) (bucket : ℕ) where
    -- Is this a request of the caller, in the window, and allowed?
    abbrev pub admits : String → State → Bool
    admits user_id s =
        is_allowed (check store limiter user_id s).0
        && str_eq user_id user
        && clock s / size w == bucket

    -- How many requests of the caller `user` are allowed in the window of the number `bucket`.
    unfoldable pub admitted : List Event → State → ℕ
    admitted [] s = 0
    admitted (passes d ∷ events) s = admitted events (store.wait d s)
    admitted (requests user_id ∷ events) s =
        (if admits user_id s then 1 else 0) + admitted events (check store limiter user_id s).1
