-- ===== src/Cache/RateLimiter.antt =====
-- cache/services/rate_limiter.py: fixed windows of a minute and an hour for each caller.
pub mod Retry
pub mod Windows
pub mod Concurrent
use nexus_ai_platform.Prelude.{
  ℕ, ◌+◌, ◌-◌, ◌/◌, ◌%◌, max, String, Bool, true, false, not, ◌&&◌, ltb, if◌then◌else◌,
}
use nexus_ai_platform.Prelude.Int.{ℤ, pos, leb_ℤ, ltb_ℤ}
use nexus_ai_platform.Errors.{Result, ok, raise, value_error, raise_if, ◌>>=◌, ◌>>◌}
use nexus_ai_platform.Settings.{Settings}
use nexus_ai_platform.Cache.Counters.{Counters}
use nexus_ai_platform.Cache.Keys.{rate_limit_minute_key, rate_limit_hour_key}

pub record RateLimitResult : Type 0 where
  pub allowed : Bool
  pub minute_count : ℕ
  pub hour_count : ℕ
  pub minute_limit : ℤ
  pub hour_limit : ℤ
  pub retry_after_seconds : ℕ

pub record RateLimiter : Type 0 where
  pub minute_limit : ℤ
  pub hour_limit : ℤ

abbrev pub minute_window_seconds : ℕ
minute_window_seconds = 60

abbrev pub hour_window_seconds : ℕ
hour_window_seconds = 3600

-- `__init__`
unfoldable pub new_rate_limiter : {F : Type 0} → Settings F → Result RateLimiter
new_rate_limiter settings = do
  raise_if (leb_ℤ settings.rate_limit_per_minute (pos 0))
      (value_error "rate limit per minute must be positive")
  raise_if (leb_ℤ settings.rate_limit_per_hour (pos 0))
      (value_error "rate limit per hour must be positive")
  ok (record {
    minute_limit = settings.rate_limit_per_minute;
    hour_limit = settings.rate_limit_per_hour;
  })

-- The seconds to wait, by which limits are exceeded.
unfoldable pub retry_after : ℕ → Bool → Bool → ℕ
retry_after now minute_exceeded hour_exceeded =
    let minute_retry =
      if minute_exceeded then minute_window_seconds - now % minute_window_seconds else 0 in
    let hour_retry = hour_window_seconds - now % hour_window_seconds in
    if hour_exceeded then max minute_retry hour_retry else minute_retry

-- `check`, after the two counters have been incremented.
unfoldable pub decide : RateLimiter → ℕ → ℕ → ℕ → RateLimitResult
decide limiter now minute_count hour_count =
    let minute_exceeded = ltb_ℤ limiter.minute_limit (pos minute_count) in
    let hour_exceeded = ltb_ℤ limiter.hour_limit (pos hour_count) in
    record {
      allowed = not minute_exceeded && not hour_exceeded;
      minute_count = minute_count;
      hour_count = hour_count;
      minute_limit = limiter.minute_limit;
      hour_limit = limiter.hour_limit;
      retry_after_seconds = retry_after now minute_exceeded hour_exceeded;
    }

module _ (store : Counters) where
  open store use {State, clock, increment}

  -- The hour's counter, after the minute's has returned `minute_count`.
  unfoldable pub count_hour : RateLimiter → String → ℕ → ℕ → State → Result RateLimitResult × State
  count_hour limiter user_id now minute_count s =
      let (hour, s') =
        increment (rate_limit_hour_key user_id (now / hour_window_seconds)) hour_window_seconds s in
      (hour >>= λ hour_count. ok (decide limiter now minute_count hour_count), s')

  abbrev pub and_hour : RateLimiter → String → ℕ → Result ℕ → State → Result RateLimitResult × State
  and_hour limiter user_id now (ok minute_count) s = count_hour limiter user_id now minute_count s
  and_hour limiter user_id now (raise e) s = (raise e, s)

  -- `check`: all within the second `now`, since nothing waits but for the two replies.
  unfoldable pub check : RateLimiter → String → State → Result RateLimitResult × State
  check limiter user_id s =
      let now = clock s in
      let (minute, s') =
        increment (rate_limit_minute_key user_id (now / minute_window_seconds))
          minute_window_seconds s in
      and_hour limiter user_id now minute s'
