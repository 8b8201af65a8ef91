-- ===== src/Api/Dependencies.antt =====
-- api/dependencies.py: the rate limit's enforcement, with the limiter that the application has.
use Prim.Native.String.{◌++◌ as ◌<>◌}
use nexus_ai_platform.Prelude.{
  ℕ, ◌+◌, ◌-◌, ◌/◌, ◌≤◌, String, Bool, true, false, Option, none, some, [], ◌∷◌, ◌≡◌, refl, arith,
  Dict, lookup, Bool-cases, inl, inr, ◌⊎◌, ◌||◌,
}
use nexus_ai_platform.Prelude.Int.{ℤ, pos, negsuc, ltb_ℤ, ◌≤ℤ◌}
use nexus_ai_platform.Errors.{Exception, Result, ok, raise, http_exception, runtime_error, ◌>>=◌}
use nexus_ai_platform.Cache.Counters.{Counters}
use nexus_ai_platform.Cache.Keys.{str, rate_limit_hour_key}
use nexus_ai_platform.Cache.RateLimiter.{
  RateLimiter, RateLimitResult, check, decide, retry_after, count_hour, and_hour,
  hour_window_seconds,
}

-- `str` of an integer
unfoldable pub str_ℤ : ℤ → String
str_ℤ (pos n) = str n
str_ℤ (negsuc n) = "-" <> str (n + 1)

-- `max(0, limit - count)`
unfoldable pub remaining : ℤ → ℕ → ℕ
remaining (pos limit) n = limit - n
remaining (negsuc _) n = 0

-- `getattr(request.app.state, "rate_limiter", None)`, and whether it is a limiter.
unfoldable pub get_rate_limiter : Option RateLimiter → Result RateLimiter
get_rate_limiter none = raise (runtime_error "rate limiter is not initialized")
get_rate_limiter (some limiter) = ok limiter

-- `headers`
unfoldable pub refusal_headers : RateLimitResult → Dict String
refusal_headers result =
    ("Retry-After", str result.retry_after_seconds)
    ∷ ("X-RateLimit-Limit-Minute", str_ℤ result.minute_limit)
    ∷ ("X-RateLimit-Remaining-Minute", str (remaining result.minute_limit result.minute_count))
    ∷ ("X-RateLimit-Limit-Hour", str_ℤ result.hour_limit)
    ∷ ("X-RateLimit-Remaining-Hour", str (remaining result.hour_limit result.hour_count))
    ∷ []

-- What follows the check.
unfoldable pub answer : RateLimitResult → Result (Unit {0})
answer result = elim result.allowed [
  | true ↦ ok tt
  | false ↦ raise (http_exception 429 "rate limit exceeded" (refusal_headers result))
]

module _ (store : Counters) where
  open store use {State}

  unfoldable pub enforce_rate_limit :
      Option RateLimiter → String → State → Result (Unit {0}) × State
  enforce_rate_limit app_limiter caller_id s = elim (get_rate_limiter app_limiter) [
    | raise e ↦ (raise e, s)
    | ok limiter ↦ let (r, s') = check store limiter caller_id s in (r >>= answer, s')
  ]

-- What the enforcement comes to, given what the check came to: the store's exception; nothing, if
-- both counters are within their limits; or, if one is not, status 429 with the seconds after
-- which to come back, from one to an hour.
pub data IsEnforced (limiter : RateLimiter)
    : Result RateLimitResult → Result (Unit {0}) → Type 0 where
  lost : (e : Exception) → IsEnforced limiter (raise e) (raise e)
  passed :
      (result : RateLimitResult)
      → pos result.minute_count ≤ℤ limiter.minute_limit
      → pos result.hour_count ≤ℤ limiter.hour_limit
      → IsEnforced limiter (ok result) (ok tt)
  refused :
      (result : RateLimitResult) (seconds : ℕ) (headers : Dict String)
      → (ltb_ℤ limiter.minute_limit (pos result.minute_count) ≡ true)
        ⊎ (ltb_ℤ limiter.hour_limit (pos result.hour_count) ≡ true)
      → lookup "Retry-After" headers ≡ some (str seconds)
      → 1 ≤ seconds
      → seconds ≤ 3600
      → IsEnforced limiter (ok result) (raise (http_exception 429 "rate limit exceeded" headers))

retry_after_bounds :
    (now : ℕ) (m h : Bool)
    → (m || h) ≡ true
    → (1 ≤ retry_after now m h) × (retry_after now m h ≤ 3600)
unfolding retry_after
retry_after_bounds now true true e = (omega arith, omega arith)
retry_after_bounds now true false e = (omega arith, omega arith)
retry_after_bounds now false true e = (omega arith, omega arith)
retry_after_bounds now false false e = cc

lookup-refusal_headers :
    (result : RateLimitResult)
    → lookup "Retry-After" (refusal_headers result) ≡ some (str result.retry_after_seconds)
unfolding lookup refusal_headers
lookup-refusal_headers result = refl

refusal :
    (limiter : RateLimiter) (result : RateLimitResult)
    → (ltb_ℤ limiter.minute_limit (pos result.minute_count) ≡ true)
      ⊎ (ltb_ℤ limiter.hour_limit (pos result.hour_count) ≡ true)
    → (1 ≤ result.retry_after_seconds) × (result.retry_after_seconds ≤ 3600)
    → IsEnforced limiter
        (ok result)
        (raise (http_exception 429 "rate limit exceeded" (refusal_headers result)))
refusal limiter result over bounds =
    refused result result.retry_after_seconds (refusal_headers result) over
      (lookup-refusal_headers result) bounds.0 bounds.1

decide-IsEnforced :
    (limiter : RateLimiter) (now minutes hours : ℕ)
    → IsEnforced limiter
        (ok (decide limiter now minutes hours))
        (answer (decide limiter now minutes hours))
unfolding decide answer
decide-IsEnforced limiter now minutes hours =
    split (Bool-cases (ltb_ℤ limiter.minute_limit (pos minutes)))
      (Bool-cases (ltb_ℤ limiter.hour_limit (pos hours)))
  where
    within : (limit : ℤ) (n : ℕ) → ltb_ℤ limit (pos n) ≡ false → pos n ≤ℤ limit
    within limit n e = ground arith

    split :
        (ltb_ℤ limiter.minute_limit (pos minutes) ≡ true)
          ⊎ (ltb_ℤ limiter.minute_limit (pos minutes) ≡ false)
        → (ltb_ℤ limiter.hour_limit (pos hours) ≡ true)
          ⊎ (ltb_ℤ limiter.hour_limit (pos hours) ≡ false)
        → IsEnforced limiter
            (ok (decide limiter now minutes hours))
            (answer (decide limiter now minutes hours))
    split (inl m) (inl h) =
        rw (m, h) (refusal limiter _ (inl m) (retry_after_bounds now true true refl))
    split (inl m) (inr h) =
        rw (m, h) (refusal limiter _ (inl m) (retry_after_bounds now true false refl))
    split (inr m) (inl h) =
        rw (m, h) (refusal limiter _ (inr h) (retry_after_bounds now false true refl))
    split (inr m) (inr h) =
        rw (m, h)
          (passed _ (within limiter.minute_limit minutes m) (within limiter.hour_limit hours h))

module _ (store : Counters) where
  open store use {State}

  count_hour-IsEnforced :
      (limiter : RateLimiter) (caller_id : String) (now minutes : ℕ) (s : State)
      → let r = (count_hour store limiter caller_id now minutes s).0 in
        IsEnforced limiter r (r >>= answer)
  unfolding count_hour
  count_hour-IsEnforced limiter caller_id now minutes s =
      hour
        (store.increment (rate_limit_hour_key caller_id (now / hour_window_seconds))
          hour_window_seconds s).0
    where
      hour :
          (n : Result ℕ)
          → IsEnforced limiter
              (n >>= λ hours. ok (decide limiter now minutes hours))
              ((n >>= λ hours. ok (decide limiter now minutes hours)) >>= answer)
      hour (ok hours) = decide-IsEnforced limiter now minutes hours
      hour (raise e) = lost e

  and_hour-IsEnforced :
      (limiter : RateLimiter) (caller_id : String) (now : ℕ) (n : Result ℕ) (s : State)
      → let r = (and_hour store limiter caller_id now n s).0 in IsEnforced limiter r (r >>= answer)
  and_hour-IsEnforced limiter caller_id now (ok minutes) s =
      count_hour-IsEnforced limiter caller_id now minutes s
  and_hour-IsEnforced limiter caller_id now (raise e) s = lost e

  -- With a limiter that is set up, `enforce_rate_limit` leaves the store as the check does. It
  -- raises what the check raises; it lets the request pass only if both counters are within their
  -- limits; and else it raises status 429, with a header `Retry-After` of 1 to 3600 seconds.
  pub enforce_rate_limit-IsEnforced :
      (limiter : RateLimiter) (caller_id : String) (s : State)
      → IsEnforced limiter
          (check store limiter caller_id s).0
          (enforce_rate_limit store (some limiter) caller_id s).0
        × ((enforce_rate_limit store (some limiter) caller_id s).1
            ≡ (check store limiter caller_id s).1)
  unfolding enforce_rate_limit get_rate_limiter check
  enforce_rate_limit-IsEnforced limiter caller_id s =
      (and_hour-IsEnforced limiter caller_id (store.clock s) _ _, refl)
