-- ===== src/Cache/RateLimiter/Windows/Raises.antt =====
-- What an allowed request has done to the counters of its windows.
use nexus_ai_platform.Prelude.{ℕ, suc, ◌/◌, ◌≤◌, String, true, false, ◌≡◌, refl, arith, ap}
use nexus_ai_platform.Prelude.Int.{ℤ, pos, ltb_ℤ}
use nexus_ai_platform.Errors.{Result, ok, raise, ◌>>=◌}
use nexus_ai_platform.Cache.Counters.{Counters}
use nexus_ai_platform.Cache.Keys.{rate_limit_minute_key, rate_limit_hour_key}
use nexus_ai_platform.Cache.RateLimiter.{RateLimiter, decide, check, count_hour, and_hour}
use nexus_ai_platform.Cache.RateLimiter.Windows.{
  Window, minute, hour, size, window_key, limit_of, is_allowed,
}

module _ (store : Counters) (limiter : RateLimiter) where
  open store use {State, clock, value, deadline}

  -- An allowed request has seen both counts within their limits.
  pub decided :
      (now n : ℕ) (hours : Result ℕ)
      → is_allowed (hours >>= λ m. ok (decide limiter now n m)) ≡ true
      → (m : ℕ) × (hours ≡ ok m)
        × (ltb_ℤ limiter.minute_limit (pos n) ≡ false)
        × (ltb_ℤ limiter.hour_limit (pos m) ≡ false)
  unfolding decide
  decided now n (ok m) h = (m, refl, ground arith, ground arith)
  decided now n (raise e) h = cc

  -- Both increments of an allowed request have returned, within the limits.
  abbrev Counted : String → State → Type 0
  Counted user_id s =
      let minutes = store.increment (rate_limit_minute_key user_id (clock s / 60)) 60 s in
      let hours = store.increment (rate_limit_hour_key user_id (clock s / 3600)) 3600 minutes.1 in
      (n m : ℕ) × (minutes.0 ≡ ok n)
      × (hours.0 ≡ ok m)
      × ((check store limiter user_id s).1 ≡ hours.1)
      × (ltb_ℤ limiter.minute_limit (pos n) ≡ false)
      × (ltb_ℤ limiter.hour_limit (pos m) ≡ false)

  allowed-Counted :
      (user_id : String) (s : State)
      → is_allowed (check store limiter user_id s).0 ≡ true
      → Counted user_id s
  unfolding check count_hour
  allowed-Counted user_id s h =
      counted (store.increment (rate_limit_minute_key user_id (clock s / 60)) 60 s) h
    where
      counted :
          (r : Result ℕ × State)
          → is_allowed (and_hour store limiter user_id (clock s) r.0 r.1).0 ≡ true
          → let hours = store.increment (rate_limit_hour_key user_id (clock s / 3600)) 3600 r.1 in
            (n m : ℕ) × (r.0 ≡ ok n)
            × (hours.0 ≡ ok m)
            × ((and_hour store limiter user_id (clock s) r.0 r.1).1 ≡ hours.1)
            × (ltb_ℤ limiter.minute_limit (pos n) ≡ false)
            × (ltb_ℤ limiter.hour_limit (pos m) ≡ false)
      counted (ok n, t) h =
          let (m, e, minute_fits, hour_fits) =
            decided (clock s) n
              (store.increment (rate_limit_hour_key user_id (clock s / 3600)) 3600 t).0 h in
          (n, m, refl, e, refl, minute_fits, hour_fits)
      counted (raise x, t) h = cc

  at_most : (limit : ℤ) (n l : ℕ) → limit ≡ pos l → ltb_ℤ limit (pos n) ≡ false → n ≤ l
  at_most limit n l e h = ground (arith, e)

  -- An allowed request has raised the counters of both its windows, which were below the limits.
  pub raises :
      (w : Window) (limit : ℕ) (user_id : String) (s : State)
      → limit_of w limiter ≡ pos limit
      → is_allowed (check store limiter user_id s).0 ≡ true
      → let key = window_key w user_id (clock s / size w) in
        (suc (value s key) ≤ value (check store limiter user_id s).1 key)
        × (suc (value s key) ≤ limit)
  raises minute limit user_id s max h =
      let (n, m, minutes, hours, last, fits, _) = allowed-Counted user_id s h in
      let key = rate_limit_minute_key user_id (clock s / 60) in
      let t = (store.increment key 60 s).1 in
      let (told, raised) = store.increment_returns key 60 s n minutes in
      let kept = store.increment_grows (rate_limit_hour_key user_id (clock s / 3600)) 3600 t key in
      let end = ap (λ x. value x key) last in
      let le = at_most limiter.minute_limit n limit max fits in (omega arith, omega arith)
  raises hour limit user_id s max h =
      let (n, m, minutes, hours, last, _, fits) = allowed-Counted user_id s h in
      let key = rate_limit_hour_key user_id (clock s / 3600) in
      let minute_key = rate_limit_minute_key user_id (clock s / 60) in
      let t = (store.increment minute_key 60 s).1 in
      let kept = store.increment_grows minute_key 60 s key in
      let (told, raised) = store.increment_returns key 3600 t m hours in
      let end = ap (λ x. value x key) last in
      let le = at_most limiter.hour_limit m limit max fits in (omega arith, omega arith)
