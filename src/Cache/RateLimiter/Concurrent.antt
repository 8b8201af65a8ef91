-- ===== src/Cache/RateLimiter/Concurrent.antt =====
-- The checks of many requests, interleaved, in one worker or in several: a check reads the time, and
-- waits for the store before each of its two increments is run, and after it.
pub mod Limit
use nexus_ai_platform.Prelude.{
  ℕ, suc, ◌+◌, ◌-◌, ◌*◌, ◌/◌, ◌≤◌, ◌<◌, String, Bool, true, false, not, ◌&&◌, List, [], ◌∷◌, ◌++◌,
  ◌≡◌, refl, arith, ◌==◌, ltb→lt, str_eq, eq_iff, if◌then◌else◌, ltb, Bool-cases, ◌⊎◌, inl, inr,
  subst, ◌∙◌, ap, sym,
}
use nexus_ai_platform.Prelude.Int.{ℤ, pos, ltb_ℤ}
use nexus_ai_platform.Errors.{Result, ok, raise, ◌>>=◌}
use nexus_ai_platform.Cache.Counters.{Counters}
use nexus_ai_platform.Cache.Keys.{rate_limit_minute_key, rate_limit_hour_key}
use nexus_ai_platform.Cache.RateLimiter.{
  RateLimiter, RateLimitResult, decide, check, count_hour, and_hour,
}
use nexus_ai_platform.Cache.RateLimiter.Windows.{minute, is_allowed}
use nexus_ai_platform.Cache.RateLimiter.Windows.Touches.{
  Touches, touch_clock, touch_grows, touch-Outlives, Outlives,
}
use nexus_ai_platform.Cache.RateLimiter.Windows.Raises.{decided}
use nexus_ai_platform.Cache.RateLimiter.Windows.Limit.{wait_keeps_window}

-- A check that waits for its first increment: whose it is, and the second it read.
pub record Asking : Type 0 where
  pub user_id : String
  pub now : ℕ

-- A check after its first increment: also the second at which the store ran it, and the store's reply.
pub record Running : Type 0 where
  pub user_id : String
  pub now : ℕ
  pub counted_at : ℕ
  pub minute_reply : Result ℕ

abbrev pub one_if : Bool → ℕ
one_if b = if b then 1 else 0

module _ (store : Counters) (limiter : RateLimiter) where
  open store use {State, clock, value, deadline}

  -- The three parts of `check`: the time is read, the store runs the first increment, and the rest.
  abbrev pub ask : String → State → Asking
  ask user_id s = record { user_id = user_id; now = clock s }

  abbrev pub begin : Asking → State → Running × State
  begin a s =
      let (reply, t) = store.increment (rate_limit_minute_key a.user_id (a.now / 60)) 60 s in
      (record { user_id = a.user_id; now = a.now; counted_at = clock s; minute_reply = reply }, t)

  abbrev pub finish : Running → State → Result RateLimitResult × State
  finish r s = and_hour store limiter r.user_id r.now r.minute_reply s

  -- One part after the other, with nothing between, is the check.
  check-eq-finish :
      (user_id : String) (s : State)
      → check store limiter user_id s
        ≡ finish (begin (ask user_id s) s).0 (begin (ask user_id s) s).1
  unfolding check
  check-eq-finish user_id s = refl

  module _ (user : String) (bucket : ℕ) where
    abbrev key : String
    key = rate_limit_minute_key user bucket

    -- Is this the caller's check, which read a second of the window, and of which the store ran the first
    -- increment within the window?
    abbrev pub is_of : Running → Bool
    is_of r = str_eq r.user_id user && r.now / 60 == bucket && r.counted_at / 60 == bucket

    -- What the store, the checks that wait for their first increment, those that wait after it, and the
    -- number of such checks of the caller that have been allowed can come to, from a store without the
    -- window's counter: time passes, a check reads the time, the store runs the first increment of any
    -- that waits for it, any of the others goes on and ends, or the store is changed elsewhere than at
    -- the window's counter.
    pub data Reached : List Asking → List Running → ℕ → State → Type 0 where
      opened : {s : State} → 60 * bucket ≤ clock s → value s key ≡ 0 → Reached [] [] 0 s
      passes :
          {waiting : List Asking} {rs : List Running} {n : ℕ} {s : State} (d : ℕ)
          → Reached waiting rs n s
          → Reached waiting rs n (store.wait d s)
      elsewhere :
          {waiting : List Asking} {rs : List Running} {n : ℕ} {s : State} (t : State)
          → Reached waiting rs n s
          → clock t ≡ clock s
          → value t key ≡ value s key
          → deadline t key ≡ deadline s key
          → Reached waiting rs n t
      asks :
          {waiting : List Asking} {rs : List Running} {n : ℕ} {s : State} (user_id : String)
          → Reached waiting rs n s
          → Reached (ask user_id s ∷ waiting) rs n s
      begins :
          {rs : List Running} {n : ℕ} {s : State} (before : List Asking) (a : Asking)
          (after : List Asking)
          → Reached (before ++ a ∷ after) rs n s
          → Reached (before ++ after) ((begin a s).0 ∷ rs) n (begin a s).1
      ends :
          {waiting : List Asking} {n : ℕ} {s : State} (before : List Running) (r : Running)
          (after : List Running)
          → Reached waiting (before ++ r ∷ after) n s
          → Reached waiting
              (before ++ after)
              (n + one_if (is_allowed (finish r s).0 && is_of r))
              (finish r s).1
