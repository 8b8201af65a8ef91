-- ===== src/Cache/RateLimiter/Windows/Touches.antt =====
-- What a check does to the counter of a window.
use nexus_ai_platform.Prelude.{
  ℕ, ◌+◌, ◌/◌, ◌≤◌, ◌<◌, String, false, ◌≡◌, arith, ◌==◌, ==_iff, str_eq, Bool-cases, ◌⊎◌, inl, inr,
  ◌∙◌,
}
use nexus_ai_platform.Cache.Counters.{Counters}
use nexus_ai_platform.Cache.Keys.{rate_limit_minute_key}
use nexus_ai_platform.Cache.Keys.Distinct.{hour-minute}
use nexus_ai_platform.Cache.RateLimiter.{RateLimiter}
use nexus_ai_platform.Cache.RateLimiter.Windows.{
  Window, minute, hour, size, window_key, opens, closes,
}

pub closes-eq-opens : (w : Window) (bucket : ℕ) → closes w bucket ≡ opens w bucket + size w
closes-eq-opens minute bucket = omega arith
closes-eq-opens hour bucket = omega arith

pub in_window : (w : Window) (bucket now : ℕ) → (now / size w) ≡ bucket → now < closes w bucket
in_window minute bucket now e = omega arith
in_window hour bucket now e = omega arith

pub minute_long :
    (w : Window) (user : String) (bucket : ℕ) (user_id : String) (now : ℕ)
    → (size w ≤ 60)
      ⊎ (str_eq (window_key w user bucket) (rate_limit_minute_key user_id now) ≡ false)
minute_long minute user bucket user_id now = inl (omega arith)
minute_long hour user bucket user_id now = inr (hour-minute user user_id bucket now)

pub hour_long : (w : Window) → size w ≤ 3600
hour_long minute = omega arith
hour_long hour = omega arith

module _ (store : Counters) (limiter : RateLimiter) where
  open store use {State, clock, value, deadline}

  module _ (w : Window) (user : String) (bucket : ℕ) where
    abbrev pub counter : String
    counter = window_key w user bucket

    -- A check goes through increments of keys, which give the window's counter the time of the
    -- window at least.
    pub data Touches : State → State → Type 0 where
      once :
          (j : String) (ttl : ℕ) (s : State)
          → (size w ≤ ttl) ⊎ (str_eq counter j ≡ false)
          → Touches s (store.increment j ttl s).1
      twice : {s t u : State} → Touches s t → Touches t u → Touches s u

    pub touch_clock : {s t : State} → Touches s t → clock t ≡ clock s
    touch_clock (once j ttl s h) = store.increment_clock j ttl s
    touch_clock (twice h k) = touch_clock k ∙ touch_clock h

    pub touch_grows : {s t : State} → Touches s t → value s counter ≤ value t counter
    touch_grows (once j ttl s h) = store.increment_grows j ttl s counter
    touch_grows (twice h k) = omega (arith, touch_grows h, touch_grows k)

    -- The window's counter, if there is one, outlives the window.
    abbrev pub Outlives : State → Type 0
    Outlives s = 0 < value s counter → closes w bucket ≤ deadline s counter

    pub touch-Outlives :
        {s t : State} → Touches s t → opens w bucket ≤ clock s → Outlives s → Outlives t
    touch-Outlives (once j ttl s long) late old = λ there.
        elim (Bool-cases (value s counter == 0)) [
          | inr e ↦
              let present : 0 < value s counter = ground (arith, e) in
              omega (arith, old present, store.increment_deadline j ttl s counter present)
          | inl e ↦
              let absent : value s counter ≡ 0 = (==_iff _ _).0 e in
              elim long [
                | inl whole ↦ omega (
                  arith,
                  store.increment_creates j ttl s counter absent there,
                  closes-eq-opens w bucket,
                )
                | inr other ↦ absurd (omega (arith, store.increment_other j ttl s counter other))
              ]
        ]
    touch-Outlives (twice h k) late old =
        touch-Outlives k (omega (arith, touch_clock h)) (touch-Outlives h late old)
