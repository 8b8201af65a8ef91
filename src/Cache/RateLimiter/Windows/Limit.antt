-- ===== src/Cache/RateLimiter/Windows/Limit.antt =====
-- The limits of both windows.
use nexus_ai_platform.Prelude.{ℕ, ◌+◌, ◌<◌, String, ◌≡◌, arith, ◌==◌, ==_iff, Bool-cases, inl, inr}
use nexus_ai_platform.Cache.Counters.{Counters}
use nexus_ai_platform.Cache.RateLimiter.{RateLimiter}
use nexus_ai_platform.Cache.RateLimiter.Windows.{Window, window_key, closes}
use nexus_ai_platform.Cache.RateLimiter.Windows.Touches.{Touches, Outlives}

module _ (store : Counters) (limiter : RateLimiter) where
  open store use {State, clock, value, deadline}

  module _ (w : Window) (user : String) (bucket : ℕ) where
    -- While the window lasts, the passing of time changes nothing.
    pub wait_keeps_window :
        (d : ℕ) (s : State)
        → Outlives store limiter w user bucket s
        → clock s + d < closes w bucket
        → (value (store.wait d s) (window_key w user bucket) ≡ value s (window_key w user bucket))
          × Outlives store limiter w user bucket (store.wait d s)
    wait_keeps_window d s old early = elim (Bool-cases (value s key == 0)) [
      | inl e ↦
          let absent : value s key ≡ 0 = (==_iff _ _).0 e in
          (
            omega (arith, store.wait_drops d s key),
            λ there. absurd (omega (arith, store.wait_drops d s key)),
          )
      | inr e ↦
          let present : 0 < value s key = ground (arith, e) in
          let deadline_late = old present in
          let (same, kept) = store.wait_keeps d s key (omega arith) in (same, λ there. omega arith)
    ]
      where
        key : String
        key = window_key w user bucket
