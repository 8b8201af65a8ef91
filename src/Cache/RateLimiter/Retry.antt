-- ===== src/Cache/RateLimiter/Retry.antt =====
-- When a refused caller is told to come back.
use nexus_ai_platform.Prelude.{ℕ, ◌+◌, ◌/◌, ◌≤◌, ◌<◌, Bool, true, false, ◌≡◌, ◌↔◌, arith, ◌⊎◌}
use nexus_ai_platform.Cache.RateLimiter.{retry_after}

-- After `d` more seconds the window of `width` seconds that `now` lies in has passed.
abbrev pub HasPassed : ℕ → ℕ → ℕ → Type 0
HasPassed width now d = now / width < (now + d) / width

-- The windows of the exceeded limits have all passed after `d` more seconds.
abbrev pub Reopens : Bool → Bool → ℕ → ℕ → Type 0
Reopens minute_exceeded hour_exceeded now d =
    ((minute_exceeded ≡ false) ⊎ HasPassed 60 now d)
    × ((hour_exceeded ≡ false) ⊎ HasPassed 3600 now d)

-- The windows of all the exceeded limits have passed after `d` more seconds exactly if `d` is at
-- least what a refused caller is told to wait; and that is at most an hour.
pub retry_after_least :
    (now d : ℕ) (minute_exceeded hour_exceeded : Bool)
    → (Reopens minute_exceeded hour_exceeded now d
        ↔ (retry_after now minute_exceeded hour_exceeded ≤ d))
      × (retry_after now minute_exceeded hour_exceeded ≤ 3600)
unfolding retry_after
retry_after_least now d true true = (ground arith, omega arith)
retry_after_least now d true false = (ground arith, omega arith)
retry_after_least now d false true = (ground arith, omega arith)
retry_after_least now d false false = (ground arith, omega arith)
