-- ===== src/Cache/Counters.antt =====
-- What the rate limiter relies on of its `CacheStore` (cache/adapters/protocol.py): counters that
-- expire. `value` is the number that a key holds, 0 without one, and `deadline` the second at
-- which the key may be dropped. The seconds are those of the clock that `time()` reads.
use nexus_ai_platform.Prelude.{ℕ, suc, ◌+◌, ◌≤◌, ◌<◌, String, false, ◌≡◌, str_eq}
use nexus_ai_platform.Errors.{Result, ok}

pub record Counters : Type 1 where
  pub State : Type 0
  pub clock : State → ℕ
  pub value : State → String → ℕ
  pub deadline : State → String → ℕ
  pub increment : String → ℕ → State → Result ℕ × State
  -- `wait d`: the passing of `d` seconds between two requests
  pub wait : ℕ → State → State
  -- An increment that returns has added one, and returns the new number.
  pub increment_returns :
      (key : String) (ttl : ℕ) (s : State) (n : ℕ)
      → (increment key ttl s).0 ≡ ok n
      → (n ≡ value (increment key ttl s).1 key)
        × (value (increment key ttl s).1 key ≡ suc (value s key))
  -- No counter is lowered, also if the increment raises: the reply alone may be lost.
  pub increment_grows :
      (key : String) (ttl : ℕ) (s : State) (j : String)
      → value s j ≤ value (increment key ttl s).1 j
  -- No other counter is changed.
  pub increment_other :
      (key : String) (ttl : ℕ) (s : State) (j : String)
      → str_eq j key ≡ false
      → value (increment key ttl s).1 j ≡ value s j
  -- An existing counter keeps its deadline, and a new one has the whole time to live.
  pub increment_deadline :
      (key : String) (ttl : ℕ) (s : State) (j : String)
      → 0 < value s j
      → deadline (increment key ttl s).1 j ≡ deadline s j
  pub increment_creates :
      (key : String) (ttl : ℕ) (s : State) (j : String)
      → value s j ≡ 0
      → 0 < value (increment key ttl s).1 j
      → deadline (increment key ttl s).1 j ≡ clock s + ttl
  -- The store runs it at one instant of its clock; the time that a caller waits before and after is
  -- `wait`'s.
  pub increment_clock :
      (key : String) (ttl : ℕ) (s : State) → clock (increment key ttl s).1 ≡ clock s
  pub wait_clock : (d : ℕ) (s : State) → clock (wait d s) ≡ clock s + d
  -- A counter stays as it is before its deadline.
  pub wait_keeps :
      (d : ℕ) (s : State) (j : String)
      → clock s + d < deadline s j
      → (value (wait d s) j ≡ value s j) × (deadline (wait d s) j ≡ deadline s j)
  -- Time makes no counter.
  pub wait_drops : (d : ℕ) (s : State) (j : String) → value (wait d s) j ≤ value s j
  pub wait_deadline :
      (d : ℕ) (s : State) (j : String)
      → 0 < value (wait d s) j
      → deadline (wait d s) j ≡ deadline s j
