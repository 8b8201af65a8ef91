-- ===== src/Cache/TextStore.antt =====
-- What the semantic cache relies on of its `CacheStore` (cache/adapters/protocol.py): texts that
-- expire. `text` is what a key holds, and `deadline` the second at which it may be dropped.
use nexus_ai_platform.Prelude.{
  ℕ, ◌+◌, ◌<◌, String, Bool, false, Option, none, some, ◌≡◌, ◌⊎◌, str_eq,
}
use nexus_ai_platform.Prelude.Int.{ℤ, pos}
use nexus_ai_platform.Errors.{Result, ok}

pub record TextStore : Type 1 where
  pub State : Type 0
  pub clock : State → ℕ
  pub text : State → String → Option String
  pub deadline : State → String → ℕ
  pub get : String → State → Result (Option String) × State
  pub set : String → String → ℤ → State → Result Bool × State
  pub delete : String → State → Result ℕ × State
  -- `wait d`: the passing of `d` seconds between two calls
  pub wait : ℕ → State → State
  -- A read that returns tells what the key holds, and no read changes anything.
  pub get_returns :
      (key : String) (s : State) (o : Option String) → (get key s).0 ≡ ok o → o ≡ text s key
  pub get_keeps :
      (key : String) (s : State) (j : String)
      → (text (get key s).1 j ≡ text s j) × (deadline (get key s).1 j ≡ deadline s j)
  pub get_clock : (key : String) (s : State) → clock (get key s).1 ≡ clock s
  -- A write that returns has written, for the whole time to live.
  pub set_returns :
      (key value : String) (ttl : ℕ) (s : State) (b : Bool)
      → (set key value (pos ttl) s).0 ≡ ok b
      → (text (set key value (pos ttl) s).1 key ≡ some value)
        × (deadline (set key value (pos ttl) s).1 key ≡ clock s + ttl)
        × (clock (set key value (pos ttl) s).1 ≡ clock s)
  -- One that raises has written or not; and no other key is touched.
  pub set_writes :
      (key value : String) (ttl : ℤ) (s : State)
      → (text (set key value ttl s).1 key ≡ some value)
        ⊎ (text (set key value ttl s).1 key ≡ text s key)
  pub set_other :
      (key value : String) (ttl : ℤ) (s : State) (j : String)
      → str_eq j key ≡ false
      → (text (set key value ttl s).1 j ≡ text s j)
        × (deadline (set key value ttl s).1 j ≡ deadline s j)
  -- A deletion that returns leaves the key empty, and none writes.
  pub delete_returns :
      (key : String) (s : State) (n : ℕ)
      → (delete key s).0 ≡ ok n
      → text (delete key s).1 key ≡ none
  pub delete_drops :
      (key : String) (s : State) (j : String)
      → (text (delete key s).1 j ≡ text s j) ⊎ (text (delete key s).1 j ≡ none)
  -- A text stays as it is before its deadline, and time makes no text.
  pub wait_keeps :
      (d : ℕ) (s : State) (j : String) → clock s + d < deadline s j → text (wait d s) j ≡ text s j
  pub wait_drops :
      (d : ℕ) (s : State) (j : String) → (text (wait d s) j ≡ text s j) ⊎ (text (wait d s) j ≡ none)
