-- ===== src/Cache/SessionStore.antt =====
-- What the agent's memory relies on of its `SessionMemoryStore`
-- (cache/adapters/memory_protocol.py): lists of texts that are cut to their last items.
use nexus_ai_platform.Prelude.{
  ℕ, suc, ◌+◌, ◌<◌, String, false, List, [], ◌∷◌, ◌++◌, ◌≡◌, str_eq, last_items,
}
use nexus_ai_platform.Prelude.Int.{ℤ, pos}
use nexus_ai_platform.Errors.{Result, ok}

pub record SessionStore : Type 1 where
  pub State : Type 0
  pub clock : State → ℕ
  pub items : State → String → List String
  pub deadline : State → String → ℕ
  pub append_bounded : String → String → ℤ → ℤ → State → Result (Unit {0}) × State
  pub get_recent : String → ℤ → State → Result (List String) × State
  pub delete : String → State → Result ℕ × State
  pub wait : ℕ → State → State
  -- An append that returns has added the text, cut the list, and started its time to live anew.
  pub append_items :
      (key value : String) (m n : ℕ) (s : State)
      → (append_bounded key value (pos (suc m)) (pos (suc n)) s).0 ≡ ok tt
      → let t = (append_bounded key value (pos (suc m)) (pos (suc n)) s).1 in
        (items t key ≡ last_items (suc m) (items s key ++ value ∷ []))
        × (deadline t key ≡ clock s + suc n)
        × (clock t ≡ clock s)
  pub append_other :
      (key value : String) (m n : ℤ) (s : State) (j : String)
      → str_eq j key ≡ false
      → items (append_bounded key value m n s).1 j ≡ items s j
  -- A read that returns gives the last items, and no read changes anything.
  pub get_recent_items :
      (key : String) (m : ℕ) (s : State) (values : List String)
      → (get_recent key (pos (suc m)) s).0 ≡ ok values
      → values ≡ last_items (suc m) (items s key)
  pub get_recent_keeps : (key : String) (m : ℤ) (s : State) → (get_recent key m s).1 ≡ s
  pub delete_items :
      (key : String) (s : State) (n : ℕ) → (delete key s).0 ≡ ok n → items (delete key s).1 key ≡ []
  pub wait_keeps :
      (d : ℕ) (s : State) (j : String)
      → clock s + d < deadline s j
      → (items (wait d s) j ≡ items s j) × (deadline (wait d s) j ≡ deadline s j)
  pub wait_clock : (d : ℕ) (s : State) → clock (wait d s) ≡ clock s + d
