-- ===== src/Cache/RedisCache/Increment.antt =====
-- What `increment` does.
use nexus_ai_platform.Prelude.{
  ℕ, zero, suc, ◌+◌, String, false, ◌≡◌, sym, subst, ◌∙◌, inl, inr, arith, Bool-cases, eq_refl,
  ◌==◌, ==_iff, if◌then◌else◌,
}
use nexus_ai_platform.Prelude.Int.{ℤ, pos, negsuc, leb_ℤ}
use nexus_ai_platform.Errors.{Exception, Result, ok, raise}
use nexus_ai_platform.Cache.Redis.{Redis}
use nexus_ai_platform.Cache.RedisCache.{increment}
use nexus_ai_platform.Cache.RedisCache.Counts.{
  script, script_number, script_returns, script_creates, script_deadline, increment_elim,
}

not_positive : (n : ℕ) → leb_ℤ (negsuc n) (pos 0) ≡ false → ⊥
not_positive n h = ground arith

module _ (redis : Redis) where
  open redis use {State, text, number, deadline, clock}

  -- What an increment does to a counter: it adds one, and a new counter is given the time to live.
  abbrev pub Counted : String → ℕ → State → State → Type 0
  Counted key ttl s t =
      (number t key ≡ suc (number s key))
      × (deadline t key ≡ (if number s key == 0 then clock s + ttl else deadline s key))

  -- The call is refused for its time to live, or not run, and changes nothing; or it is run once,
  -- and returns the new number, unless the reply is lost.
  pub data IsIncrement (key : String) (s : State) : ℤ → Result ℕ × State → Type 0 where
    counted :
        (n : ℕ) (t : State)
        → Counted key (suc n) s t
        → IsIncrement key s (pos (suc n)) (ok (number t key), t)
    unanswered :
        (n : ℕ) (t : State) (e : Exception)
        → Counted key (suc n) s t
        → IsIncrement key s (pos (suc n)) (raise e, t)
    refused : (ttl : ℤ) (e : Exception) → IsIncrement key s ttl (raise e, s)

  script-Counted :
      (key : String) (ttl : ℕ) (s : State) → Counted key ttl s (script redis key ttl s).1
  script-Counted key ttl s =
      let one_more : number (script redis key ttl s).1 key ≡ suc (number s key) =
        rw (eq_refl key) at (script_number redis key ttl s key) in
      (
        one_more,
        elim (Bool-cases (number s key == 0)) [
          | inl new ↦
              rw new
                (script_creates redis key ttl s key ((==_iff (number s key) 0).0 new) (omega arith))
          | inr old ↦ rw old (script_deadline redis key ttl s key (ground (arith, old)))
        ],
      )

  -- Every call of `increment` adds one to the counter, gives a new counter the time to live, leaves
  -- the deadline of an old one, and returns the new number or loses the reply; or it raises and
  -- changes nothing, as it always does for a time to live that is not positive.
  pub increment-IsIncrement :
      (key : String) (ttl : ℤ) (s : State) → IsIncrement key s ttl (increment redis key ttl s)
  increment-IsIncrement key (pos (suc n)) s =
      increment_elim redis (IsIncrement key s (pos (suc n))) key (pos (suc n)) s
        (λ _. subst (λ m. IsIncrement key s (pos (suc n)) (ok m, t)) returned (counted n t effect))
        (λ _ e. unanswered n t e effect) (λ e. refused (pos (suc n)) e)
    where
      t : State
      t = (script redis key (suc n) s).1

      effect : Counted key (suc n) s t
      effect = script-Counted key (suc n) s

      returned : number t key ≡ (script redis key (suc n) s).0
      returned = effect.0 ∙ sym (script_returns redis key (suc n) s)
  increment-IsIncrement key (pos zero) s =
      increment_elim redis (IsIncrement key s (pos zero)) key (pos zero) s (λ positive. cc)
        (λ positive e. cc) (λ e. refused (pos zero) e)
  increment-IsIncrement key (negsuc n) s =
      increment_elim redis (IsIncrement key s (negsuc n)) key (negsuc n) s
        (λ positive. absurd (not_positive n positive))
        (λ positive e. absurd (not_positive n positive)) (λ e. refused (negsuc n) e)
