-- ===== src/Cache/RedisCache/Counts.antt =====
-- The adapter's `increment` makes the counters that the rate limiter relies on.
use nexus_ai_platform.Prelude.{
  ℕ, suc, ◌+◌, ◌≤◌, ◌<◌, String, true, false, ◌≡◌, refl, ap, sym, ◌∙◌, ◌⊎◌, inl, inr, arith,
  Bool-cases, str_eq, eq_iff, eq_refl, ◌==◌, ==_iff, if◌then◌else◌, if_elim,
}
use nexus_ai_platform.Prelude.Int.{ℤ, pos, leb_ℤ, nat_of}
use nexus_ai_platform.Errors.{Exception, Result, ok, raise, ok-injective}
use nexus_ai_platform.Cache.Counters.{Counters}
use nexus_ai_platform.Cache.Redis.{Redis, Command, send-elim}
use nexus_ai_platform.Cache.RedisCache.{increment_with_ttl, increment}

module _ (redis : Redis) where
  open redis use {State, text, number, deadline, clock}

  -- The script: one more, and a deadline for the first.
  abbrev pub script : String → ℕ → State → ℕ × State
  script = increment_with_ttl redis

  pub script_number :
      (key : String) (ttl : ℕ) (s : State) (j : String)
      → number (script key ttl s).1 j ≡ (if str_eq j key then suc (number s j) else number s j)
  unfolding increment_with_ttl
  script_number key ttl s j = elim (Bool-cases ((redis.incr key s).0 == 1)) [
    | inl first ↦
        rw first (redis.expire_number key ttl (redis.incr key s).1 j ∙ redis.incr_number key s j)
    | inr later ↦ rw later (redis.incr_number key s j)
  ]

  pub script_returns :
      (key : String) (ttl : ℕ) (s : State) → (script key ttl s).0 ≡ suc (number s key)
  unfolding increment_with_ttl
  script_returns key ttl s = elim (Bool-cases ((redis.incr key s).0 == 1)) [
    | inl first ↦ rw first (redis.incr_returns key s)
    | inr later ↦ rw later (redis.incr_returns key s)
  ]

  script_clock : (key : String) (ttl : ℕ) (s : State) → clock (script key ttl s).1 ≡ clock s
  unfolding increment_with_ttl
  script_clock key ttl s = elim (Bool-cases ((redis.incr key s).0 == 1)) [
    | inl first ↦
        rw first (redis.expire_clock key ttl (redis.incr key s).1 ∙ redis.incr_clock key s)
    | inr later ↦ rw later (redis.incr_clock key s)
  ]

  -- A counter that exists keeps its deadline.
  pub script_deadline :
      (key : String) (ttl : ℕ) (s : State) (j : String)
      → 0 < number s j
      → deadline (script key ttl s).1 j ≡ deadline s j
  unfolding increment_with_ttl
  script_deadline key ttl s j there = elim (Bool-cases ((redis.incr key s).0 == 1)) [
    | inl first ↦
        let none_yet : number s key ≡ 0 =
          omega (arith, (==_iff (redis.incr key s).0 1).0 first, redis.incr_returns key s) in
        rw first (
          redis.expire_deadline key ttl (redis.incr key s).1 j
          ∙ other none_yet (Bool-cases (str_eq j key))
          ∙ redis.incr_deadline key s j there)
    | inr later ↦ rw later (redis.incr_deadline key s j there)
  ]
    where
      other :
          number s key ≡ 0
          → (str_eq j key ≡ true) ⊎ (str_eq j key ≡ false)
          → (if str_eq j key
              then clock (redis.incr key s).1 + ttl
              else deadline (redis.incr key s).1 j)
            ≡ deadline (redis.incr key s).1 j
      other e (inl same) = absurd (omega (arith, ap (number s) ((eq_iff j key).0 same)))
      other e (inr differ) = rw differ

  -- A new counter has the whole time to live.
  pub script_creates :
      (key : String) (ttl : ℕ) (s : State) (j : String)
      → number s j ≡ 0
      → 0 < number (script key ttl s).1 j
      → deadline (script key ttl s).1 j ≡ clock s + ttl
  unfolding increment_with_ttl
  script_creates key ttl s j empty there = elim (Bool-cases (str_eq j key)) [
    | inr differ ↦ absurd (omega (arith, (rw differ at (script_number key ttl s j))))
    | inl same ↦
        let none_yet : number s key ≡ 0 = ap (number s) (sym ((eq_iff j key).0 same)) ∙ empty in
        let first : ((redis.incr key s).0 == 1) ≡ true =
          (==_iff (redis.incr key s).0 1).1 (omega (arith, redis.incr_returns key s)) in
        rw first (
          redis.expire_deadline key ttl (redis.incr key s).1 j
          ∙ (rw same (ap (λ t. t + ttl) (redis.incr_clock key s))))
  ]

  pub increment_elim {κ} :
      (P : Result ℕ × State → Type κ) (key : String) (ttl : ℤ) (s : State)
      → (leb_ℤ ttl (pos 0) ≡ false
          → P (ok (script key (nat_of ttl) s).0, (script key (nat_of ttl) s).1))
      → (leb_ℤ ttl (pos 0) ≡ false → (e : Exception) → P (raise e, (script key (nat_of ttl) s).1))
      → ((e : Exception) → P (raise e, s))
      → P (increment redis key ttl s)
  unfolding increment
  increment_elim P key ttl s done lost kept = if_elim P (leb_ℤ ttl (pos 0)) (kept _) (λ positive.
      send-elim redis P (Command.eval key ttl) (script key (nat_of ttl)) s (done positive)
        (lost positive) kept)

  -- The counters that the rate limiter is built on.
  abbrev pub incremented : String → ℕ → State → Result ℕ × State
  incremented key ttl s = increment redis key (pos ttl) s

  pub incremented_returns :
      (key : String) (ttl : ℕ) (s : State) (n : ℕ)
      → (incremented key ttl s).0 ≡ ok n
      → (n ≡ number (incremented key ttl s).1 key)
        × (number (incremented key ttl s).1 key ≡ suc (number s key))
  incremented_returns key ttl s n =
      increment_elim
        (λ (x : Result ℕ × State).
          x.0 ≡ ok n → (n ≡ number x.1 key) × (number x.1 key ≡ suc (number s key)))
        key (pos ttl) s
        (λ _ e.
          let p = ok-injective _ n e in
          let q : number (script key ttl s).1 key ≡ suc (number s key) =
            rw (eq_refl key) at (script_number key ttl s key) in
          (sym p ∙ script_returns key ttl s ∙ sym q, q))
        (λ _ x e. absurd (cc e)) (λ x e. absurd (cc e))

  pub incremented_grows :
      (key : String) (ttl : ℕ) (s : State) (j : String)
      → number s j ≤ number (incremented key ttl s).1 j
  incremented_grows key ttl s j =
      increment_elim (λ (x : Result ℕ × State). number s j ≤ number x.1 j) key (pos ttl) s
        (λ _. grows) (λ _ _. grows) (λ _. omega arith)
    where
      grows : number s j ≤ number (script key ttl s).1 j
      grows = ground (arith, script_number key ttl s j)

  pub incremented_other :
      (key : String) (ttl : ℕ) (s : State) (j : String)
      → str_eq j key ≡ false
      → number (incremented key ttl s).1 j ≡ number s j
  incremented_other key ttl s j differ =
      increment_elim (λ (x : Result ℕ × State). number x.1 j ≡ number s j) key (pos ttl) s
        (λ _. same) (λ _ _. same) (λ _. refl)
    where
      same : number (script key ttl s).1 j ≡ number s j
      same = rw differ at (script_number key ttl s j)

  pub incremented_deadline :
      (key : String) (ttl : ℕ) (s : State) (j : String)
      → 0 < number s j
      → deadline (incremented key ttl s).1 j ≡ deadline s j
  incremented_deadline key ttl s j there =
      increment_elim (λ (x : Result ℕ × State). deadline x.1 j ≡ deadline s j) key (pos ttl) s
        (λ _. script_deadline key ttl s j there) (λ _ _. script_deadline key ttl s j there)
        (λ _. refl)

  pub incremented_creates :
      (key : String) (ttl : ℕ) (s : State) (j : String)
      → number s j ≡ 0
      → 0 < number (incremented key ttl s).1 j
      → deadline (incremented key ttl s).1 j ≡ clock s + ttl
  incremented_creates key ttl s j empty =
      increment_elim (λ (x : Result ℕ × State). 0 < number x.1 j → deadline x.1 j ≡ clock s + ttl)
        key (pos ttl) s (λ _. script_creates key ttl s j empty)
        (λ _ _. script_creates key ttl s j empty) (λ _ there. absurd (omega arith))

  pub incremented_clock :
      (key : String) (ttl : ℕ) (s : State) → clock (incremented key ttl s).1 ≡ clock s
  incremented_clock key ttl s =
      increment_elim (λ (x : Result ℕ × State). clock x.1 ≡ clock s) key (pos ttl) s
        (λ _. script_clock key ttl s) (λ _ _. script_clock key ttl s) (λ _. refl)

  -- The adapter's `increment`, as the rate limiter uses it.
  abbrev pub counters : Counters
  counters = record {
    State = State;
    clock = clock;
    value = number;
    deadline = deadline;
    increment = incremented;
    wait = redis.wait;
    increment_returns = incremented_returns;
    increment_grows = incremented_grows;
    increment_other = incremented_other;
    increment_deadline = incremented_deadline;
    increment_creates = incremented_creates;
    increment_clock = incremented_clock;
    wait_clock = redis.wait_clock;
    wait_keeps = λ d s j h. let (_, e, _, f) = redis.wait_keeps d s j h in (e, f);
    wait_drops = redis.wait_number;
    wait_deadline = redis.wait_deadline;
  }
