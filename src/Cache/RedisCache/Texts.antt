-- ===== src/Cache/RedisCache/Texts.antt =====
-- The adapter's `get`, `set` and `delete` are the texts that the semantic cache relies on.
use nexus_ai_platform.Prelude.{
  ℕ, ◌+◌, String, Bool, true, false, Option, none, some, ◌≡◌, refl, ap, sym, ◌⊎◌, inl, inr, arith,
  Bool-cases, str_eq, eq_refl, if_elim,
}
use nexus_ai_platform.Prelude.Int.{ℤ, pos, negsuc, leb_ℤ}
use nexus_ai_platform.Errors.{Exception, Result, ok, raise, ok-injective}
use nexus_ai_platform.Cache.TextStore.{TextStore}
use nexus_ai_platform.Cache.Redis.{Redis, Command, send-elim}
use nexus_ai_platform.Cache.RedisCache.{get, store_text, set, delete}

module _ (redis : Redis) where
  open redis use {State, text, deadline, clock}

  pub get_elim {κ} :
      (P : Result (Option String) × State → Type κ) (key : String) (s : State)
      → P (ok (text s key), s)
      → ((e : Exception) → P (raise e, s))
      → P (get redis key s)
  unfolding get
  get_elim P key s done lost =
      send-elim redis P (Command.get key) (λ t. (redis.get key t, t)) s
        (rw (redis.get_text key s) done) lost lost

  pub get_returns :
      (key : String) (s : State) (o : Option String) → (get redis key s).0 ≡ ok o → o ≡ text s key
  get_returns key s o =
      get_elim (λ (x : Result (Option String) × State). x.0 ≡ ok o → o ≡ text s key) key s
        (λ e. sym (ok-injective _ o e)) (λ x e. absurd (cc e))

  pub get_state : (key : String) (s : State) → (get redis key s).1 ≡ s
  get_state key s =
      get_elim (λ (x : Result (Option String) × State). x.1 ≡ s) key s refl (λ _. refl)

  -- The call that the semantic cache makes, always with a time to live.
  abbrev pub set_for : String → String → ℤ → State → Result Bool × State
  set_for key value ttl s = set redis key value (some ttl) s

  abbrev pub after : String → String → ℤ → State → State
  after key value ttl s = redis.set key value (some ttl) s

  pub set_elim {κ} :
      (P : Result Bool × State → Type κ) (key value : String) (ttl : ℤ) (s : State)
      → (leb_ℤ ttl (pos 0) ≡ false → P (ok true, after key value ttl s))
      → (leb_ℤ ttl (pos 0) ≡ false → (e : Exception) → P (raise e, after key value ttl s))
      → ((e : Exception) → P (raise e, s))
      → P (set_for key value ttl s)
  unfolding set store_text
  set_elim P key value ttl s done lost kept = if_elim P (leb_ℤ ttl (pos 0)) (kept _) (λ positive.
      send-elim redis P (Command.set key value (some ttl))
        (λ t. (true, redis.set key value (some ttl) t)) s (done positive) (lost positive) kept)

  set_text_self :
      (key value : String) (ttl : ℤ) (s : State) → text (after key value ttl s) key ≡ some value
  set_text_self key value ttl s = rw (eq_refl key) at (redis.set_text key value (some ttl) s key)

  pub set_returns :
      (key value : String) (ttl : ℕ) (s : State) (b : Bool)
      → (set_for key value (pos ttl) s).0 ≡ ok b
      → (text (set_for key value (pos ttl) s).1 key ≡ some value)
        × (deadline (set_for key value (pos ttl) s).1 key ≡ clock s + ttl)
        × (clock (set_for key value (pos ttl) s).1 ≡ clock s)
  set_returns key value ttl s b =
      set_elim
        (λ (x : Result Bool × State).
          x.0 ≡ ok b
          → (text x.1 key ≡ some value)
            × (deadline x.1 key ≡ clock s + ttl)
            × (clock x.1 ≡ clock s))
        key value (pos ttl) s
        (λ _ _. (
          set_text_self key value (pos ttl) s,
          rw (eq_refl key) at (redis.set_deadline key value ttl s key),
          redis.set_clock key value (some (pos ttl)) s,
        ))
        (λ _ x e. absurd (cc e)) (λ x e. absurd (cc e))

  pub set_writes :
      (key value : String) (ttl : ℤ) (s : State)
      → (text (set_for key value ttl s).1 key ≡ some value)
        ⊎ (text (set_for key value ttl s).1 key ≡ text s key)
  set_writes key value ttl s =
      set_elim
        (λ (x : Result Bool × State). (text x.1 key ≡ some value) ⊎ (text x.1 key ≡ text s key)) key
        value ttl s (λ _. inl (set_text_self key value ttl s))
        (λ _ _. inl (set_text_self key value ttl s)) (λ _. inr refl)

  other_key :
      (key value : String) (ttl : ℤ) (s : State) (j : String)
      → str_eq j key ≡ false
      → leb_ℤ ttl (pos 0) ≡ false
      → (text (after key value ttl s) j ≡ text s j)
        × (deadline (after key value ttl s) j ≡ deadline s j)
  other_key key value (pos n) s j differ positive = (
    rw differ at (redis.set_text key value (some (pos n)) s j),
    rw differ at (redis.set_deadline key value n s j),
  )
  other_key key value (negsuc n) s j differ positive = absurd (ground arith)

  pub set_other :
      (key value : String) (ttl : ℤ) (s : State) (j : String)
      → str_eq j key ≡ false
      → (text (set_for key value ttl s).1 j ≡ text s j)
        × (deadline (set_for key value ttl s).1 j ≡ deadline s j)
  set_other key value ttl s j differ =
      set_elim
        (λ (x : Result Bool × State). (text x.1 j ≡ text s j) × (deadline x.1 j ≡ deadline s j)) key
        value ttl s (other_key key value ttl s j differ)
        (λ positive _. other_key key value ttl s j differ positive) (λ _. (refl, refl))

  pub delete_returns :
      (key : String) (s : State) (n : ℕ)
      → (delete redis key s).0 ≡ ok n
      → text (delete redis key s).1 key ≡ none
  unfolding delete
  delete_returns key s n =
      send-elim redis (λ (x : Result ℕ × State). x.0 ≡ ok n → text x.1 key ≡ none)
        (Command.delete key) (redis.delete key) s
        (λ _. rw (eq_refl key) at (redis.delete_text key s key)) (λ x e. absurd (cc e))
        (λ x e. absurd (cc e))

  deleted :
      (key : String) (s : State) (j : String)
      → (text (redis.delete key s).1 j ≡ text s j) ⊎ (text (redis.delete key s).1 j ≡ none)
  deleted key s j = elim (Bool-cases (str_eq j key)) [
    | inl same ↦ inr (rw same at (redis.delete_text key s j))
    | inr differ ↦ inl (rw differ at (redis.delete_text key s j))
  ]

  pub delete_drops :
      (key : String) (s : State) (j : String)
      → (text (delete redis key s).1 j ≡ text s j) ⊎ (text (delete redis key s).1 j ≡ none)
  unfolding delete
  delete_drops key s j =
      send-elim redis (λ (x : Result ℕ × State). (text x.1 j ≡ text s j) ⊎ (text x.1 j ≡ none))
        (Command.delete key) (redis.delete key) s (deleted key s j) (λ _. deleted key s j)
        (λ _. inl refl)

  -- The adapter, as the semantic cache uses it.
  abbrev pub text_store : TextStore
  text_store = record {
    State = State;
    clock = clock;
    text = text;
    deadline = deadline;
    get = get redis;
    set = set_for;
    delete = delete redis;
    wait = redis.wait;
    get_returns = get_returns;
    get_keeps =
        λ key s j. (ap (λ t. text t j) (get_state key s), ap (λ t. deadline t j) (get_state key s));
    get_clock = λ key s. ap clock (get_state key s);
    set_returns = set_returns;
    set_writes = set_writes;
    set_other = set_other;
    delete_returns = delete_returns;
    delete_drops = delete_drops;
    wait_keeps = λ d s j h. (redis.wait_keeps d s j h).0;
    wait_drops = redis.wait_text;
  }
