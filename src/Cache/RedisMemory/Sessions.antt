-- ===== src/Cache/RedisMemory/Sessions.antt =====
-- The adapter is the store of lists that the agent's memory relies on.
use nexus_ai_platform.Prelude.{
  ℕ, zero, suc, ◌+◌, String, Bool, true, false, List, [], ◌∷◌, ◌++◌, ◌≡◌, refl, ap, sym, ◌∙◌, arith,
  str_eq, eq_refl, if◌then◌else◌, if_elim, last_items,
}
use nexus_ai_platform.Prelude.Int.{ℤ, pos, negsuc, leb_ℤ, nat_of, negate}
use nexus_ai_platform.Errors.{Exception, Result, ok, raise, ok-injective}
use nexus_ai_platform.Cache.SessionStore.{SessionStore}
use nexus_ai_platform.Cache.Redis.{Redis, Command, send-elim}
use nexus_ai_platform.Cache.RedisMemory.{append_trim_expire, append_bounded, get_recent, delete}

module _ (redis : Redis) where
  open redis use {State, items, deadline, clock}

  abbrev pub appended : String → String → ℤ → ℤ → State → State
  appended key value m n s = (append_trim_expire redis key value m (nat_of n) s).1

  pub append_elim {κ} :
      (P : Result (Unit {0}) × State → Type κ) (key value : String) (m n : ℤ) (s : State)
      → (leb_ℤ m (pos 0) ≡ false → P (ok tt, appended key value m n s))
      → (leb_ℤ m (pos 0) ≡ false → (e : Exception) → P (raise e, appended key value m n s))
      → ((e : Exception) → P (raise e, s))
      → P (append_bounded redis key value m n s)
  unfolding append_bounded
  append_elim P key value m n s done lost kept = if_elim P (leb_ℤ m (pos 0)) (kept _) (λ positive.
      if_elim P (leb_ℤ n (pos 0)) (kept _) (λ _.
        send-elim redis P (Command.append key value m n)
          (append_trim_expire redis key value m (nat_of n)) s (done positive) (lost positive) kept))

  -- The list is cut after the new text has been added.
  appended_items :
      (key value : String) (m : ℕ) (n : ℤ) (s : State) (j : String)
      → items (appended key value (pos (suc m)) n s) j
        ≡ (if str_eq j key then last_items (suc m) (items s j ++ value ∷ []) else items s j)
  unfolding append_trim_expire
  appended_items key value m n s j =
      redis.expire_items key (nat_of n) (redis.ltrim key (negsuc m) (negsuc 0) t) j
      ∙ redis.ltrim_items key m t j
      ∙ cut (str_eq j key) (redis.rpush_items key value s j)
    where
      t : State
      t = redis.rpush key value s

      cut :
          (b : Bool)
          → items t j ≡ (if b then items s j ++ value ∷ [] else items s j)
          → (if b then last_items (suc m) (items t j) else items t j)
            ≡ (if b then last_items (suc m) (items s j ++ value ∷ []) else items s j)
      cut true e = ap (last_items (suc m)) e
      cut false e = e

  appended_deadline :
      (key value : String) (m n : ℤ) (s : State)
      → (deadline (appended key value m n s) key ≡ clock s + nat_of n)
        × (clock (appended key value m n s) ≡ clock s)
  unfolding append_trim_expire
  appended_deadline key value m n s =
      let t = redis.ltrim key (negate m) (negsuc 0) (redis.rpush key value s) in
      let same : clock t ≡ clock s =
        redis.ltrim_clock key (negate m) (negsuc 0) (redis.rpush key value s)
        ∙ redis.rpush_clock key value s in
      (
        (rw (eq_refl key) at (redis.expire_deadline key (nat_of n) t key))
            ∙ ap (λ c. c + nat_of n) same,
        redis.expire_clock key (nat_of n) t ∙ same,
      )

  pub append_items :
      (key value : String) (m n : ℕ) (s : State)
      → (append_bounded redis key value (pos (suc m)) (pos (suc n)) s).0 ≡ ok tt
      → let t = (append_bounded redis key value (pos (suc m)) (pos (suc n)) s).1 in
        (items t key ≡ last_items (suc m) (items s key ++ value ∷ []))
        × (deadline t key ≡ clock s + suc n)
        × (clock t ≡ clock s)
  append_items key value m n s =
      append_elim
        (λ (x : Result (Unit {0}) × State).
          x.0 ≡ ok tt
          → (items x.1 key ≡ last_items (suc m) (items s key ++ value ∷ []))
            × (deadline x.1 key ≡ clock s + suc n)
            × (clock x.1 ≡ clock s))
        key value (pos (suc m)) (pos (suc n)) s
        (λ _ _. (
          rw (eq_refl key) at (appended_items key value m (pos (suc n)) s key),
          (appended_deadline key value (pos (suc m)) (pos (suc n)) s).0,
          (appended_deadline key value (pos (suc m)) (pos (suc n)) s).1,
        ))
        (λ _ x e. absurd (cc e)) (λ x e. absurd (cc e))

  appended_other :
      (key value : String) (m n : ℤ) (s : State) (j : String)
      → str_eq j key ≡ false
      → leb_ℤ m (pos 0) ≡ false
      → items (appended key value m n s) j ≡ items s j
  appended_other key value (pos (suc m)) n s j differ positive =
      rw differ at (appended_items key value m n s j)
  appended_other key value (pos zero) n s j differ positive = cc
  appended_other key value (negsuc m) n s j differ positive = absurd (ground arith)

  pub append_other :
      (key value : String) (m n : ℤ) (s : State) (j : String)
      → str_eq j key ≡ false
      → items (append_bounded redis key value m n s).1 j ≡ items s j
  append_other key value m n s j differ =
      append_elim (λ (x : Result (Unit {0}) × State). items x.1 j ≡ items s j) key value m n s
        (appended_other key value m n s j differ)
        (λ positive _. appended_other key value m n s j differ positive) (λ _. refl)

  recent_elim {κ} :
      (P : Result (List String) × State → Type κ) (key : String) (m : ℤ) (s : State)
      → P (ok (redis.lrange key (negate m) (negsuc 0) s), s)
      → ((e : Exception) → P (raise e, s))
      → P (get_recent redis key m s)
  unfolding get_recent
  recent_elim P key m s done lost = if_elim P (leb_ℤ m (pos 0)) (lost _) (λ _.
      send-elim redis P (Command.lrange key (negate m) (negsuc 0))
        (λ t. (redis.lrange key (negate m) (negsuc 0) t, t)) s done lost lost)

  pub get_recent_items :
      (key : String) (m : ℕ) (s : State) (values : List String)
      → (get_recent redis key (pos (suc m)) s).0 ≡ ok values
      → values ≡ last_items (suc m) (items s key)
  get_recent_items key m s values =
      recent_elim
        (λ (x : Result (List String) × State).
          x.0 ≡ ok values → values ≡ last_items (suc m) (items s key))
        key (pos (suc m)) s (λ e. sym (ok-injective _ values e) ∙ redis.lrange_items key m s)
        (λ x e. absurd (cc e))

  pub get_recent_keeps : (key : String) (m : ℤ) (s : State) → (get_recent redis key m s).1 ≡ s
  get_recent_keeps key m s =
      recent_elim (λ (x : Result (List String) × State). x.1 ≡ s) key m s refl (λ _. refl)

  pub delete_items :
      (key : String) (s : State) (n : ℕ)
      → (delete redis key s).0 ≡ ok n
      → items (delete redis key s).1 key ≡ []
  unfolding delete
  delete_items key s n =
      send-elim redis (λ (x : Result ℕ × State). x.0 ≡ ok n → items x.1 key ≡ [])
        (Command.delete key) (redis.delete key) s
        (λ _. rw (eq_refl key) at (redis.delete_items key s key)) (λ x e. absurd (cc e))
        (λ x e. absurd (cc e))

  -- The adapter, as the agent's memory uses it.
  abbrev pub sessions : SessionStore
  sessions = record {
    State = State;
    clock = clock;
    items = items;
    deadline = deadline;
    append_bounded = append_bounded redis;
    get_recent = get_recent redis;
    delete = delete redis;
    wait = redis.wait;
    append_items = append_items;
    append_other = append_other;
    get_recent_items = get_recent_items;
    get_recent_keeps = get_recent_keeps;
    delete_items = delete_items;
    wait_keeps = λ d s j h. let (_, _, e, f) = redis.wait_keeps d s j h in (e, f);
    wait_clock = redis.wait_clock;
  }
