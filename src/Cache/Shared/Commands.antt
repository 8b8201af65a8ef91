-- ===== src/Cache/Shared/Commands.antt =====
-- A command changes the key that it names and no other.
use nexus_ai_platform.Prelude.{
  ℕ, String, false, Option, some, ◌≡◌, refl, ◌∙◌, Bool-cases, inl, inr, str_eq, ◌==◌,
}
use nexus_ai_platform.Prelude.Int.{ℤ, negsuc, nat_of, negate}
use nexus_ai_platform.Cache.Redis.{Redis, Command, send-elim}
use nexus_ai_platform.Cache.RedisCache.{increment, increment_with_ttl, ping}
use nexus_ai_platform.Cache.RedisCache
use nexus_ai_platform.Cache.RedisCache.Counts.{script, increment_elim}
use nexus_ai_platform.Cache.RedisCache.Texts.{set_for, set_elim}
use nexus_ai_platform.Cache.RedisMemory
use nexus_ai_platform.Cache.RedisMemory.{append_trim_expire, append_bounded}
use nexus_ai_platform.Cache.RedisMemory.Sessions.{appended, append_elim}

module _ (redis : Redis) where
  open redis use {State, text, number, items, deadline, clock}

  -- A key is as it was.
  abbrev pub Same : String → State → State → Type 0
  Same j s t =
      (text t j ≡ text s j)
      × (number t j ≡ number s j)
      × (items t j ≡ items s j)
      × (deadline t j ≡ deadline s j)

  -- Every other key is as it was.
  abbrev pub Apart : String → State → State → Type 0
  Apart key s t = (j : String) → str_eq j key ≡ false → Same j s t

  -- Of the server: the commands that write name the key that they write, and take none of its time.
  pub record Separates : Type 0 where
    pub set_apart :
        (key value : String) (ex : Option ℤ) (s : State) → Apart key s (redis.set key value ex s)
    pub delete_apart : (key : String) (s : State) → Apart key s (redis.delete key s).1
    pub incr_apart : (key : String) (s : State) → Apart key s (redis.incr key s).1
    pub expire_apart : (key : String) (n : ℕ) (s : State) → Apart key s (redis.expire key n s)
    pub rpush_apart : (key value : String) (s : State) → Apart key s (redis.rpush key value s)
    pub ltrim_apart :
        (key : String) (start stop : ℤ) (s : State) → Apart key s (redis.ltrim key start stop s)
    pub delete_clock : (key : String) (s : State) → clock (redis.delete key s).1 ≡ clock s

  pub Same-trans : (j : String) (s t u : State) → Same j s t → Same j t u → Same j s u
  Same-trans j s t u (a, b, c, d) (e, f, g, h) = (e ∙ a, f ∙ b, g ∙ c, h ∙ d)

  -- One key may have changed, within the second.
  abbrev pub Only : String → State → State → Type 0
  Only key s t = Apart key s t × (clock t ≡ clock s)

  pub Only-refl : (key : String) (s : State) → Only key s s
  Only-refl key s = (λ j differ. (refl, refl, refl, refl), refl)

  Only-trans : (key : String) (s t u : State) → Only key s t → Only key t u → Only key s u
  Only-trans key s t u (a, c) (b, d) =
      (λ j differ. Same-trans j s t u (a j differ) (b j differ), d ∙ c)

  module _ (separates : Separates) where
    pub set-Only :
        (key value : String) (ttl : ℤ) (s : State) → Only key s (set_for redis key value ttl s).1
    set-Only key value ttl s =
        set_elim redis (λ x. Only key s x.1) key value ttl s (λ _. done) (λ _ _. done)
          (λ _. Only-refl key s)
      where
        done : Only key s (redis.set key value (some ttl) s)
        done = (separates.set_apart key value (some ttl) s, redis.set_clock key value (some ttl) s)

    pub delete-Only : (key : String) (s : State) → Only key s (RedisCache.delete redis key s).1
    unfolding RedisCache.delete
    delete-Only key s =
        send-elim redis (λ x. Only key s x.1) (Command.delete key) (redis.delete key) s done
          (λ _. done) (λ _. Only-refl key s)
      where
        done : Only key s (redis.delete key s).1
        done = (separates.delete_apart key s, separates.delete_clock key s)

    script-Only : (key : String) (ttl : ℕ) (s : State) → Only key s (script redis key ttl s).1
    unfolding increment_with_ttl
    script-Only key ttl s = elim (Bool-cases ((redis.incr key s).0 == 1)) [
      | inr later ↦ rw later raised
      | inl first ↦ rw first (
          Only-trans key s (redis.incr key s).1 (redis.expire key ttl (redis.incr key s).1) raised (
            separates.expire_apart key ttl (redis.incr key s).1,
            redis.expire_clock key ttl (redis.incr key s).1,
          ))
    ]
      where
        raised : Only key s (redis.incr key s).1
        raised = (separates.incr_apart key s, redis.incr_clock key s)

    pub increment-Only :
        (key : String) (ttl : ℤ) (s : State) → Only key s (increment redis key ttl s).1
    increment-Only key ttl s =
        increment_elim redis (λ x. Only key s x.1) key ttl s (λ _. script-Only key (nat_of ttl) s)
          (λ _ _. script-Only key (nat_of ttl) s) (λ _. Only-refl key s)

    appended-Only :
        (key value : String) (m n : ℤ) (s : State) → Only key s (appended redis key value m n s)
    unfolding append_trim_expire
    appended-Only key value m n s =
        let t = redis.rpush key value s in
        let u = redis.ltrim key (negate m) (negsuc 0) t in
        Only-trans key s u _
          (Only-trans key s t u (separates.rpush_apart key value s, redis.rpush_clock key value s)
            (
              separates.ltrim_apart key (negate m) (negsuc 0) t,
              redis.ltrim_clock key (negate m) (negsuc 0) t,
            ))
          (separates.expire_apart key (nat_of n) u, redis.expire_clock key (nat_of n) u)

    pub append-Only :
        (key value : String) (m n : ℤ) (s : State)
        → Only key s (append_bounded redis key value m n s).1
    append-Only key value m n s =
        append_elim redis (λ x. Only key s x.1) key value m n s (λ _. appended-Only key value m n s)
          (λ _ _. appended-Only key value m n s) (λ _. Only-refl key s)

    pub delete_list-Only :
        (key : String) (s : State) → Only key s (RedisMemory.delete redis key s).1
    unfolding RedisMemory.delete RedisCache.delete
    delete_list-Only key s = delete-Only key s
