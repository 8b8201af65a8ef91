-- ===== src/Cache/Shared/Apart.antt =====
-- The services do not disturb each other.
use nexus_ai_platform.Prelude.{
  ℕ, ◌/◌, String, true, false, Option, some, List, [], ◌∷◌, All, ◌≡◌, refl, ap, ◌∙◌, Bool-cases,
  inl, inr, str_eq, eq_iff,
}
use nexus_ai_platform.Prelude.Int.{pos, ltb_ℤ}
use nexus_ai_platform.Errors.{Result, ok, raise}
use nexus_ai_platform.Codec.{Codec}
use nexus_ai_platform.Cache.Keys.{rate_limit_minute_key, rate_limit_hour_key, session_memory_key}
use nexus_ai_platform.Cache.Keys.Kinds.{
  Purpose, answer, session, minute, hour, Kind, kind, subject, key, key-kind,
}
use nexus_ai_platform.Cache.Redis.{Redis, Command, send-elim}
use nexus_ai_platform.Cache.RedisCache.{ping}
use nexus_ai_platform.Cache.RedisCache.Counts.{counters}
use nexus_ai_platform.Cache.RedisCache.Texts.{get_state, text_store}
use nexus_ai_platform.Cache.RedisMemory.Sessions as Lists
use nexus_ai_platform.Cache.RateLimiter.{RateLimiter, check, count_hour, and_hour}
use nexus_ai_platform.Cache.RateLimiter.Concurrent.{Asking, ask, begin}
use nexus_ai_platform.Cache.SemanticCache
use nexus_ai_platform.Cache.SemanticCache.{SemanticCache, cache_key, normalize}
use nexus_ai_platform.Text.{byte_size}
use nexus_ai_platform.Cache.Memory
use nexus_ai_platform.Cache.Memory.{AgentMemory, MemoryMessage, append, get_recent, clear}
use nexus_ai_platform.Cache.Shared.{
  Operation, probes, looks_up, forgets, keeps, says, recalls, clears, checks, perform, perform_all,
  aims,
}
use nexus_ai_platform.Cache.Shared.Commands.{
  Same, Same-trans, Separates, Only, set-Only, delete-Only, increment-Only, append-Only,
  delete_list-Only,
}

-- Not a key of that kind, with that hash or session.
abbrev pub IsOther : Purpose → Kind × Option String → Type 0
IsOther p (k, x) = kind p ≡ k → subject p ≡ x → ⊥

pub IsOther-differ :
    (p q : Purpose) → IsOther p (kind q, subject q) → str_eq (key p) (key q) ≡ false
IsOther-differ p q other = elim (Bool-cases (str_eq (key p) (key q))) [
  | inr differ ↦ differ
  | inl same ↦ let (k, x) = key-kind p q ((eq_iff (key p) (key q)).0 same) in absurd (other k x)
]

module _ (redis : Redis) (codec : Codec) where
  open redis use {State, clock}

  -- The operation may change none but other keys.
  abbrev pub Spares : Purpose → Operation → Type 0
  Spares p o = All (IsOther p) (aims redis codec o)

  -- A key is as it was, within the second.
  abbrev pub Untouched : Purpose → State → State → Type 0
  Untouched p s t = Same redis (key p) s t × (clock t ≡ clock s)

  idle : (p : Purpose) (s t : State) → t ≡ s → Untouched p s t
  idle p s t e = (
    (
      ap (λ u. redis.text u (key p)) e,
      ap (λ u. redis.number u (key p)) e,
      ap (λ u. redis.items u (key p)) e,
      ap (λ u. redis.deadline u (key p)) e,
    ),
    ap clock e,
  )

  then_Untouched :
      (p : Purpose) (s t u : State) → Untouched p s t → Untouched p t u → Untouched p s u
  then_Untouched p s t u (a, c) (b, d) = (Same-trans redis (key p) s t u a b, d ∙ c)

  module _ (separates : Separates redis) where
    only :
        (p q : Purpose) (s t : State)
        → IsOther p (kind q, subject q)
        → Only redis (key q) s t
        → Untouched p s t
    only p q s t other (apart, same) = (apart (key p) (IsOther-differ p q other), same)

    pub begin-Untouched :
        (p : Purpose) (limiter : RateLimiter) (a : Asking) (s : State)
        → IsOther p (kind (minute a.user_id 0), subject (minute a.user_id 0))
        → Untouched p s (begin (counters redis) limiter a s).1
    begin-Untouched p limiter a s other =
        only p (minute a.user_id (a.now / 60)) s _ other
          (increment-Only redis separates (rate_limit_minute_key a.user_id (a.now / 60)) (pos 60) s)

    hour-Untouched :
        (p : Purpose) (limiter : RateLimiter) (user : String) (now : ℕ) (reply : Result ℕ)
        (s : State)
        → IsOther p (kind (hour user 0), subject (hour user 0))
        → Untouched p s (and_hour (counters redis) limiter user now reply s).1
    unfolding count_hour
    hour-Untouched p limiter user now (raise e) s other = idle p s s refl
    hour-Untouched p limiter user now (ok n) s other =
        only p (hour user (now / 3600)) s _ other
          (increment-Only redis separates (rate_limit_hour_key user (now / 3600)) (pos 3600) s)

    answer-Untouched :
        (p : Purpose) (query : String) (s t : State)
        → IsOther p (kind (answer ""), some (codec.sha256_hex (normalize codec query)))
        → Only redis (cache_key codec query) s t
        → Untouched p s t
    unfolding cache_key
    answer-Untouched p query s t other h =
        only p (answer (codec.sha256_hex (normalize codec query))) s t other h

    keep-Untouched :
        (p : Purpose) (cache : SemanticCache) (query response : String) (s : State)
        → IsOther p (kind (answer ""), some (codec.sha256_hex (normalize codec query)))
        → Untouched p s (SemanticCache.set codec (text_store redis) cache query response s).1
    unfolding SemanticCache.set
    keep-Untouched p cache query response s other =
        let payload = SemanticCache.payload_of codec response in
        elim (Bool-cases (ltb_ℤ cache.max_bytes (pos (byte_size payload)))) [
          | inl large ↦ rw large (idle p s s refl)
          | inr small ↦ rw small (
              answer-Untouched p query s _ other
                (set-Only redis separates (cache_key codec query) payload cache.ttl_seconds s))
        ]

    say-Untouched :
        (p : Purpose) (memory : AgentMemory) (id : String) (message : MemoryMessage) (s : State)
        → IsOther p (kind (session id), subject (session id))
        → Untouched p s (append codec (Lists.sessions redis) memory id message s).1
    unfolding append
    say-Untouched p memory id message s other =
        let payload = Memory.payload_of codec message in
        elim (Bool-cases (ltb_ℤ memory.max_message_bytes (pos (byte_size payload)))) [
          | inl large ↦ rw large (idle p s s refl)
          | inr small ↦ rw small (
              only p (session id) s _ other (
                append-Only redis separates (session_memory_key id) payload memory.max_messages
                  memory.ttl_seconds s))
        ]

    -- An operation that spares a key leaves it as it was.
    pub perform-Untouched :
        (p : Purpose) (o : Operation) (s : State)
        → Spares p o
        → Untouched p s (perform redis codec o s)
    unfolding perform ping SemanticCache.get SemanticCache.delete get_recent clear check
    perform-Untouched p probes s spares =
        send-elim redis (λ x. Untouched p s x.1) Command.ping (λ t. (true, t)) s (idle p s s refl)
          (λ _. idle p s s refl) (λ _. idle p s s refl)
    perform-Untouched p (looks_up query) s spares =
        idle p s _ (get_state redis (cache_key codec query) s)
    perform-Untouched p (forgets query) s (other, _) =
        answer-Untouched p query s _ other (delete-Only redis separates (cache_key codec query) s)
    perform-Untouched p (keeps cache query response) s (other, _) =
        keep-Untouched p cache query response s other
    perform-Untouched p (says memory id message) s (other, _) =
        say-Untouched p memory id message s other
    perform-Untouched p (recalls memory id) s spares =
        idle p s _ (Lists.get_recent_keeps redis (session_memory_key id) memory.max_messages s)
    perform-Untouched p (clears id) s (other, _) =
        only p (session id) s _ other (delete_list-Only redis separates (session_memory_key id) s)
    perform-Untouched p (checks limiter user) s (minutes, (hours, _)) =
        let a = ask (counters redis) limiter user s in
        let (r, t) = begin (counters redis) limiter a s in
        then_Untouched p s t _ (begin-Untouched p limiter a s minutes)
          (hour-Untouched p limiter user (clock s) r.minute_reply t hours)

    -- However many operations of the services come that spare a key, and whichever of their calls
    -- fail, the key holds what it held, with the deadline that it had. An operation spares every key
    -- but those that it aims at: a query's answer, a session's messages, or the limiter's counters.
    pub perform_all-Untouched :
        (p : Purpose) (operations : List Operation) (s : State)
        → All (Spares p) operations
        → Same redis (key p) s (perform_all redis codec operations s)
          × (clock (perform_all redis codec operations s) ≡ clock s)
    perform_all-Untouched p [] s spare = idle p s s refl
    perform_all-Untouched p (o ∷ operations) s (now, later) =
        then_Untouched p s (perform redis codec o s) _ (perform-Untouched p o s now)
          (perform_all-Untouched p operations (perform redis codec o s) later)
