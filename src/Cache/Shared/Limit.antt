-- ===== src/Cache/Shared/Limit.antt =====
-- The minute's limit, with the other services at work on the same Redis.
use nexus_ai_platform.Prelude.{
  ℕ, ◌+◌, ◌*◌, ◌≤◌, String, Bool, true, false, ◌&&◌, List, [], ◌∷◌, ◌++◌, ◌≡◌,
}
use nexus_ai_platform.Prelude.Int.{pos}
use nexus_ai_platform.Codec.{Codec}
use nexus_ai_platform.Cache.Keys.Kinds.{minute}
use nexus_ai_platform.Cache.Keys.{rate_limit_minute_key}
use nexus_ai_platform.Cache.Redis.{Redis}
use nexus_ai_platform.Cache.RedisCache.Counts.{counters}
use nexus_ai_platform.Cache.RateLimiter.{RateLimiter}
use nexus_ai_platform.Cache.RateLimiter.Windows.{is_allowed}
use nexus_ai_platform.Cache.RateLimiter.Concurrent.{
  Asking, Running, ask, begin, finish, is_of, one_if, Reached,
}
use nexus_ai_platform.Cache.RateLimiter.Concurrent.Limit.{allowed-le-limit}
use nexus_ai_platform.Cache.Shared.{
  Operation, probes, looks_up, forgets, keeps, says, recalls, clears, checks, perform,
}
use nexus_ai_platform.Cache.Shared.Commands.{Separates}
use nexus_ai_platform.Cache.Shared.Apart.{Spares, perform-Untouched}

abbrev pub is_check : Operation → Bool
is_check (checks limiter user) = true
is_check _ = false

module _ (redis : Redis) (codec : Codec) (limiter : RateLimiter) where
  open redis use {State, clock, number}

  module _ (user : String) (bucket : ℕ) where
    -- Checks of one limiter that interleave, as in `Reached`, and between their steps operations of the
    -- other services.
    pub data Together : List Asking → List Running → ℕ → State → Type 0 where
      opened :
          {s : State}
          → 60 * bucket ≤ clock s
          → number s (rate_limit_minute_key user bucket) ≡ 0
          → Together [] [] 0 s
      passes :
          {waiting : List Asking} {rs : List Running} {n : ℕ} {s : State} (d : ℕ)
          → Together waiting rs n s
          → Together waiting rs n (redis.wait d s)
      serves :
          {waiting : List Asking} {rs : List Running} {n : ℕ} {s : State} (o : Operation)
          → is_check o ≡ false
          → Together waiting rs n s
          → Together waiting rs n (perform redis codec o s)
      asks :
          {waiting : List Asking} {rs : List Running} {n : ℕ} {s : State} (user_id : String)
          → Together waiting rs n s
          → Together (ask (counters redis) limiter user_id s ∷ waiting) rs n s
      begins :
          {rs : List Running} {n : ℕ} {s : State} (before : List Asking) (a : Asking)
          (after : List Asking)
          → Together (before ++ a ∷ after) rs n s
          → Together
              (before ++ after)
              ((begin (counters redis) limiter a s).0 ∷ rs)
              n
              (begin (counters redis) limiter a s).1
      ends :
          {waiting : List Asking} {n : ℕ} {s : State} (before : List Running) (r : Running)
          (after : List Running)
          → Together waiting (before ++ r ∷ after) n s
          → Together waiting
              (before ++ after)
              (n
                + one_if (
                    is_allowed (finish (counters redis) limiter r s).0
                    && is_of (counters redis) limiter user bucket r))
              (finish (counters redis) limiter r s).1

    spares : (o : Operation) → is_check o ≡ false → Spares redis codec (minute user bucket) o
    spares probes h = tt
    spares (looks_up query) h = tt
    spares (forgets query) h = (λ k. cc, tt)
    spares (keeps cache query response) h = (λ k. cc, tt)
    spares (says memory id message) h = (λ k. cc, tt)
    spares (recalls memory id) h = tt
    spares (clears id) h = (λ k. cc, tt)
    spares (checks other caller) h = cc

    module _ (separates : Separates redis) where
      reached :
          {waiting : List Asking} {rs : List Running} {n : ℕ} {s : State}
          → Together waiting rs n s
          → Reached (counters redis) limiter user bucket waiting rs n s
      reached (opened late absent) = Reached.opened late absent
      reached (passes d h) = Reached.passes d (reached h)
      reached (serves {waiting} {rs} {n} {s} o no_check h) =
          let ((_, same, _, kept), now) =
            perform-Untouched redis codec separates (minute user bucket) o s (spares o no_check) in
          Reached.elsewhere (perform redis codec o s) (reached h) now same kept
      reached (asks user_id h) = Reached.asks user_id (reached h)
      reached (begins before a after h) = Reached.begins before a after (reached h)
      reached (ends before r after h) = Reached.ends before r after (reached h)

      -- Once a minute's window has begun, and while its counter does not exist yet: however checks of
      -- any callers interleave from then on with one another and with whatever the semantic cache, the
      -- memory and the probe do on the same Redis, each check waiting for as long as it may between
      -- reading the time and its increments, and whichever calls fail: of a caller's checks that read a
      -- second of that minute, and whose first increment the server runs in that minute, at most as
      -- many are allowed as the minute's limit says.
      pub shared-le-limit :
          (limit : ℕ) {waiting : List Asking} {rs : List Running} {n : ℕ} {s : State}
          → limiter.minute_limit ≡ pos limit
          → Together waiting rs n s
          → n ≤ limit
      shared-le-limit limit max h =
          allowed-le-limit (counters redis) limiter user bucket limit max (reached h)
