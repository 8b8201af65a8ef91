-- ===== src/Tests/Sharing.antt =====
-- Tests of the services that share one Redis.
use mathlib.Core.Option.{some-injective}
use nexus_ai_platform.Prelude.{
  ℕ, ◌+◌, ◌≤◌, ◌&&◌, String, false, some, ◌≢◌, str_eq, eq_iff, List, [], ◌∷◌, All, ◌≡◌, refl, arith,
}
use nexus_ai_platform.Cache.Keys.Kinds.{session, key}
use nexus_ai_platform.Cache.RedisCache.Counts.{counters}
use nexus_ai_platform.Cache.RateLimiter.Windows.{is_allowed}
use nexus_ai_platform.Cache.RateLimiter.Concurrent.{Running, ask, begin, finish, is_of, one_if}
use nexus_ai_platform.Cache.Shared.{Operation, looks_up, keeps, says, checks, perform, perform_all}
use nexus_ai_platform.Cache.Shared.Commands.{Same, Separates}
use nexus_ai_platform.Cache.Shared.Apart.{Spares, perform_all-Untouched}
use nexus_ai_platform.Cache.Shared.Limit.{
  Together, opened, serves, asks, begins, ends, shared-le-limit,
}
use nexus_ai_platform.Tests.Codecs.{codec}
use nexus_ai_platform.Tests.Cache.{limiter}
use nexus_ai_platform.Tests.Store.{semantic_cache, memory, first, question}
use nexus_ai_platform.Tests.Servers.{Server, server, empty_server}

separates : Separates server
separates = record {
  set_apart = λ key value ex s j differ. rw differ (refl, refl, refl, refl);
  delete_apart = λ key s j differ. rw differ (refl, refl, refl, refl);
  incr_apart = λ key s j differ. rw differ (refl, refl, refl, refl);
  expire_apart = λ key n s j differ. rw differ (refl, refl, refl, refl);
  rpush_apart = λ key value s j differ. rw differ (refl, refl, refl, refl);
  ltrim_apart = λ key start stop s j differ. rw differ (refl, refl, refl, refl);
  delete_clock = λ key s. refl;
}

abbrev work : List Operation
work =
    checks limiter "a"
    ∷ looks_up question
    ∷ keeps semantic_cache question "42"
    ∷ says memory "s2" first
    ∷ []

other : (a b : String) → str_eq a b ≡ false → some a ≢ some b
other a b differ e = absurd (cc ((eq_iff a b).1 (some-injective a b e), differ))

-- None of it is about the session `s1`.
work-Spares : All (Spares server codec (session "s1")) work
work-Spares =
    ((λ k. cc, (λ k. cc, tt)), (tt, ((λ k. cc, tt), ((λ k. other "s1" "s2" refl, tt), tt))))

perform_all-Untouched_example :
    Same server
      (key (session "s1"))
      (empty_server 70)
      (perform_all server codec work (empty_server 70))
    × ((perform_all server codec work (empty_server 70)).now ≡ 70)
perform_all-Untouched_example =
    perform_all-Untouched server codec separates (session "s1") work (empty_server 70) work-Spares

-- While a check waits, an answer is kept.
abbrev begun : Running × Server
begun =
    begin (counters server) limiter (ask (counters server) limiter "a" (empty_server 70))
      (empty_server 70)

abbrev kept : Server
kept = perform server codec (keeps semantic_cache question "42") begun.1

abbrev ended : ℕ
ended = one_if (
    is_allowed (finish (counters server) limiter begun.0 kept).0
    && is_of (counters server) limiter "a" 1 begun.0)

one_ended :
    Together server codec limiter "a" 1 [] []
      (0 + ended)
      (finish (counters server) limiter begun.0 kept).1
one_ended = ends [] begun.0 [] (
    serves (keeps semantic_cache question "42") refl (
      begins [] (ask (counters server) limiter "a" (empty_server 70)) []
        (asks "a" (opened (omega arith) refl))))

shared-le-limit_example : 0 + ended ≤ 2
shared-le-limit_example = shared-le-limit server codec limiter "a" 1 separates 2 refl one_ended
