-- ===== src/Tests/Cache.antt =====
-- Tests of the rate limiter, over counters in memory.
use nexus_ai_platform.Prelude.{
  ℕ, suc, ◌+◌, ◌≤◌, ◌<◌, String, true, false, List, [], ◌∷◌, ◌≡◌, ◌↔◌, ◌&&◌, refl, arith, ◌==◌, ltb,
  str_eq, eq_refl, if◌then◌else◌,
}
use nexus_ai_platform.Prelude.Int.{pos}
use nexus_ai_platform.Errors.{ok}
use nexus_ai_platform.Cache.Counters.{Counters}
use nexus_ai_platform.Cache.RateLimiter.{RateLimiter, retry_after}
use nexus_ai_platform.Cache.RateLimiter.Retry.{Reopens, retry_after_least}
use nexus_ai_platform.Cache.RateLimiter.Windows.{is_allowed, Event, passes, requests}
use nexus_ai_platform.Cache.RateLimiter.Concurrent.{
  Asking, Running, ask, begin, finish, is_of, one_if, Reached, opened, asks, begins, ends,
}
use nexus_ai_platform.Cache.RateLimiter.Concurrent.Limit.{allowed-le-limit}

pub record Table : Type 0 where
  pub now : ℕ
  pub value : String → ℕ
  pub deadline : String → ℕ

abbrev pub bump : String → ℕ → Table → Table
bump key ttl s = record s {
  value = λ j. if str_eq j key then suc (s.value j) else s.value j;
  deadline = λ j.
      if str_eq j key then (if s.value j == 0 then s.now + ttl else s.deadline j) else s.deadline j;
}

abbrev pub age : ℕ → Table → Table
age d s = record s {
  now = s.now + d;
  value = λ j. if ltb (s.now + d) (s.deadline j) then s.value j else 0;
}

bump_self : (key : String) (ttl : ℕ) (s : Table) → (bump key ttl s).value key ≡ suc (s.value key)
bump_self key ttl s = rw eq_refl

pub bump_grows :
    (key : String) (ttl : ℕ) (s : Table) (j : String) → s.value j ≤ (bump key ttl s).value j
bump_grows key ttl s j = ground arith

pub bump_other :
    (key : String) (ttl : ℕ) (s : Table) (j : String)
    → str_eq j key ≡ false
    → (bump key ttl s).value j ≡ s.value j
bump_other key ttl s j differ = rw differ

pub bump_deadline :
    (key : String) (ttl : ℕ) (s : Table) (j : String)
    → 0 < s.value j
    → (bump key ttl s).deadline j ≡ s.deadline j
bump_deadline key ttl s j h = ground arith

pub bump_creates :
    (key : String) (ttl : ℕ) (s : Table) (j : String)
    → s.value j ≡ 0
    → 0 < (bump key ttl s).value j
    → (bump key ttl s).deadline j ≡ s.now + ttl
bump_creates key ttl s j e h = ground arith

pub age_keeps :
    (d : ℕ) (s : Table) (j : String)
    → s.now + d < s.deadline j
    → ((age d s).value j ≡ s.value j) × ((age d s).deadline j ≡ s.deadline j)
age_keeps d s j h = ground arith

pub age_drops : (d : ℕ) (s : Table) (j : String) → (age d s).value j ≤ s.value j
age_drops d s j = ground arith

pub returned :
    (key : String) (ttl : ℕ) (s : Table) (n : ℕ)
    → ok (suc (s.value key)) ≡ ok n
    → (n ≡ (bump key ttl s).value key) × ((bump key ttl s).value key ≡ suc (s.value key))
returned key ttl s n e = rw (bump_self key ttl s) (cc, refl)

abbrev pub memory : Counters
memory = record {
  State = Table;
  clock = λ s. s.now;
  value = λ s. s.value;
  deadline = λ s. s.deadline;
  increment = λ key ttl s. (ok (suc (s.value key)), bump key ttl s);
  wait = age;
  increment_returns = returned;
  increment_grows = bump_grows;
  increment_other = bump_other;
  increment_deadline = bump_deadline;
  increment_creates = bump_creates;
  increment_clock = λ key ttl s. refl;
  wait_clock = λ d s. refl;
  wait_keeps = age_keeps;
  wait_drops = age_drops;
  wait_deadline = λ d s j h. refl;
}

abbrev pub limiter : RateLimiter
limiter = record { minute_limit = pos 2; hour_limit = pos 1000 }

abbrev pub empty_at : ℕ → Table
empty_at t = record { now = t; value = λ j. 0; deadline = λ j. 0 }

-- Four requests of one caller in the second minute, of which two are allowed.
abbrev burst : List Event
burst = requests "a" ∷ requests "a" ∷ requests "b" ∷ passes 30 ∷ requests "a" ∷ requests "a" ∷ []

retry_after_least_example :
    (Reopens true false 70 49 ↔ (retry_after 70 true false ≤ 49))
    × (retry_after 70 true false ≤ 3600)
retry_after_least_example = retry_after_least 70 49 true false

-- Two checks of one caller read the time; the store runs the second one's first increment ten seconds
-- later, after the first one's, and the second ends before the first.
abbrev asking : Asking
asking = ask memory limiter "a" (empty_at 70)

abbrev one_begun : Running × Table
one_begun = begin memory limiter asking (empty_at 70)

abbrev two_begun : Running × Table
two_begun = begin memory limiter asking (memory.wait 10 one_begun.1)

abbrev second_ended : ℕ
second_ended = one_if (
    is_allowed (finish memory limiter two_begun.0 two_begun.1).0
    && is_of memory limiter "a" 1 two_begun.0)

abbrev second_left : Table
second_left = (finish memory limiter two_begun.0 two_begun.1).1

abbrev first_ended : ℕ
first_ended = one_if (
    is_allowed (finish memory limiter one_begun.0 second_left).0
    && is_of memory limiter "a" 1 one_begun.0)

both_ended :
    Reached memory limiter "a" 1 [] []
      (0 + second_ended + first_ended)
      (finish memory limiter one_begun.0 second_left).1
both_ended = ends [] one_begun.0 [] (
    ends [] two_begun.0 (one_begun.0 ∷ []) (
      begins [] asking [] (
        Reached.passes 10 (
          begins [] asking (asking ∷ [])
            (asks "a" (asks "a" (opened {s = empty_at 70} (omega arith) refl)))))))

allowed-le-limit_example : 0 + second_ended + first_ended ≤ 2
allowed-le-limit_example = allowed-le-limit memory limiter "a" 1 2 refl both_ended
