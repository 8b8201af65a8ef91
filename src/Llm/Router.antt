-- ===== src/Llm/Router.antt =====
-- llm/routing/router.py: the performance-aware provider router. No method awaits, so each runs at
-- one instant of the monotonic clock: `now` is that reading, where the method takes one.
pub mod Lookup
pub mod Select
pub mod Records
pub mod History
use nexus_ai_platform.Prelude.{
  ℕ, ◌+◌, String, Bool, true, false, Option, none, some, List, [], ◌∷◌, ltb, ◌==◌, str_eq,
  if◌then◌else◌, Dict, lookup, insert,
}
use nexus_ai_platform.Errors.{Result, ok, raise, value_error, runtime_error, ◌>>=◌, ◌>>◌, raise_if}
use nexus_ai_platform.Floats.{Floats, le}
use nexus_ai_platform.Llm.Models.{Provider}

pub record ProviderStats (F : Type 0) : Type 0 where
  pub requests : ℕ
  pub successes : ℕ
  pub failures : ℕ
  pub total_latency_seconds : F
  pub consecutive_failures : ℕ
  pub last_failure_at : Option F

pub record ProviderScore (F : Type 0) : Type 0 where
  pub provider_name : String
  pub score : F
  pub average_latency_seconds : F
  pub success_rate : F
  pub healthy : Bool

pub record Router (F : Type 0) : Type 0 where
  pub providers : List Provider
  pub recovery_cooldown_seconds : F
  pub stats : Dict (ProviderStats F)

abbrev pub failure_threshold : ℕ
failure_threshold = 3

unfoldable pub provider_name : Provider → String
provider_name p = elim p.name [
  | none ↦ p.class_name
  | some n ↦ if str_eq n "" then p.class_name else n
]

-- `_provider_by_name`
unfoldable pub provider_by_name : List Provider → String → Result Provider
provider_by_name [] name = raise (runtime_error "provider not found")
provider_by_name (p ∷ ps) name =
    if str_eq (provider_name p) name then ok p else provider_by_name ps name

module _ (fl : Floats) where
  open fl use {F, of_ℕ, add, sub, div, lt}

  -- The dataclass's defaults.
  abbrev pub initial_stats : ProviderStats F
  initial_stats = record {
    requests = 0;
    successes = 0;
    failures = 0;
    total_latency_seconds = of_ℕ 0;
    consecutive_failures = 0;
    last_failure_at = none;
  }

  unfoldable pub success_rate : ProviderStats F → F
  success_rate s = if s.requests == 0 then of_ℕ 1 else div (of_ℕ s.successes) (of_ℕ s.requests)

  unfoldable pub error_rate : ProviderStats F → F
  error_rate s = if s.requests == 0 then of_ℕ 0 else div (of_ℕ s.failures) (of_ℕ s.requests)

  unfoldable pub average_latency_seconds : ProviderStats F → F
  average_latency_seconds s =
      if s.successes == 0 then of_ℕ 0 else div s.total_latency_seconds (of_ℕ s.successes)

  unfoldable pub is_healthy : ProviderStats F → Bool
  is_healthy s = ltb s.consecutive_failures 3

  -- The dict comprehension of `__init__`, over the entries that stand already.
  unfoldable pub init_stats : List Provider → Dict (ProviderStats F) → Dict (ProviderStats F)
  init_stats [] d = d
  init_stats (p ∷ ps) d = init_stats ps (insert (provider_name p) initial_stats d)

  -- `__init__`
  unfoldable pub new_router : List Provider → F → Result (Router F)
  new_router [] cooldown = raise (value_error "at least one LLM provider is required")
  new_router (p ∷ ps) cooldown = do
    raise_if (le fl cooldown (of_ℕ 0)) (value_error "recovery cooldown must be positive")
    ok (record {
      providers = p ∷ ps;
      recovery_cooldown_seconds = cooldown;
      stats = init_stats (p ∷ ps) [];
    })

  -- `_get_stats`
  unfoldable pub find_stats : Router F → Provider → Result (ProviderStats F)
  find_stats r p = elim (lookup (provider_name p) r.stats) [
    | none ↦ raise (value_error "provider is not managed by this router")
    | some s ↦ ok s
  ]

  -- `_is_available`, of the statistics that it has looked up
  unfoldable pub stats_available : F → F → ProviderStats F → Bool
  stats_available cooldown now s =
      if ltb s.consecutive_failures failure_threshold
      then true
      else elim s.last_failure_at [ none ↦ false | some t ↦ le fl cooldown (sub now t) ]

  unfoldable pub is_available : Router F → F → Provider → Result Bool
  is_available r now p = do
    s ← find_stats r p
    ok (stats_available r.recovery_cooldown_seconds now s)

  -- The number that `_score_provider` computes.
  unfoldable pub stats_score : ProviderStats F → F
  stats_score s =
      if s.requests == 0
      then of_ℕ 1
      else let average = average_latency_seconds s in
        let latency_score = if lt (of_ℕ 0) average then average else of_ℕ 1 in
        add latency_score (sub (of_ℕ 1) (success_rate s))

  unfoldable pub score_provider : Router F → F → Provider → Result (ProviderScore F)
  score_provider r now p = do
    s ← find_stats r p
    available ← is_available r now p
    ok (record {
      provider_name = provider_name p;
      score = stats_score s;
      average_latency_seconds = average_latency_seconds s;
      success_rate = success_rate s;
      healthy = available;
    })

  -- The first loop of `select_provider`.
  unfoldable pub first_unobserved : Router F → List Provider → Result (Option Provider)
  first_unobserved r [] = ok none
  first_unobserved r (p ∷ ps) = do
    s ← find_stats r p
    if s.requests == 0 then ok (some p) else first_unobserved r ps

  -- The first comprehension: the scores of the available providers.
  unfoldable pub score_available : Router F → F → List Provider → Result (List (ProviderScore F))
  score_available r now [] = ok []
  score_available r now (p ∷ ps) = do
    available ← is_available r now p
    let rest = score_available r now ps
    let kept = do s ← score_provider r now p; others ← rest; ok (s ∷ others)
    if available then kept else rest

  -- The comprehension of `get_scores`, and of the fallback in `select_provider`.
  unfoldable pub score_all : Router F → F → List Provider → Result (List (ProviderScore F))
  score_all r now [] = ok []
  score_all r now (p ∷ ps) = do s ← score_provider r now p; rest ← score_all r now ps; ok (s ∷ rest)

  -- `min` by `score`, with the first of equal ones.
  unfoldable pub best_of : ProviderScore F → List (ProviderScore F) → ProviderScore F
  best_of best [] = best
  best_of best (s ∷ rest) = best_of (if lt s.score best.score then s else best) rest

  -- `min` raises on an empty list.
  unfoldable pub best_score : List (ProviderScore F) → Result (ProviderScore F)
  best_score [] = raise (value_error "min() arg is an empty sequence")
  best_score (s ∷ rest) = ok (best_of s rest)

  -- `if not scored: scored = [...]`
  unfoldable pub or_all : Router F → F → List (ProviderScore F) → Result (List (ProviderScore F))
  or_all r now [] = score_all r now r.providers
  or_all r now (s ∷ rest) = ok (s ∷ rest)

  -- `select_provider` after its first loop.
  unfoldable pub select_best : Router F → F → Result Provider
  select_best r now = do
    available ← score_available r now r.providers
    scored ← or_all r now available
    best ← best_score scored
    provider_by_name r.providers best.provider_name

  unfoldable pub select_provider : Router F → F → Result Provider
  select_provider r now = do
    fresh ← first_unobserved r r.providers
    elim fresh [ some p ↦ ok p | none ↦ select_best r now ]

  abbrev pub success_stats : F → ProviderStats F → ProviderStats F
  success_stats latency s = record s {
    requests = s.requests + 1;
    successes = s.successes + 1;
    total_latency_seconds = add s.total_latency_seconds latency;
    consecutive_failures = 0;
    last_failure_at = none;
  }

  abbrev pub failure_stats : F → ProviderStats F → ProviderStats F
  failure_stats now s = record s {
    requests = s.requests + 1;
    failures = s.failures + 1;
    consecutive_failures = s.consecutive_failures + 1;
    last_failure_at = some now;
  }

  -- The router object with one entry of `_stats` changed in place.
  abbrev pub set_stats : Router F → Provider → ProviderStats F → Router F
  set_stats r p s = record r { stats = insert (provider_name p) s r.stats }

  unfoldable pub record_success : Router F → Provider → F → Result (Router F)
  record_success r p latency = do
    raise_if (lt latency (of_ℕ 0)) (value_error "latency must not be negative")
    s ← find_stats r p
    ok (set_stats r p (success_stats latency s))

  unfoldable pub record_failure : Router F → Provider → F → Result (Router F)
  record_failure r p now = do s ← find_stats r p; ok (set_stats r p (failure_stats now s))

  -- A copy of the statistics: values have no identity here, so the copy is the value.
  unfoldable pub get_stats : Router F → Provider → Result (ProviderStats F)
  get_stats r p = find_stats r p

  unfoldable pub get_scores : Router F → F → Result (List (ProviderScore F))
  get_scores r now = score_all r now r.providers
