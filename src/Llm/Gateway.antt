-- ===== src/Llm/Gateway.antt =====
-- llm/gateway.py: `LLMGateway`, which selects a provider, retries transient failures with backoff,
-- and falls back to the other providers. Spans and their attributes are left out. Time passes
-- only where the code awaits, so a clock is read as a function of the world's state.
mod State
mod Config
pub mod Policy
pub mod Publishing
pub mod Retry
pub mod Reports
pub mod Failover
pub mod Generate
pub mod Shares
pub mod Bounds
pub mod Pauses
pub mod Startup
pub mod Concurrent
unfoldable pub use Config.{configure}
pub use State.{
  World, ErrorLabel, Status, Gauges, Metric, Act, Gateway, GatewayState, called, slept, duration,
  requests_total, errors_total, retries_total, fallbacks_total, selected_total, published,
}
use nexus_ai_platform.Prelude.{
  ℕ, zero, suc, ◌+◌, ◌^◌, String, Bool, true, false, Option, none, some, List, [], ◌∷◌, ◌++◌, ◌==◌,
  str_eq, if◌then◌else◌,
}
use nexus_ai_platform.Prelude.Int.{ℤ, pos, negsuc, ltb_ℤ, leb_ℤ}
use nexus_ai_platform.Text.{is_blank}
use nexus_ai_platform.Errors.{
  LlmErrorKind, Exception, Result, ok, raise, llm_error, builtin_timeout, value_error, raise_if,
}
use nexus_ai_platform.Exec.{Exec, pure, throw, lift, gets, catch, modify, ◌>>=◌, ◌>>◌}
use nexus_ai_platform.Floats.{Floats, le, smaller}
use nexus_ai_platform.Settings.{Settings}
use nexus_ai_platform.Llm.Models.{LlmRequest, LlmResponse, Provider}
use nexus_ai_platform.Llm.Router.{
  ProviderStats, ProviderScore, Router, success_rate, error_rate, average_latency_seconds,
  new_router, select_provider, record_success, record_failure, get_stats, get_scores,
}

-- `_provider_name`
unfoldable pub provider_name : Provider → String
provider_name p = elim p.name [
  | none ↦ p.class_name
  | some n ↦ if is_blank n then p.class_name else n
]

-- `_error_type`
unfoldable pub error_type : LlmErrorKind → ErrorLabel
error_type LlmErrorKind.rate_limit = ErrorLabel.rate_limit
error_type LlmErrorKind.unavailable = ErrorLabel.unavailable
error_type LlmErrorKind.timeout = ErrorLabel.timeout
error_type LlmErrorKind.base = ErrorLabel.provider_error
error_type LlmErrorKind.authentication = ErrorLabel.provider_error
error_type LlmErrorKind.response = ErrorLabel.provider_error

-- `_ordered_providers`: the selected one first, then the others in their configured order.
unfoldable pub others : Provider → List Provider → List Provider
others selected [] = []
others selected (p ∷ ps) =
    let rest = others selected ps in if p.identity == selected.identity then rest else p ∷ rest

unfoldable pub ordered_providers : List Provider → Provider → List Provider
ordered_providers ps selected = selected ∷ others selected ps

-- What the `except` clauses of `_generate_with_retry` make of the awaited call: `transient` is
-- retried while attempts are left and raises its exception after that, `fatal` is counted and
-- raised again, and no clause catches what is `uncaught`.
pub data Handling : Type 0 where
  returned : LlmResponse → Handling
  transient : ErrorLabel → Exception → Handling
  fatal : ErrorLabel → Exception → Handling
  uncaught : Exception → Handling

abbrev pub handle_llm : LlmErrorKind → Exception → Handling
handle_llm LlmErrorKind.rate_limit e = transient (error_type LlmErrorKind.rate_limit) e
handle_llm LlmErrorKind.unavailable e = transient (error_type LlmErrorKind.unavailable) e
handle_llm LlmErrorKind.authentication e = fatal ErrorLabel.authentication e
handle_llm LlmErrorKind.timeout e = fatal (error_type LlmErrorKind.timeout) e
handle_llm LlmErrorKind.base e = fatal (error_type LlmErrorKind.base) e
handle_llm LlmErrorKind.response e = fatal (error_type LlmErrorKind.response) e

unfoldable pub handle : Result LlmResponse → Handling
handle (ok response) = returned response
handle (raise builtin_timeout) =
    transient ErrorLabel.timeout (llm_error LlmErrorKind.timeout "LLM provider request timed out")
handle (raise (llm_error kind message)) = handle_llm kind (llm_error kind message)
handle (raise e) = uncaught e

-- `next(..., None)` in `_update_provider_metrics`
unfoldable pub provider_named : List Provider → String → Option Provider
provider_named [] name = none
provider_named (p ∷ ps) name =
    if str_eq (provider_name p) name then some p else provider_named ps name

-- One round more than the retries.
abbrev pub retry_fuel : ℤ → ℕ
retry_fuel (pos n) = suc n
retry_fuel (negsuc n) = 1

-- The `except` clauses of `generate`: does the loop go on to the next provider?
abbrev pub falls_back : LlmErrorKind → Bool
falls_back LlmErrorKind.rate_limit = true
falls_back LlmErrorKind.unavailable = true
falls_back LlmErrorKind.timeout = true
falls_back LlmErrorKind.authentication = false
falls_back LlmErrorKind.base = false
falls_back LlmErrorKind.response = false

module _ (fl : Floats) (world : World fl) where
  open fl use {F, of_ℕ, sub, mul, lt}

  -- A method of the gateway.
  abbrev pub Action : Type 0 → Type 0
  Action A = Exec (GatewayState F world.State) A

  abbrev pub emit : Metric F → Action Unit
  emit m = modify (λ s. record s { metrics = s.metrics ++ m ∷ [] })

  abbrev pub read_clock : Action F
  read_clock = gets (λ s. world.perf_counter s.world)

  -- A router's method that reads the monotonic clock and changes nothing.
  abbrev pub ask : {A : Type 0} → (Router F → F → Result A) → Action A
  ask f s = some (f s.router (world.monotonic s.world), s)

  -- A router's method that changes the router, if it returns.
  abbrev pub tell : (Router F → F → Result (Router F)) → Action Unit
  tell f s = elim (f s.router (world.monotonic s.world)) [
    | ok r ↦ some (ok tt, record s { router = r })
    | raise e ↦ some (raise e, s)
  ]

  abbrev pub gauges : ProviderStats F → ProviderScore F → Gauges F
  gauges stats score = record {
    requests = stats.requests;
    success_rate = success_rate fl stats;
    error_rate = error_rate fl stats;
    average_latency_seconds = average_latency_seconds fl stats;
    consecutive_failures = stats.consecutive_failures;
    healthy = score.healthy;
    score = score.score;
  }

  -- One round of the loop in `_update_provider_metrics`.
  unfoldable pub publish_for : ProviderScore F → Option Provider → Action Unit
  publish_for score none = pure tt
  publish_for score (some p) = do
    stats ← ask (λ r _. get_stats fl r p)
    emit (published score.provider_name (gauges stats score))

  unfoldable pub publish_all : Gateway F → List (ProviderScore F) → Action Unit
  publish_all g [] = pure tt
  publish_all g (score ∷ rest) =
      publish_for score (provider_named g.providers score.provider_name) >> publish_all g rest

  unfoldable pub update_provider_metrics : Gateway F → Action Unit
  update_provider_metrics g = do scores ← ask (get_scores fl); publish_all g scores

  -- The last step of `__init__`, which publishes the router's first scores.
  abbrev pub started :
      Gateway F
      → Option (Result (Unit {0}) × GatewayState F world.State)
      → Option (Result (Gateway F × GatewayState F world.State))
  started g none = none
  started g (some (ok _, s)) = some (ok (g, s))
  started g (some (raise e, s)) = some (raise e)

  abbrev pub launch :
      world.State
      → Result (Gateway F × Router F)
      → Option (Result (Gateway F × GatewayState F world.State))
  launch w (raise e) = some (raise e)
  launch w (ok (g, router)) =
      started g
        (update_provider_metrics g (record { router = router; world = w; acts = []; metrics = [] }))

  -- `__init__`
  unfoldable pub new_gateway :
      List Provider
      → Settings F
      → world.State
      → Option (Result (Gateway F × GatewayState F world.State))
  new_gateway ps settings w = launch w (configure fl ps settings)

  -- The delay of `_backoff`. The exponent is small: `2**attempt` is a finite float.
  unfoldable pub backoff_delay : Gateway F → ℕ → F
  backoff_delay g attempt =
      smaller fl (mul g.retry_base_delay (of_ℕ (2 ^ attempt))) g.retry_max_delay

  unfoldable pub backoff : Gateway F → ℕ → Action Unit
  backoff g attempt = modify (λ s. record s {
    world = world.sleep (backoff_delay g attempt) s.world;
    acts = s.acts ++ slept (backoff_delay g attempt) ∷ [];
  })

  -- The awaited call inside the `try` of `_generate_with_retry`.
  unfoldable pub await_provider : Gateway F → Provider → LlmRequest F → Action (Result LlmResponse)
  await_provider g p request s =
      let (outcome, w) = world.wait_for g.timeout_seconds p request s.world in
      some (ok outcome, record s { world = w; acts = s.acts ++ called p outcome ∷ [] })

  -- The counters that each `except` clause, and the `else`, update before they go on.
  unfoldable pub count_attempt : String → F → Handling → Action Unit
  count_attempt name seconds (returned response) =
      emit (duration name seconds) >> emit (requests_total name Status.success)
  count_attempt name seconds (transient label e) = do
    emit (duration name seconds)
    emit (requests_total name Status.error)
    emit (errors_total name label)
  count_attempt name seconds (fatal label e) = do
    emit (duration name seconds)
    emit (requests_total name Status.error)
    emit (errors_total name label)
  count_attempt name seconds (uncaught e) = pure tt

  -- One round of the `while True` loop, up to the test of the attempt number.
  unfoldable pub try_once : Gateway F → Provider → LlmRequest F → Action Handling
  try_once g p request = do
    started ← read_clock
    outcome ← await_provider g p request
    ended ← read_clock
    count_attempt (provider_name p) (sub ended started) (handle outcome)
    pure (handle outcome)

  -- The rest of the round: return, raise, or pause and go on with `next`.
  unfoldable pub react :
      Gateway F → Provider → ℕ → Action LlmResponse → Handling → Action LlmResponse
  react g p attempt next (returned response) = pure response
  react g p attempt next (fatal label e) = throw e
  react g p attempt next (uncaught e) = throw e
  react g p attempt next (transient label e) =
      if leb_ℤ g.max_retries (pos attempt)
      then throw e
      else emit (retries_total (provider_name p) label) >> backoff g attempt >> next

  -- The `while True` loop of `_generate_with_retry`, on fuel.
  unfoldable pub retry_loop : ℕ → Gateway F → Provider → LlmRequest F → ℕ → Action LlmResponse
  retry_loop zero g p request attempt = λ s. none
  retry_loop (suc fuel) g p request attempt =
      try_once g p request >>= react g p attempt (retry_loop fuel g p request (attempt + 1))

  unfoldable pub generate_with_retry : Gateway F → Provider → LlmRequest F → Action LlmResponse
  generate_with_retry g p request = retry_loop (retry_fuel g.max_retries) g p request 0

  -- `LLM_FALLBACKS_TOTAL`, if there is a next provider.
  unfoldable pub count_fallback : Provider → List Provider → Action Unit
  count_fallback p [] = pure tt
  count_fallback p (next ∷ rest) = emit (fallbacks_total (provider_name p) (provider_name next))

  -- `record_failure` and the metrics, which every `except` clause of `generate` begins with.
  unfoldable pub note_failure : Gateway F → Provider → Action Unit
  note_failure g p = tell (λ r now. record_failure fl r p now) >> update_provider_metrics g

  -- The rest of the `try` body, after the response has come.
  unfoldable pub note_success : Gateway F → Provider → F → Action Unit
  note_success g p started = do
    ended ← read_clock
    tell (λ r _. record_success fl r p (sub ended started))
    update_provider_metrics g

  -- After the loop over the providers.
  unfoldable pub give_up : Option Exception → Action LlmResponse
  give_up none = throw (llm_error LlmErrorKind.base "all LLM providers failed")
  give_up (some last_error) = throw last_error

  -- The rest of one round of the loop over the providers; `next` is the loop on the others, which
  -- is told the last error.
  unfoldable pub conclude :
      Gateway F
      → Provider
      → List Provider
      → F
      → (Exception → Action LlmResponse)
      → Result LlmResponse
      → Action LlmResponse
  conclude g p rest started next (ok response) = note_success g p started >> pure response
  conclude g p rest started next (raise (llm_error kind message)) =
      if falls_back kind
      then note_failure g p >> count_fallback p rest >> next (llm_error kind message)
      else note_failure g p >> throw (llm_error kind message)
  conclude g p rest started next (raise e) = throw e

  -- The loop over the ordered providers in `generate`.
  unfoldable pub try_providers :
      Gateway F → LlmRequest F → Option Exception → List Provider → Action LlmResponse
  try_providers g request last_error [] = give_up last_error
  try_providers g request last_error (p ∷ rest) = do
    started ← read_clock
    outcome ← catch (generate_with_retry g p request)
    conclude g p rest started (λ e. try_providers g request (some e) rest) outcome

  unfoldable pub generate : Gateway F → LlmRequest F → Action LlmResponse
  generate g request = do
    selected ← ask (select_provider fl)
    emit (selected_total (provider_name selected))
    update_provider_metrics g
    try_providers g request none (ordered_providers g.providers selected)
