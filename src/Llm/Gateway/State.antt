-- ===== src/Llm/Gateway/State.antt =====
-- The state of a gateway, what it publishes, and the world that it awaits.
use nexus_ai_platform.Prelude.{ℕ, String, Bool, false, List, ◌≡◌}
use nexus_ai_platform.Prelude.Int.{ℤ}
use nexus_ai_platform.Errors.{Result}
use nexus_ai_platform.Floats.{Floats}
use nexus_ai_platform.Llm.Models.{LlmRequest, LlmResponse, Provider}
use nexus_ai_platform.Llm.Router.{Router}

-- The label `error_type` of the counters.
pub data ErrorLabel : Type 0 where
  rate_limit unavailable timeout authentication provider_error : ErrorLabel

-- The label `status` of the counters.
pub data Status : Type 0 where
  success error : Status

-- The seven gauges that are set for one provider.
pub record Gauges (F : Type 0) : Type 0 where
  pub requests : ℕ
  pub success_rate : F
  pub error_rate : F
  pub average_latency_seconds : F
  pub consecutive_failures : ℕ
  pub healthy : Bool
  pub score : F

-- An update of one of the collectors of observability/llm_metrics.py, by its labels.
pub data Metric (F : Type 0) : Type 0 where
  duration : String → F → Metric F
  requests_total : String → Status → Metric F
  errors_total retries_total : String → ErrorLabel → Metric F
  fallbacks_total : String → String → Metric F
  selected_total : String → Metric F
  published : String → Gauges F → Metric F

-- What the gateway awaits: a call of a provider, with its outcome, or a pause.
pub data Act (F : Type 0) : Type 0 where
  called : Provider → Result LlmResponse → Act F
  slept : F → Act F

-- Everything outside the program. `wait_for` is `asyncio.wait_for(provider.generate(request),
-- timeout)`, which raises the builtin `TimeoutError` at the deadline. `perf_counter` and
-- `monotonic` read clocks, and the first never runs backwards.
pub record World (fl : Floats) : Type 1 where
  pub State : Type 0
  pub perf_counter : State → fl.F
  pub monotonic : State → fl.F
  pub wait_for : fl.F → Provider → LlmRequest fl.F → State → Result LlmResponse × State
  pub sleep : fl.F → State → State
  pub wait_for_clock :
      (timeout : fl.F) (p : Provider) (request : LlmRequest fl.F) (w : State)
      → fl.lt (perf_counter (wait_for timeout p request w).1) (perf_counter w) ≡ false
  pub sleep_clock :
      (delay : fl.F) (w : State) → fl.lt (perf_counter (sleep delay w)) (perf_counter w) ≡ false

-- The fields that `__init__` sets and nothing changes.
pub record Gateway (F : Type 0) : Type 0 where
  pub providers : List Provider
  pub timeout_seconds : F
  pub max_retries : ℤ
  pub retry_base_delay : F
  pub retry_max_delay : F

-- What a call changes: the router, the world, and the logs of awaits and of metrics, in order.
pub record GatewayState (F W : Type 0) : Type 0 where
  pub router : Router F
  pub world : W
  pub acts : List (Act F)
  pub metrics : List (Metric F)
