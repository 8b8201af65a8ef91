-- ===== src/Llm/Gateway/Config.antt =====
-- `LLMGateway.__init__` of llm/gateway.py: its checks and assignments.
use nexus_ai_platform.Prelude.{List, [], ◌∷◌}
use nexus_ai_platform.Prelude.Int.{pos, ltb_ℤ}
use nexus_ai_platform.Errors.{Result, ok, raise, value_error, raise_if, ◌>>=◌, ◌>>◌}
use nexus_ai_platform.Floats.{Floats, le}
use nexus_ai_platform.Settings.{Settings}
use nexus_ai_platform.Llm.Models.{Provider}
use nexus_ai_platform.Llm.Router.{Router, new_router}
use nexus_ai_platform.Llm.Gateway.State.{Gateway}

module _ (fl : Floats) where
  open fl use {F, of_ℕ, lt}

  -- The router's cooldown is the default of its parameter.
  unfoldable pub configure : List Provider → Settings F → Result (Gateway F × Router F)
  configure [] settings = raise (value_error "at least one LLM provider is required")
  configure (p ∷ ps) settings = do
    router ← new_router fl (p ∷ ps) (of_ℕ 30)
    raise_if (le fl settings.llm_request_timeout_seconds (of_ℕ 0))
        (value_error "LLM request timeout must be positive")
    raise_if (ltb_ℤ settings.llm_max_retries (pos 0))
        (value_error "LLM max retries must not be negative")
    raise_if (le fl settings.llm_retry_base_delay_seconds (of_ℕ 0))
        (value_error "LLM retry base delay must be positive")
    raise_if (le fl settings.llm_retry_max_delay_seconds (of_ℕ 0))
        (value_error "LLM retry max delay must be positive")
    raise_if (lt settings.llm_retry_max_delay_seconds settings.llm_retry_base_delay_seconds)
        (value_error "LLM retry base delay must not exceed max delay")
    ok (
      record {
        providers = p ∷ ps;
        timeout_seconds = settings.llm_request_timeout_seconds;
        max_retries = settings.llm_max_retries;
        retry_base_delay = settings.llm_retry_base_delay_seconds;
        retry_max_delay = settings.llm_retry_max_delay_seconds;
      },
      router,
    )
