-- ===== src/Llm/Service.antt =====
-- llm/services/gateway.py: a gateway over one provider, which validates requests. Its exception
-- `LLMProviderTimeoutError` is a class of its own, and no `LLMProviderError`.
pub mod Valid
use nexus_ai_platform.Prelude.{
  ℕ, String, Bool, true, false, not, ◌||◌, Option, none, some, ltb, str_eq, if◌then◌else◌,
}
use nexus_ai_platform.Prelude.Int.{ℤ, pos, leb_ℤ}
use nexus_ai_platform.Errors.{
  Exception, Result, ok, raise, value_error, builtin_timeout, other, raise_if, ◌>>=◌, ◌>>◌,
}
use nexus_ai_platform.Floats.{Floats, le}
use nexus_ai_platform.Text.{strip, text_length}
use nexus_ai_platform.Llm.Models.{LlmRequest, LlmResponse, Provider}
use nexus_ai_platform.Llm.Gateway.{World}

pub record Service (F : Type 0) : Type 0 where
  pub provider : Provider
  pub timeout_seconds : F

module _ (fl : Floats) where
  open fl use {F, lt, of_ℕ}

  -- `__init__`
  unfoldable pub new_service : Provider → F → Result (Service F)
  new_service provider timeout_seconds = do
    raise_if (le fl timeout_seconds (of_ℕ 0)) (value_error "timeout_seconds must be positive")
    ok (record { provider = provider; timeout_seconds = timeout_seconds })

  -- `_validate_request`
  unfoldable pub validate_request : LlmRequest F → Result (Unit {0})
  validate_request request = do
    raise_if (str_eq (strip request.prompt) "") (value_error "prompt must not be empty")
    raise_if (ltb 32000 (text_length (strip request.prompt)))
        (value_error "prompt exceeds maximum length")
    raise_if (leb_ℤ request.max_tokens (pos 0)) (value_error "max_tokens must be positive")
    raise_if (lt request.temperature (of_ℕ 0) || lt (of_ℕ 2) request.temperature)
        (value_error "temperature must be between 0 and 2")
    ok tt

  -- The `except` clause.
  unfoldable pub translate : Result LlmResponse → Result LlmResponse
  translate (raise builtin_timeout) = raise (other "LLMProviderTimeoutError")
  translate outcome = outcome

  module _ (world : World fl) where
    abbrev pub call_provider :
        Service F
        → LlmRequest F
        → world.State
        → Result (Unit {0})
        → Result LlmResponse × world.State
    call_provider g request w (raise e) = (raise e, w)
    call_provider g request w (ok _) =
        let (outcome, w') = world.wait_for g.timeout_seconds g.provider request w in
        (translate outcome, w')

    unfoldable pub generate :
        Service F → LlmRequest F → world.State → Result LlmResponse × world.State
    generate g request w = call_provider g request w (validate_request request)
