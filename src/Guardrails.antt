-- ===== src/Guardrails.antt =====
-- guardrails/contracts.py and guardrails/input/request_size.py.
use nexus_ai_platform.Prelude.{String, Bool, true, false, Option, none, some, if◌then◌else◌}
use nexus_ai_platform.Prelude.Int.{ℤ, pos, leb_ℤ, ltb_ℤ}
use nexus_ai_platform.Errors.{Result, ok, value_error, raise_if, ◌>>◌}
use nexus_ai_platform.Text.{text_length}

pub data GuardrailAction : Type 0 where
  allow block review : GuardrailAction

pub record GuardrailResult : Type 0 where
  pub action : GuardrailAction
  pub reason : Option String

-- The property `allowed`.
unfoldable pub allowed : GuardrailResult → Bool
allowed result = elim result.action [ allow ↦ true | block ↦ false | review ↦ false ]

pub record RequestSizeGuardrail : Type 0 where
  pub max_characters : ℤ

-- `__init__`
unfoldable pub new_request_size_guardrail : ℤ → Result RequestSizeGuardrail
new_request_size_guardrail max_characters = do
  raise_if (leb_ℤ max_characters (pos 0)) (value_error "max_characters must be positive")
  ok (record { max_characters = max_characters })

unfoldable pub evaluate : RequestSizeGuardrail → String → GuardrailResult
evaluate guardrail text =
    if ltb_ℤ guardrail.max_characters (pos (text_length text))
    then record { action = block; reason = some "request exceeds maximum allowed size" }
    else record { action = allow; reason = none }
