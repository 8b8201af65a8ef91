-- ===== src/Llm/Models.antt =====
-- llm/models.py, and what the router and the gateway see of a provider (llm/protocol.py).
use nexus_ai_platform.Prelude.{ℕ, String, Option}
use nexus_ai_platform.Prelude.Int.{ℤ}

pub record LlmRequest (F : Type 0) : Type 0 where
  pub prompt : String
  pub model : Option String
  pub max_tokens : ℤ
  pub temperature : F

pub record LlmResponse : Type 0 where
  pub content : String
  pub model : String
  pub input_tokens : ℤ
  pub output_tokens : ℤ

-- `identity` is what the operator `is` compares, `name` the string that
-- `getattr(provider, "name", None)` finds (`none`: no attribute, or not a string), and
-- `class_name` is `provider.__class__.__name__.lower()`.
pub record Provider : Type 0 where
  pub identity : ℕ
  pub name : Option String
  pub class_name : String
