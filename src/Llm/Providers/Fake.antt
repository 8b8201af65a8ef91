-- ===== src/Llm/Providers/Fake.antt =====
-- llm/providers/fake.py
use Prim.Native.String.{◌++◌ as ◌<>◌}
use nexus_ai_platform.Prelude.{ℕ, ◌+◌, String}
use nexus_ai_platform.Prelude.Int.{pos}
use nexus_ai_platform.Llm.Models.{LlmResponse}

pub record FakeProvider : Type 0 where
  pub model : String
  pub name : String
  pub calls : ℕ

unfoldable pub generate : FakeProvider → String → LlmResponse × FakeProvider
generate p prompt = (
  record {
    content = "Generated response for: " <> prompt;
    model = p.model;
    input_tokens = pos 0;
    output_tokens = pos 0;
  },
  record p { calls = p.calls + 1 },
)
