-- ===== src/Llm/Providers/Groq.antt =====
-- llm/providers/groq.py. Its code is that of llm/providers/mistral.py, with another brand and
-- another address.
use nexus_ai_platform.Prelude.{String, Option}
use nexus_ai_platform.Errors.{Result}
use nexus_ai_platform.Floats.{Floats}
use nexus_ai_platform.Llm.Http.{HttpClientPool, Network}
use nexus_ai_platform.Llm.Models.{LlmResponse}
use nexus_ai_platform.Llm.Providers.Chat
use nexus_ai_platform.Llm.Providers.Chat.{ChatProvider, new_chat_provider}

-- `__init__`
unfoldable pub new_groq_provider :
    (fl : Floats) → String → String → fl.F → Option HttpClientPool → Result (ChatProvider fl.F)
new_groq_provider fl = new_chat_provider fl "Groq" "https://api.groq.com/openai/v1/chat/completions"

unfoldable pub generate :
    {F : Type 0} (net : Network)
    → ChatProvider F
    → String
    → net.State
    → Result LlmResponse × ChatProvider F × net.State
generate = Chat.generate
