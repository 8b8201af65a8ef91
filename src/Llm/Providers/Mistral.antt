-- ===== src/Llm/Providers/Mistral.antt =====
-- llm/providers/mistral.py, whose code Chat models.
use nexus_ai_platform.Prelude.{String, Option}
use nexus_ai_platform.Errors.{Result}
use nexus_ai_platform.Floats.{Floats}
use nexus_ai_platform.Llm.Http.{HttpClientPool}
use nexus_ai_platform.Llm.Providers.Chat.{ChatProvider, new_chat_provider}

-- `__init__`
unfoldable pub new_mistral_provider :
    (fl : Floats) → String → String → fl.F → Option HttpClientPool → Result (ChatProvider fl.F)
new_mistral_provider fl =
    new_chat_provider fl "Mistral" "https://api.mistral.ai/v1/chat/completions"
