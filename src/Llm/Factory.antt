-- ===== src/Llm/Factory.antt =====
-- llm/factory.py: the chain of providers that the settings name.
pub mod Configured
pub mod Chain
use Prim.Native.String.{◌++◌ as ◌<>◌}
use nexus_ai_platform.Prelude.{
  ℕ, suc, ◌+◌, String, Bool, true, false, not, Option, none, some, List, [], ◌∷◌, map, select,
  str_eq, if◌then◌else◌,
}
use nexus_ai_platform.Errors.{
  LlmErrorKind, Result, ok, raise, llm_error, value_error, raise_if, ◌>>=◌, ◌>>◌,
}
use nexus_ai_platform.Floats.{Floats}
use nexus_ai_platform.Text.{strip, is_blank, split_at}
use nexus_ai_platform.Codec.{Codec}
use nexus_ai_platform.Settings.{Settings}
use nexus_ai_platform.Llm.Http.{HttpClientPool}
use nexus_ai_platform.Llm.Models.{Provider}
use nexus_ai_platform.Llm.Providers.Chat.{ChatProvider}
use nexus_ai_platform.Llm.Providers.Mistral.{new_mistral_provider}
use nexus_ai_platform.Llm.Providers.Groq.{new_groq_provider}
use nexus_ai_platform.Llm.Providers.Gemini.{GeminiProvider, new_gemini_provider}
use nexus_ai_platform.Llm.Providers.Fake.{FakeProvider}

-- A provider of one of the four classes.
pub data Built (F : Type 0) : Type 0 where
  mistral groq : ChatProvider F → Built F
  gemini : GeminiProvider → Built F
  fake : FakeProvider → Built F

-- The property `name`.
unfoldable pub built_name : {F : Type 0} → Built F → String
built_name (mistral _) = "mistral"
built_name (groq _) = "groq"
built_name (gemini _) = "gemini"
built_name (fake p) = p.name

-- `if not settings.…_api_key: raise`, and the key.
unfoldable pub required_key : Option String → String → Result String
required_key none message = raise (llm_error LlmErrorKind.base message)
required_key (some key) message =
    if str_eq key "" then raise (llm_error LlmErrorKind.base message) else ok key

-- `provider_names`
unfoldable pub provider_names : {F : Type 0} → Codec → Settings F → List String
provider_names codec settings =
    map (λ name. codec.lower (strip name))
      (select (λ name. not (is_blank name)) (split_at b',' settings.llm_provider))

module _ (fl : Floats) (settings : Settings fl.F) (pool : Option HttpClientPool) where
  open fl use {F}

  unfoldable pub build_mistral : Result (Built F)
  build_mistral = do
    key ←
        required_key settings.mistral_api_key
          "Mistral provider selected but MISTRAL_API_KEY is not configured"
    p ← new_mistral_provider fl key settings.mistral_model (fl.of_ℕ 30) pool
    ok (mistral p)

  unfoldable pub build_groq : Result (Built F)
  build_groq = do
    key ←
        required_key settings.groq_api_key
          "Groq provider selected but GROQ_API_KEY is not configured"
    p ← new_groq_provider fl key settings.groq_model (fl.of_ℕ 30) pool
    ok (groq p)

  unfoldable pub build_gemini : Result (Built F)
  build_gemini = do
    key ←
        required_key settings.gemini_api_key
          "Gemini provider selected but GEMINI_API_KEY is not configured"
    p ← new_gemini_provider key settings.gemini_model pool
    ok (gemini p)

  -- One round of the loop.
  unfoldable pub build_provider : String → Result (Built F)
  build_provider name =
      if str_eq name "mistral"
      then build_mistral
      else if str_eq name "groq"
      then build_groq
      else if str_eq name "gemini"
      then build_gemini
      else if str_eq name "fake"
      then ok (fake (record { model = "fake-model"; name = "fake"; calls = 0 }))
      else raise (value_error ("unsupported LLM provider: " <> name))

  unfoldable pub build_all : List String → Result (List (Built F))
  build_all [] = ok []
  build_all (name ∷ names) = do p ← build_provider name; ps ← build_all names; ok (p ∷ ps)

  abbrev pub build_named : List String → Result (List (Built F))
  build_named [] = raise (value_error "at least one LLM provider must be configured")
  build_named (name ∷ names) = build_all (name ∷ names)

  unfoldable pub build_llm_providers : Codec → Result (List (Built F))
  build_llm_providers codec = build_named (provider_names codec settings)

-- The built objects as the gateway sees them: every one is another object.
unfoldable pub class_name : {F : Type 0} → Built F → String
class_name (mistral _) = "mistralllmprovider"
class_name (groq _) = "groqllmprovider"
class_name (gemini _) = "geminillmprovider"
class_name (fake _) = "fakellmprovider"

unfoldable pub as_providers : {F : Type 0} → ℕ → List (Built F) → List Provider
as_providers n [] = []
as_providers n (p ∷ ps) =
    record { identity = n; name = some (built_name p); class_name = class_name p }
    ∷ as_providers (suc n) ps
