-- ===== src/Api/Generate.antt =====
-- api/routes/generate.py: the handler, once the caller has passed the guards and the payload its
-- validation. Every exception that the cache raises is suppressed.
pub mod Served
use nexus_ai_platform.Prelude.{ℕ, String, Bool, ◌&&◌, Option, none, some, leb}
use nexus_ai_platform.Prelude.Int.{pos}
use nexus_ai_platform.Errors.{Exception, Result, ok, raise}
use nexus_ai_platform.Floats.{Floats}
use nexus_ai_platform.Text.{text_length}
use nexus_ai_platform.Codec.{Codec}
use nexus_ai_platform.Cache.TextStore.{TextStore}
use nexus_ai_platform.Cache.SemanticCache
use nexus_ai_platform.Cache.SemanticCache.{SemanticCache, CacheEntry}
use nexus_ai_platform.Llm.Models.{LlmRequest, LlmResponse}
use nexus_ai_platform.Llm.Gateway.{World, Gateway, GatewayState}
use nexus_ai_platform.Llm.Gateway

-- The bounds on the field `prompt`.
unfoldable pub accepts_prompt : String → Bool
accepts_prompt prompt = leb 1 (text_length prompt) && leb (text_length prompt) 10000

pub record GenerateResponse : Type 0 where
  pub content : String
  pub model : String
  pub source : String

-- The entry that the cache has found: an exception is as good as none.
unfoldable pub found : Result (Option CacheEntry) → Option CacheEntry
found (ok cached) = cached
found (raise e) = none

unfoldable pub from_cache : CacheEntry → GenerateResponse
from_cache cached = record { content = cached.response; model = "cache"; source = "semantic_cache" }

unfoldable pub from_llm : LlmResponse → GenerateResponse
from_llm response = record { content = response.content; model = response.model; source = "llm" }

-- `LLMRequest(prompt=payload.prompt)`, with the defaults of the other fields
unfoldable pub request_of : (fl : Floats) → String → LlmRequest fl.F
request_of fl prompt = record {
  prompt = prompt;
  model = none;
  max_tokens = pos 512;
  temperature = fl.of_ℕ 0;
}

module _ (codec : Codec) (store : TextStore) (fl : Floats) (world : World fl) where
  open fl use {F}

  -- What the handler changes: the store behind the cache, and the gateway.
  abbrev pub Served : Type 0
  Served = Result GenerateResponse × store.State × GatewayState F world.State

  -- After the gateway's answer.
  unfoldable pub keep :
      SemanticCache
      → String
      → store.State
      → Option (Result LlmResponse × GatewayState F world.State)
      → Option Served
  keep cache prompt c none = none
  keep cache prompt c (some (raise e, s)) = some (raise e, c, s)
  keep cache prompt c (some (ok response, s)) =
      some (
        ok (from_llm response),
        (SemanticCache.set codec store cache prompt response.content c).1,
        s,
      )

  -- With the cache's answer.
  unfoldable pub answer_with :
      SemanticCache
      → Gateway F
      → String
      → Option CacheEntry
      → store.State
      → GatewayState F world.State
      → Option Served
  answer_with cache g prompt (some cached) c s = some (ok (from_cache cached), c, s)
  answer_with cache g prompt none c s =
      keep cache prompt c (Gateway.generate fl world g (request_of fl prompt) s)

  unfoldable pub generate :
      SemanticCache → Gateway F → String → store.State → GatewayState F world.State → Option Served
  generate cache g prompt c s =
      let (cached, c') = SemanticCache.get codec store prompt c in
      answer_with cache g prompt (found cached) c' s
