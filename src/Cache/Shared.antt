-- ===== src/Cache/Shared.antt =====
-- The one Redis under all the services of the cache: the semantic cache, the agent memory and the
-- rate limiter keep their data side by side, in keys that cache/keys.py makes.
pub mod Commands
pub mod Apart
pub mod Limit
use nexus_ai_platform.Prelude.{ℕ, String, Option, none, some, List, [], ◌∷◌}
use nexus_ai_platform.Codec.{Codec}
use nexus_ai_platform.Cache.Redis.{Redis}
use nexus_ai_platform.Cache.Keys.Kinds.{Kind, answers, sessions, minutes, hours}
use nexus_ai_platform.Cache.RedisCache.{ping}
use nexus_ai_platform.Cache.RedisCache.Counts.{counters}
use nexus_ai_platform.Cache.RedisCache.Texts.{text_store}
use nexus_ai_platform.Cache.RedisMemory.Sessions as Lists
use nexus_ai_platform.Cache.RateLimiter.{RateLimiter, check}
use nexus_ai_platform.Cache.SemanticCache
use nexus_ai_platform.Cache.SemanticCache.{SemanticCache, normalize}
use nexus_ai_platform.Cache.Memory.{AgentMemory, MemoryMessage, append, get_recent, clear}

-- What a worker may ask of a service that keeps its data in the Redis.
pub data Operation : Type 0 where
  probes : Operation
  looks_up forgets : String → Operation
  keeps : SemanticCache → String → String → Operation
  says : AgentMemory → String → MemoryMessage → Operation
  recalls : AgentMemory → String → Operation
  clears : String → Operation
  checks : RateLimiter → String → Operation

module _ (redis : Redis) (codec : Codec) where
  open redis use {State}

  unfoldable pub perform : Operation → State → State
  perform probes s = (ping redis s).1
  perform (looks_up query) s = (SemanticCache.get codec (text_store redis) query s).1
  perform (forgets query) s = (SemanticCache.delete codec (text_store redis) query s).1
  perform (keeps cache query response) s =
      (SemanticCache.set codec (text_store redis) cache query response s).1
  perform (says memory id message) s = (append codec (Lists.sessions redis) memory id message s).1
  perform (recalls memory id) s = (get_recent codec (Lists.sessions redis) memory id s).1
  perform (clears id) s = (clear codec (Lists.sessions redis) id s).1
  perform (checks limiter user) s = (check (counters redis) limiter user s).1

  abbrev pub perform_all : List Operation → State → State
  perform_all [] s = s
  perform_all (o ∷ operations) s = perform_all operations (perform o s)

  -- The kinds of the keys that an operation may change, and the hash or the session in them.
  abbrev pub aims : Operation → List (Kind × Option String)
  aims probes = []
  aims (looks_up query) = []
  aims (forgets query) = (answers, some (codec.sha256_hex (normalize codec query))) ∷ []
  aims (keeps cache query response) =
      (answers, some (codec.sha256_hex (normalize codec query))) ∷ []
  aims (says memory id message) = (sessions, some id) ∷ []
  aims (recalls memory id) = []
  aims (clears id) = (sessions, some id) ∷ []
  aims (checks limiter user) = (minutes, none) ∷ (hours, none) ∷ []
