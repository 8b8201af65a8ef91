-- ===== src/Cache/SemanticCache.antt =====
-- cache/services/semantic_cache.py: answers kept under the hash of the normalised query.
pub mod Stored
pub mod Kept
use Prim.Native.String.{◌++◌ as ◌<>◌}
use nexus_ai_platform.Prelude.{
  [], ◌∷◌, ℕ, String, Bool, true, false, Option, none, some, List, ltb, leb, if◌then◌else◌, str_eq,
}
use nexus_ai_platform.Prelude.Int.{ℤ, pos, leb_ℤ, ltb_ℤ}
use nexus_ai_platform.Errors.{
  Result, ok, raise, value_error, attribute_error, raise_if, ◌>>=◌, ◌>>◌,
}
use nexus_ai_platform.Settings.{Settings}
use nexus_ai_platform.Text.{strip, words, join, byte_size}
use nexus_ai_platform.Codec.{Codec}
use nexus_ai_platform.Llm.Json.{Json, Fields, object, string, end, field, get_field}
use nexus_ai_platform.Cache.Keys.{semantic_cache_key}
use nexus_ai_platform.Cache.TextStore.{TextStore}

pub record CacheEntry : Type 0 where
  pub response : String
  pub source : String

pub data CacheMetric : Type 0 where
  semantic_cache_hits semantic_cache_misses : CacheMetric

pub record SemanticCache : Type 0 where
  pub ttl_seconds : ℤ
  pub max_bytes : ℤ

-- `__init__`
unfoldable pub new_semantic_cache : {F : Type 0} → Settings F → Result SemanticCache
new_semantic_cache settings = do
  raise_if (leb_ℤ settings.semantic_cache_ttl_seconds (pos 0))
      (value_error "semantic cache TTL must be positive")
  raise_if (leb_ℤ settings.semantic_cache_max_bytes (pos 0))
      (value_error "semantic cache max bytes must be positive")
  ok (record {
    ttl_seconds = settings.semantic_cache_ttl_seconds;
    max_bytes = settings.semantic_cache_max_bytes;
  })

-- The counters that `get` increments, which its outcome determines: the one of the misses before it
-- returns nothing, the one of the hits before it returns an entry, and none where it raises.
unfoldable pub get_metrics : Result (Option CacheEntry) → List CacheMetric
get_metrics (ok none) = semantic_cache_misses ∷ []
get_metrics (ok (some _)) = semantic_cache_hits ∷ []
get_metrics (raise _) = []

module _ (codec : Codec) where
  open codec use {dumps, loads, sha256_hex, casefold}

  -- `_normalize`
  unfoldable pub normalize : String → String
  normalize query = casefold (join " " (words (strip query)))

  unfoldable pub cache_key : String → String
  cache_key query = semantic_cache_key (sha256_hex (normalize query))

  -- The test and the result at the end of `get`.
  unfoldable pub entry_of : Option Json → Result (Option CacheEntry)
  entry_of (some (string response)) =
      ok (some (record { response = response; source = "semantic_cache" }))
  entry_of _ = raise (value_error "invalid semantic cache payload")

  -- `get`, after the store's answer.
  unfoldable pub read_payload : Option String → Result (Option CacheEntry)
  read_payload none = ok none
  read_payload (some payload) = do
    value ← loads payload
    response ← get_field "response" value
    entry_of response

  unfoldable pub payload_of : String → String
  payload_of response = dumps (object (field "response" (string response) end))

  module _ (store : TextStore) where
    open store use {State}

    unfoldable pub get : String → State → Result (Option CacheEntry) × State
    get query s =
        let (payload, s') = store.get (cache_key query) s in (payload >>= read_payload, s')

    unfoldable pub set : SemanticCache → String → String → State → Result Bool × State
    set cache query response s =
        if ltb_ℤ cache.max_bytes (pos (byte_size (payload_of response)))
        then (raise (value_error "semantic cache payload exceeds maximum size"), s)
        else store.set (cache_key query) (payload_of response) cache.ttl_seconds s

    unfoldable pub delete : String → State → Result ℕ × State
    delete query s = store.delete (cache_key query) s
