-- ===== src/Api/Generate/Served.antt =====
-- How the cache and the gateway serve a request together.
use nexus_ai_platform.Prelude.{
  Option-cases, ℕ, ◌<◌, String, Bool, Option, none, some, ◌≡◌, refl, ap, inl, inr,
}
use nexus_ai_platform.Prelude.Int.{pos}
use nexus_ai_platform.Errors.{Exception, Result, ok, raise}
use nexus_ai_platform.Floats.{Floats}
use nexus_ai_platform.Codec.{Codec}
use nexus_ai_platform.Cache.TextStore.{TextStore}
use nexus_ai_platform.Cache.SemanticCache
use nexus_ai_platform.Cache.SemanticCache.{SemanticCache, CacheEntry, cache_key}
use nexus_ai_platform.Cache.SemanticCache.Stored.{folded_words, get-set}
use nexus_ai_platform.Llm.Models.{LlmResponse}
use nexus_ai_platform.Llm.Gateway
use nexus_ai_platform.Llm.Gateway.{World, Gateway, GatewayState}
use nexus_ai_platform.Llm.Gateway.Publishing.{IsReady}
use nexus_ai_platform.Llm.Gateway.Generate.{generate_run}
use nexus_ai_platform.Api.Generate.{
  GenerateResponse, found, from_cache, from_llm, request_of, keep, answer_with, generate,
}

module _ (codec : Codec) (store : TextStore) (fl : Floats) (world : World fl)
    (cache : SemanticCache) (g : Gateway fl.F) where
  open fl use {F}

  -- How a request is served, by what the cache found and what the gateway came to: from the cache,
  -- and the gateway is left alone; or as the gateway answers, and the answer is handed to the
  -- cache; or not, with the gateway's own exception.
  pub data IsServed (prompt : String) (c : store.State) (s : GatewayState F world.State)
      : Result GenerateResponse × store.State × GatewayState F world.State → Type 0 where
    hit :
        (cached : CacheEntry) (c' : store.State)
        → SemanticCache.get codec store prompt c ≡ (ok (some cached), c')
        → IsServed prompt c s (
          ok (record { content = cached.response; model = "cache"; source = "semantic_cache" }),
          c',
          s,
        )
    answered :
        (response : LlmResponse) (s' : GatewayState F world.State)
        → found (SemanticCache.get codec store prompt c).0 ≡ none
        → Gateway.generate fl world g (request_of fl prompt) s ≡ some (ok response, s')
        → IsServed prompt c s (
          ok (record { content = response.content; model = response.model; source = "llm" }),
          (SemanticCache.set codec store cache prompt response.content
              (SemanticCache.get codec store prompt c).1).1,
          s',
        )
    failed :
        (e : Exception) (s' : GatewayState F world.State)
        → found (SemanticCache.get codec store prompt c).0 ≡ none
        → Gateway.generate fl world g (request_of fl prompt) s ≡ some (raise e, s')
        → IsServed prompt c s (raise e, (SemanticCache.get codec store prompt c).1, s')

  miss :
      (prompt : String) (c : store.State) (s : GatewayState F world.State) (r : Result LlmResponse)
      (s' : GatewayState F world.State)
      → found (SemanticCache.get codec store prompt c).0 ≡ none
      → Gateway.generate fl world g (request_of fl prompt) s ≡ some (r, s')
      → (x : _) × (answer_with codec store fl world cache g prompt none
            (SemanticCache.get codec store prompt c).1
            s
          ≡ some x)
        × IsServed prompt c s x
  unfolding answer_with keep from_llm
  miss prompt c s (ok response) s' nothing e = (_, rw e refl, answered response s' nothing e)
  miss prompt c s (raise x) s' nothing e = (_, rw e refl, failed x s' nothing e)

  found-inv :
      (r : Result (Option CacheEntry)) (cached : CacheEntry)
      → found r ≡ some cached
      → r ≡ ok (some cached)
  unfolding found
  found-inv (ok o) cached e = ap ok e
  found-inv (raise x) cached e = cc

  served_from_cache :
      (prompt : String) (c : store.State) (s : GatewayState F world.State) (cached : CacheEntry)
      → found (SemanticCache.get codec store prompt c).0 ≡ some cached
      → generate codec store fl world cache g prompt c s
        ≡ some (
          ok (record { content = cached.response; model = "cache"; source = "semantic_cache" }),
          (SemanticCache.get codec store prompt c).1,
          s,
        )
  unfolding generate answer_with from_cache
  served_from_cache prompt c s cached e = rw e refl

  -- A gateway with `n` retries, whose router manages its providers, serves every request, whatever
  -- the cache does, an exception included: from the cache, with no use of the gateway; or with the
  -- gateway's answer, which is handed to the cache; or with the gateway's exception.
  pub generate-IsServed :
      (n : ℕ) (prompt : String) (c : store.State) (s : GatewayState F world.State)
      → g.max_retries ≡ pos n
      → IsReady fl world g s.router
      → (x : Result GenerateResponse × store.State × GatewayState F world.State) × (generate codec
            store fl world cache g prompt c s
          ≡ some x)
        × IsServed prompt c s x
  unfolding generate
  generate-IsServed n prompt c s max ready =
      elim (Option-cases (found (SemanticCache.get codec store prompt c).0)) [
        | inr (cached, e) ↦
            let r = found-inv (SemanticCache.get codec store prompt c).0 cached e in
            (
              _,
              served_from_cache prompt c s cached e,
              hit cached (SemanticCache.get codec store prompt c).1
                  (ap (λ x. (x, (SemanticCache.get codec store prompt c).1)) r),
            )
        | inl nothing ↦
            let (q, best, (r, s', acts, _, ended, logged, policy, _, _)) =
              generate_run fl world g n (request_of fl prompt) s max ready in
            let (x, e, served) = miss prompt c s r s' nothing ended in (x, rw nothing e, served)
      ]

  -- After a `set` that returned, and with nothing but `d` seconds in between, fewer than its time to
  -- live, the answer serves a request whose words, one blank between two, have the same `casefold`,
  -- if the store replies; and the gateway is not used.
  pub generate-set :
      (ttl d : ℕ) (prompt prompt' response : String) (c : store.State)
      (s : GatewayState F world.State) (b : Bool) (payload : Option String)
      → cache.ttl_seconds ≡ pos ttl
      → (SemanticCache.set codec store cache prompt response c).0 ≡ ok b
      → folded_words codec prompt ≡ folded_words codec prompt'
      → d < ttl
      → let t = store.wait d (SemanticCache.set codec store cache prompt response c).1 in
        (store.get (cache_key codec prompt') t).0 ≡ ok payload
        → (c' : store.State) × (generate codec store fl world cache g prompt' t s
            ≡ some (
              ok (record { content = response; model = "cache"; source = "semantic_cache" }),
              c',
              s,
            ))
  unfolding found
  generate-set ttl d prompt prompt' response c s b payload keeps taken same early replied =
      let t = store.wait d (SemanticCache.set codec store cache prompt response c).1 in
      let kept =
        get-set codec store cache ttl d prompt prompt' response c b payload keeps taken same early
          replied in
      (
        (SemanticCache.get codec store prompt' t).1,
        served_from_cache prompt' t s (record { response = response; source = "semantic_cache" })
            (found_kept (SemanticCache.get codec store prompt' t).0 _ kept),
      )
    where
      found_kept : (r : Result (Option CacheEntry)) (o : Option CacheEntry) → r ≡ ok o → found r ≡ o
      found_kept r o e = ap found e
