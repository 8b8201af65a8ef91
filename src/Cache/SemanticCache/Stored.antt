-- ===== src/Cache/SemanticCache/Stored.antt =====
-- What the cache gives back, and what it never does.
use nexus_ai_platform.Prelude.{
  ℕ, ◌+◌, ◌<◌, String, Bool, Option, none, some, ◌≡◌, refl, ap, sym, ◌∙◌, subst, ◌⊎◌, inl, inr,
  arith, Bool-cases,
}
use nexus_ai_platform.Prelude.Int.{pos, ltb_ℤ}
use nexus_ai_platform.Errors.{Result, ok}
use nexus_ai_platform.Text.{words, join, byte_size}
use nexus_ai_platform.Text.Words.{words-strip}
use nexus_ai_platform.Cache.Keys.{semantic_cache_key}
use nexus_ai_platform.Codec.{Codec}
use nexus_ai_platform.Llm.Json.{get_field}
use nexus_ai_platform.Cache.TextStore.{TextStore}
use nexus_ai_platform.Cache.SemanticCache.{
  SemanticCache, normalize, cache_key, payload_of, read_payload, entry_of, get, set,
}

module _ (codec : Codec) where
  -- The words of a query, one blank between two, with the case of their letters folded.
  abbrev pub folded_words : String → String
  folded_words query = codec.casefold (join " " (words query))

  -- Queries of the same words, but for the case, have the same key.
  cache_key-words :
      (query query' : String)
      → folded_words query ≡ folded_words query'
      → cache_key codec query ≡ cache_key codec query'
  unfolding cache_key normalize
  cache_key-words query query' e =
      ap (λ ws. semantic_cache_key (codec.sha256_hex ws))
        (ap (λ ws. codec.casefold (join " " ws)) (words-strip query)
          ∙ e
          ∙ sym (ap (λ ws. codec.casefold (join " " ws)) (words-strip query')))

  pub read_payload-payload_of :
      (response : String)
      → read_payload codec (some (payload_of codec response))
        ≡ ok (some (record { response = response; source = "semantic_cache" }))
  unfolding read_payload payload_of entry_of get_field
  read_payload-payload_of response = rw (codec.loads-dumps "response" response) refl

  pub read_payload-none : read_payload codec none ≡ ok none
  unfolding read_payload
  read_payload-none = refl

  module _ (store : TextStore) where
    open store use {State, text, clock}

    -- A write is refused for its size, or it is the store's.
    pub set-cases :
        (cache : SemanticCache) (query response : String) (s : State)
        → ((set codec store cache query response s).1 ≡ s)
          ⊎ (set codec store cache query response s
              ≡ store.set (cache_key codec query) (payload_of codec response) cache.ttl_seconds s)
    unfolding set
    set-cases cache query response s =
        elim (Bool-cases (ltb_ℤ cache.max_bytes (pos (byte_size (payload_of codec response))))) [
          | inl large ↦ inl (rw large)
          | inr fits ↦ inr (rw fits)
        ]

    -- A write that passes the size test is the store's.
    set_stores :
        (cache : SemanticCache) (query response : String) (s : State) (b : Bool)
        → (set codec store cache query response s).0 ≡ ok b
        → set codec store cache query response s
          ≡ store.set (cache_key codec query) (payload_of codec response) cache.ttl_seconds s
    unfolding set
    set_stores cache query response s b e =
        elim (Bool-cases (ltb_ℤ cache.max_bytes (pos (byte_size (payload_of codec response))))) [
          | inl large ↦ absurd (cc (rw large at e))
          | inr fits ↦ rw fits
        ]

    set-holds :
        (cache : SemanticCache) (ttl : ℕ) (query response : String) (s : State) (b : Bool)
        → cache.ttl_seconds ≡ pos ttl
        → (set codec store cache query response s).0 ≡ ok b
        → let t = (set codec store cache query response s).1 in
          let key = cache_key codec query in
          (text t key ≡ some (payload_of codec response))
          × (store.deadline t key ≡ clock s + ttl)
          × (clock t ≡ clock s)
    set-holds cache ttl query response s b keeps written =
        let key = cache_key codec query in
        let value = payload_of codec response in
        let stored =
          set_stores cache query response s b written ∙ ap (λ n. store.set key value n s) keeps in
        subst
          (λ (x : Result Bool × State).
            (text x.1 key ≡ some value)
            × (store.deadline x.1 key ≡ clock s + ttl)
            × (clock x.1 ≡ clock s))
          (sym stored)
          (store.set_returns key value ttl s b
            (ap (λ (x : Result Bool × State). x.0) (sym stored) ∙ written))

    -- After a `set` that returned, and with nothing but `d` seconds in between, fewer than its time to
    -- live, the answer is found under any query whose words, one blank between two, have the same
    -- `casefold`, if the store replies.
    pub get-set :
        (cache : SemanticCache) (ttl d : ℕ) (query query' response : String) (s : State) (b : Bool)
        (payload : Option String)
        → cache.ttl_seconds ≡ pos ttl
        → (set codec store cache query response s).0 ≡ ok b
        → folded_words query ≡ folded_words query'
        → d < ttl
        → let t = store.wait d (set codec store cache query response s).1 in
          (store.get (cache_key codec query') t).0 ≡ ok payload
          → (get codec store query' t).0
            ≡ ok (some (record { response = response; source = "semantic_cache" }))
    unfolding get
    get-set cache ttl d query query' response s b payload keeps written same early replied =
        let t = (set codec store cache query response s).1 in
        let (held, late, still) = set-holds cache ttl query response s b keeps written in
        let kept = store.wait_keeps d t (cache_key codec query) (omega (arith, late, still)) in
        let o =
          store.get_returns (cache_key codec query') (store.wait d t) payload replied
          ∙ ap (text (store.wait d t)) (sym (cache_key-words query query' same))
          ∙ kept
          ∙ held in
        rw (replied, o) (read_payload-payload_of response)
