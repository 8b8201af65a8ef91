-- ===== src/Cache/SemanticCache/Kept.antt =====
-- The cache makes up no answer.
use mathlib.Core.List.{Memᴰ}
use mathlib.Core.Option.{some-injective}
use nexus_ai_platform.Prelude.{
  ℕ, String, Bool, true, false, Option, none, some, List, [], ◌∷◌, ◌≡◌, refl, ap, sym, ◌∙◌, subst,
  ◌⊎◌, inl, inr, Bool-cases, str_eq, eq_iff,
}
use nexus_ai_platform.Errors.{Result, ok, raise, ok-injective, ◌>>=◌}
use nexus_ai_platform.Codec.{Codec}
use nexus_ai_platform.Cache.TextStore.{TextStore}
use nexus_ai_platform.Cache.SemanticCache.{
  SemanticCache, CacheEntry, cache_key, payload_of, read_payload, get, set, delete,
}
use nexus_ai_platform.Cache.SemanticCache.Stored.{
  set-cases, read_payload-payload_of, read_payload-none,
}

-- What is done with the cache, and the time that passes.
pub data Use : Type 0 where
  asks drops : String → Use
  keeps : String → String → Use
  passes : ℕ → Use

module _ (codec : Codec) (store : TextStore) (cache : SemanticCache) where
  open store use {State, text}

  abbrev pub use_cache : Use → State → State
  use_cache (asks query) s = (get codec store query s).1
  use_cache (drops query) s = (delete codec store query s).1
  use_cache (keeps query response) s = (set codec store cache query response s).1
  use_cache (passes d) s = store.wait d s

  -- The newest use stands first.
  abbrev pub use_all : List Use → State → State
  use_all [] s = s
  use_all (u ∷ us) s = use_cache u (use_all us s)

  -- The key is empty, or holds an answer that was to be kept for a query with that key.
  pub data IsKept (uses : List Use) (key : String) : Option String → Type 0 where
    nothing : IsKept uses key none
    kept :
        (query response : String)
        → Memᴰ (keeps query response) uses
        → cache_key codec query ≡ key
        → IsKept uses key (some (payload_of codec response))

  IsKept-tail :
      (u : Use) (uses : List Use) (key : String) {o : Option String}
      → IsKept uses key o
      → IsKept (u ∷ uses) key o
  IsKept-tail u uses key nothing = nothing
  IsKept-tail u uses key (kept query response m e) = kept query response (Memᴰ.tail m) e

  -- What a key holds after a use is what it held, or nothing, or the answer that was kept.
  use_cache-IsKept :
      (u : Use) (uses : List Use) (key : String) (s : State)
      → IsKept uses key (text s key)
      → IsKept (u ∷ uses) key (text (use_cache u s) key)
  unfolding get delete
  use_cache-IsKept (asks query) uses key s h =
      subst (IsKept (asks query ∷ uses) key) (sym (store.get_keeps (cache_key codec query) s key).0)
        (IsKept-tail (asks query) uses key h)
  use_cache-IsKept (drops query) uses key s h =
      elim (store.delete_drops (cache_key codec query) s key) [
        | inl e ↦
            subst (IsKept (drops query ∷ uses) key) (sym e) (IsKept-tail (drops query) uses key h)
        | inr e ↦ subst (IsKept (drops query ∷ uses) key) (sym e) nothing
      ]
  use_cache-IsKept (passes d) uses key s h = elim (store.wait_drops d s key) [
    | inl e ↦ subst (IsKept (passes d ∷ uses) key) (sym e) (IsKept-tail (passes d) uses key h)
    | inr e ↦ subst (IsKept (passes d ∷ uses) key) (sym e) nothing
  ]
  use_cache-IsKept (keeps query response) uses key s h =
      elim (set-cases codec store cache query response s) [
        | inl refused ↦
            subst (λ x. P (text x key)) (sym refused)
              (IsKept-tail (keeps query response) uses key h)
        | inr stored ↦
            subst (λ (x : Result Bool × State). P (text x.1 key)) (sym stored)
              (wrote (Bool-cases (str_eq key (cache_key codec query))))
      ]
    where
      P : Option String → Type 0
      P = IsKept (keeps query response ∷ uses) key

      t : State
      t = (store.set (cache_key codec query) (payload_of codec response) cache.ttl_seconds s).1

      wrote :
          ((str_eq key (cache_key codec query) ≡ true)
            ⊎ (str_eq key (cache_key codec query) ≡ false))
          → P (text t key)
      wrote (inr other) =
          subst P
            (sym
              (store.set_other (cache_key codec query) (payload_of codec response) cache.ttl_seconds
                s key other).0)
            (IsKept-tail (keeps query response) uses key h)
      wrote (inl e) =
          let same : key ≡ cache_key codec query = (eq_iff key (cache_key codec query)).0 e in
          elim (store.set_writes (cache_key codec query) (payload_of codec response)
            cache.ttl_seconds s) [
              | inl new ↦
                  subst P (sym (ap (text t) same ∙ new))
                    (kept query response (Memᴰ.head refl) (sym same))
              | inr old ↦
                  subst P (sym (ap (text t) same ∙ old ∙ ap (text s) (sym same)))
                    (IsKept-tail (keeps query response) uses key h)
            ]

  use_all-IsKept :
      (uses : List Use) (key : String) (s : State)
      → text s key ≡ none
      → IsKept uses key (text (use_all uses s) key)
  use_all-IsKept [] key s empty = rw empty nothing
  use_all-IsKept (u ∷ uses) key s empty =
      use_cache-IsKept u uses key (use_all uses s) (use_all-IsKept uses key s empty)

  -- No answer is made up: once a key was empty, and after any uses of the cache, the entry that is
  -- found for a query is an answer that was to be kept for a query with the same key.
  pub get-IsKept :
      (uses : List Use) (query : String) (s : State) (entry : CacheEntry)
      → text s (cache_key codec query) ≡ none
      → (get codec store query (use_all uses s)).0 ≡ ok (some entry)
      → (query' : String) × Memᴰ (keeps query' entry.response) uses
        × (cache_key codec query' ≡ cache_key codec query)
  unfolding get
  get-IsKept uses query s entry empty found =
      let t = use_all uses s in
      let key = cache_key codec query in
      found_in (store.get key t).0 (λ o e. store.get_returns key t o e) found
        (use_all-IsKept uses key s empty)
    where
      Held : Option String → Type 0
      Held = IsKept uses (cache_key codec query)

      from :
          (o : Option String)
          → Held o
          → read_payload codec o ≡ ok (some entry)
          → (query' : String) × Memᴰ (keeps query' entry.response) uses
            × (cache_key codec query' ≡ cache_key codec query)
      from _ nothing e = absurd (cc (sym (read_payload-none codec) ∙ e))
      from _ (kept query' response m same) e =
          let found : some (record { response = response; source = "semantic_cache" })
              ≡ some entry =
            ok-injective _ (some entry) (sym (read_payload-payload_of codec response) ∙ e) in
          let p = ap (λ (x : CacheEntry). x.response) (some-injective _ entry found) in
          (query', subst (λ x. Memᴰ (keeps query' x) uses) p m, same)

      found_in :
          (r : Result (Option String))
          → ((o : Option String) → r ≡ ok o → o ≡ text (use_all uses s) (cache_key codec query))
          → (r >>= read_payload codec) ≡ ok (some entry)
          → Held (text (use_all uses s) (cache_key codec query))
          → (query' : String) × Memᴰ (keeps query' entry.response) uses
            × (cache_key codec query' ≡ cache_key codec query)
      found_in (ok o) told e h = from o (subst Held (sym (told o refl)) h) e
      found_in (raise x) told e h = absurd (cc e)
