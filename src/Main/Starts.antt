-- ===== src/Main/Starts.antt =====
-- With which settings the application starts, and what it then has.
use nexus_ai_platform.Prelude.{
  String, ℕ, true, false, subst, Option, none, some, List, [], ◌∷◌, map, All, ◌≡◌, ◌≢◌, refl, ap,
  sym, ◌∙◌, inl, inr,
}
use nexus_ai_platform.Prelude.Int.{pos, leb_ℤ}
use nexus_ai_platform.Errors.{Result, ok, raise, raise_if-eq-ok, bind-inv, Result-cases}
use nexus_ai_platform.Floats.{Floats}
use nexus_ai_platform.Codec.{Codec}
use nexus_ai_platform.Settings.{Settings}
use nexus_ai_platform.Cache.Connections.{Client, options, cache_client}
use nexus_ai_platform.Cache.RateLimiter.{new_rate_limiter}
use nexus_ai_platform.Cache.SemanticCache.{new_semantic_cache}
use nexus_ai_platform.Llm.Http.{HttpClientPool, new_pool, start, client}
use nexus_ai_platform.Llm.Gateway.{World, Gateway, GatewayState, new_gateway}
use nexus_ai_platform.Llm.Gateway.Publishing.{IsReady}
use nexus_ai_platform.Llm.Gateway.Startup.{
  IsAcceptable, configured, new_gateway_starts, new_gateway_checks,
}
use nexus_ai_platform.Llm.Factory.{
  Built, build_llm_providers, provider_names, built_name, as_providers,
}
use nexus_ai_platform.Llm.Factory.Configured.{IsConfigured}
use nexus_ai_platform.Llm.Factory.Chain.{
  Names, pieces_of, provider_names-Names, Names-provider_names, build_llm_providers-inv,
  build_llm_providers_succeeds,
}
use nexus_ai_platform.Main.{Application, Parts, make_parts, assemble, startup}

module _ (fl : Floats) (world : World fl) (codec : Codec)
    (connects : Client fl.F → Result (Unit {0})) where
  open fl use {F}

  pub record IsStartable (settings : Settings F) : Type 0 where
    pub minute : leb_ℤ settings.rate_limit_per_minute (pos 0) ≡ false
    pub hour : leb_ℤ settings.rate_limit_per_hour (pos 0) ≡ false
    pub cache_ttl : leb_ℤ settings.semantic_cache_ttl_seconds (pos 0) ≡ false
    pub cache_bytes : leb_ℤ settings.semantic_cache_max_bytes (pos 0) ≡ false
    pub acceptable : IsAcceptable fl settings
    pub connected : connects (options settings) ≡ ok tt
    pub names : List String
    pub spelled : Names codec (pieces_of codec settings) names
    pub named : names ≢ []
    pub configured : All (IsConfigured settings) names

  abbrev open_pool : HttpClientPool
  open_pool = record { client_closed = false; started = true }

  as_providers-ne-nil : (n : ℕ) (ps : List (Built F)) → ps ≢ [] → as_providers n ps ≢ []
  unfolding as_providers
  as_providers-ne-nil n [] h e = h refl
  as_providers-ne-nil n (p ∷ ps) h e = cc

  map-ne-nil : (ps : List (Built F)) → map built_name ps ≢ [] → ps ≢ []
  map-ne-nil ps h e = h (ap (map built_name) e)

  make_parts_lem :
      (settings : Settings F) (h : IsStartable settings)
      → (parts : Parts F) × (make_parts fl world codec connects settings ≡ ok parts)
        × (map built_name parts.llm_providers ≡ h.names)
        × (parts.http_client ≡ open_pool)
  unfolding make_parts cache_client new_rate_limiter new_semantic_cache new_pool start
  make_parts_lem settings h =
      let spelled = Names-provider_names codec settings h.spelled in
      let (ps, built, same) =
        build_llm_providers_succeeds fl settings (some open_pool) codec
          (λ e. h.named (sym spelled ∙ e))
          (subst (All (IsConfigured settings)) (sym spelled) h.configured) in
      (
        record {
          cache_adapter = options settings;
          rate_limiter = record {
            minute_limit = settings.rate_limit_per_minute;
            hour_limit = settings.rate_limit_per_hour;
          };
          semantic_cache = record {
            ttl_seconds = settings.semantic_cache_ttl_seconds;
            max_bytes = settings.semantic_cache_max_bytes;
          };
          http_client = open_pool;
          llm_providers = ps;
        },
        rw (h.connected, h.minute, h.hour, h.cache_ttl, h.cache_bytes, h.acceptable.timeout, built)
            refl,
        same ∙ spelled,
        refl,
      )

  -- With settings that pass every check, and with options for Redis that redis-py takes, the application
  -- starts. Its gateway is ready; the names of its chain of providers are what stands between the commas
  -- of the setting, in its order, stripped, in lower case and without what is blank; its pool can be
  -- used; and its number of retries is not negative.
  pub startup_succeeds :
      (settings : Settings F) (w : world.State)
      → IsStartable settings
      → (app : Application F) × (s : GatewayState F world.State) × (startup fl world codec connects
            settings w
          ≡ some (ok (app, s)))
        × IsReady fl world app.llm_gateway s.router
        × Names codec (pieces_of codec settings) (map built_name app.llm_providers)
        × (client app.http_client ≡ ok tt)
        × ((n : ℕ) × (app.llm_gateway.max_retries ≡ pos n))
  unfolding startup client
  startup_succeeds settings w h =
      let (parts, made, same, pool) = make_parts_lem settings h in
      let some_built = map-ne-nil parts.llm_providers (λ e. h.named (sym same ∙ e)) in
      let (n, s, started, retries, ready) =
        new_gateway_starts fl world (as_providers 0 parts.llm_providers) settings w
          (as_providers-ne-nil 0 parts.llm_providers some_built) h.acceptable in
      (
        record {
          cache_adapter = parts.cache_adapter;
          rate_limiter = parts.rate_limiter;
          semantic_cache = parts.semantic_cache;
          http_client = parts.http_client;
          llm_providers = parts.llm_providers;
          llm_gateway = configured fl (as_providers 0 parts.llm_providers) settings;
        },
        s,
        rw (made, started) refl,
        ready,
        subst (Names codec (pieces_of codec settings)) (sym same) h.spelled,
        rw pool refl,
        (n, retries),
      )

  make_parts-inv :
      (settings : Settings F) (parts : Parts F)
      → make_parts fl world codec connects settings ≡ ok parts
      → (leb_ℤ settings.rate_limit_per_minute (pos 0) ≡ false)
        × (leb_ℤ settings.rate_limit_per_hour (pos 0) ≡ false)
        × (leb_ℤ settings.semantic_cache_ttl_seconds (pos 0) ≡ false)
        × (leb_ℤ settings.semantic_cache_max_bytes (pos 0) ≡ false)
        × (provider_names codec settings ≢ [])
        × All (IsConfigured settings) (provider_names codec settings)
        × (connects (options settings) ≡ ok tt)
  unfolding make_parts cache_client new_rate_limiter new_semantic_cache
  make_parts-inv settings parts e =
      let (_, connected, e0) = bind-inv (cache_client connects settings) _ parts e in
      let (nothing, connected_first, _) = bind-inv (connects (options settings)) _ _ connected in
      let (limiter, made_limiter, e1) = bind-inv (new_rate_limiter settings) _ parts e0 in
      let (cache, made_cache, e2) = bind-inv (new_semantic_cache settings) _ parts e1 in
      let (pool, _, e3) =
        bind-inv (new_pool fl settings.llm_request_timeout_seconds (pos 100) (pos 20)) _ parts e2 in
      let (ps, built, _) =
        bind-inv (build_llm_providers fl settings (some (start pool)) codec) _ parts e3 in
      let (minute, l1) =
        raise_if-eq-ok (leb_ℤ settings.rate_limit_per_minute (pos 0)) _ _ made_limiter in
      let (hour, _) = raise_if-eq-ok (leb_ℤ settings.rate_limit_per_hour (pos 0)) _ _ l1 in
      let (ttl, c1) =
        raise_if-eq-ok (leb_ℤ settings.semantic_cache_ttl_seconds (pos 0)) _ _ made_cache in
      let (bytes, _) = raise_if-eq-ok (leb_ℤ settings.semantic_cache_max_bytes (pos 0)) _ _ c1 in
      let (_, named, configured) =
        build_llm_providers-inv fl settings (some (start pool)) codec ps built in
      (minute, hour, ttl, bytes, named, configured, connected_first)

  assemble-inv :
      (parts : Parts F) (o : Option (Result (Gateway F × GatewayState F world.State)))
      (app : Application F) (s : GatewayState F world.State)
      → assemble fl world codec connects parts o ≡ some (ok (app, s))
      → (g : Gateway F) × (s' : GatewayState F world.State) × (o ≡ some (ok (g, s')))
  assemble-inv parts none app s e = cc
  assemble-inv parts (some (raise x)) app s e = cc
  assemble-inv parts (some (ok (g, s'))) app s e = (g, s', refl)

  -- An application that has started had settings that pass every check, redis-py's of the options for
  -- Redis included.
  pub startup-IsStartable :
      (settings : Settings F) (w : world.State) {app : Application F}
      {s : GatewayState F world.State}
      → startup fl world codec connects settings w ≡ some (ok (app, s))
      → IsStartable settings
  unfolding startup
  startup-IsStartable settings w {app} {s} e =
      elim (Result-cases (make_parts fl world codec connects settings)) [
        | inr (x, failed) ↦ absurd (cc (rw failed at e))
        | inl (parts, made) ↦
            let (minute, hour, ttl, bytes, named, configured, connected) =
              make_parts-inv settings parts made in
            let (g, s', started) =
              assemble-inv parts
                (new_gateway fl world (as_providers 0 parts.llm_providers) settings w) app s
                (rw made at e) in
            record {
              minute = minute;
              hour = hour;
              cache_ttl = ttl;
              cache_bytes = bytes;
              acceptable =
                  (new_gateway_checks fl world (as_providers 0 parts.llm_providers) settings w
                    {g = g} {s = s'} started).1;
              connected = connected;
              names = provider_names codec settings;
              spelled = provider_names-Names codec settings;
              named = named;
              configured = configured;
            }
      ]
