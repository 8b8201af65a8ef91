-- ===== src/Llm/Gateway/Startup.antt =====
-- `__init__`: which settings are accepted, and that the new gateway is ready.
use nexus_ai_platform.Prelude.{
  ℕ, Bool, true, false, not, some, List, [], ◌∷◌, ◌≡◌, ◌≢◌, refl, All, arith, inl, inr,
}
use nexus_ai_platform.Prelude.Int.{ℤ, pos, negsuc, ◌≤ℤ◌, ltb_ℤ}
use nexus_ai_platform.Errors.{ok, raise_if-eq-ok, Result-cases}
use nexus_ai_platform.Floats.{Floats}
use nexus_ai_platform.Settings.{Settings}
use nexus_ai_platform.Llm.Models.{Provider}
use nexus_ai_platform.Llm.Router.{Router, init_stats, new_router}
use nexus_ai_platform.Llm.Router.Lookup.{IsManaged}
use nexus_ai_platform.Llm.Router.History.{IsTracked, new_router-Tracks}
use nexus_ai_platform.Llm.Gateway.State.{World, Gateway, GatewayState}
use nexus_ai_platform.Llm.Gateway.Publishing.{IsReady, update_provider_metrics-OnlyPublishes}
use nexus_ai_platform.Llm.Gateway.{configure, launch, new_gateway}

module _ (fl : Floats) where
  open fl use {F, lt, of_ℕ}

  -- The settings that `__init__` lets pass.
  pub record IsAcceptable (settings : Settings F) : Type 0 where
    pub timeout : lt (of_ℕ 0) settings.llm_request_timeout_seconds ≡ true
    pub retries : pos 0 ≤ℤ settings.llm_max_retries
    pub base_delay : lt (of_ℕ 0) settings.llm_retry_base_delay_seconds ≡ true
    pub max_delay : lt (of_ℕ 0) settings.llm_retry_max_delay_seconds ≡ true
    pub delays :
        lt settings.llm_retry_max_delay_seconds settings.llm_retry_base_delay_seconds ≡ false

  abbrev pub configured : List Provider → Settings F → Gateway F
  configured ps settings = record {
    providers = ps;
    timeout_seconds = settings.llm_request_timeout_seconds;
    max_retries = settings.llm_max_retries;
    retry_base_delay = settings.llm_retry_base_delay_seconds;
    retry_max_delay = settings.llm_retry_max_delay_seconds;
  }

  new_router_lem :
      (p : Provider) (ps : List Provider)
      → (router : Router F) × (new_router fl (p ∷ ps) (of_ℕ 30) ≡ ok router)
  unfolding new_router
  new_router_lem p ps = (
    record {
      providers = p ∷ ps;
      recovery_cooldown_seconds = of_ℕ 30;
      stats = init_stats fl (p ∷ ps) [];
    },
    rw (fl.of_ℕ_pos 29),
  )

  configure_lem :
      (p : Provider) (ps : List Provider) (settings : Settings F)
      → IsAcceptable settings
      → (router : Router F) × (new_router fl (p ∷ ps) (of_ℕ 30) ≡ ok router)
        × (configure fl (p ∷ ps) settings ≡ ok (configured (p ∷ ps) settings, router))
  unfolding configure
  configure_lem p ps settings h =
      let (router, built) = new_router_lem p ps in
      (
        router,
        built,
        rw (
          built,
          h.timeout,
          nonneg settings.llm_max_retries h.retries,
          h.base_delay,
          h.max_delay,
          h.delays,
        ),
      )
    where
      nonneg : (n : ℤ) → pos 0 ≤ℤ n → ltb_ℤ n (pos 0) ≡ false
      nonneg n h = ground arith

  tracked-IsManaged :
      (r : Router F) (ps : List Provider) → All (IsTracked fl r []) ps → All (IsManaged fl r) ps
  tracked-IsManaged r [] h = tt
  tracked-IsManaged r (p ∷ ps) h = (h.0.0, tracked-IsManaged r ps h.1)

  not-false : (b : Bool) → not b ≡ false → b ≡ true
  not-false true h = refl
  not-false false h = cc

  -- The checks of `__init__` in turn.
  configure-IsAcceptable :
      (ps : List Provider) (settings : Settings F) {x : Gateway F × Router F}
      → configure fl ps settings ≡ ok x
      → (ps ≢ []) × IsAcceptable settings
  unfolding configure
  configure-IsAcceptable [] settings h = cc
  configure-IsAcceptable (p ∷ ps) settings h =
      let (router, built) = new_router_lem p ps in
      let (timeout, h₁) = raise_if-eq-ok _ _ _ (rw built at h) in
      let (retries, h₂) = raise_if-eq-ok _ _ _ h₁ in
      let (base, h₃) = raise_if-eq-ok _ _ _ h₂ in
      let (most, h₄) = raise_if-eq-ok _ _ _ h₃ in
      let (order, h₅) = raise_if-eq-ok _ _ _ h₄ in
      (
        (λ e. cc),
        record {
          timeout = not-false _ timeout;
          retries = nonneg settings.llm_max_retries retries;
          base_delay = not-false _ base;
          max_delay = not-false _ most;
          delays = order;
        },
      )
    where
      nonneg : (n : ℤ) → ltb_ℤ n (pos 0) ≡ false → pos 0 ≤ℤ n
      nonneg n e = ground arith

module _ (fl : Floats) (world : World fl) where
  open fl use {F}

  -- A gateway with settings that pass and some provider starts. It keeps the settings, its
  -- number of retries is a natural number, and its router manages the providers.
  pub new_gateway_starts :
      (ps : List Provider) (settings : Settings F) (w : world.State)
      → ps ≢ []
      → IsAcceptable fl settings
      → (n : ℕ) × (s : GatewayState F world.State) × (new_gateway fl world ps settings w
          ≡ some (ok (configured fl ps settings, s)))
        × (settings.llm_max_retries ≡ pos n)
        × IsReady fl world (configured fl ps settings) s.router
  unfolding new_gateway
  new_gateway_starts [] settings w some_provider h = absurd (some_provider refl)
  new_gateway_starts (p ∷ ps) settings w some_provider h =
      let (router, built, accepted) = configure_lem fl p ps settings h in
      let tracks = new_router-Tracks fl (p ∷ ps) (fl.of_ℕ 30) router built in
      let g = configured fl (p ∷ ps) settings in
      let s : GatewayState F world.State = record {
        router = router;
        world = w;
        acts = [];
        metrics = [];
      } in
      let ready : IsReady fl world g router = record {
        nonempty = λ e. cc (tracks.providers, e);
        providers = tracks.providers;
        managed = tracked-IsManaged fl router (p ∷ ps) tracks.entries;
      } in
      let (ms, published) = update_provider_metrics-OnlyPublishes fl world g s ready in
      let (n, e) = natural settings.llm_max_retries h.retries in
      (n, record s { metrics = ms }, rw (accepted, launch, published), e, ready)
    where
      natural : (n : ℤ) → pos 0 ≤ℤ n → (m : ℕ) × (n ≡ pos m)
      natural (pos m) h = (m, refl)
      natural (negsuc m) h = absurd (omega arith)

  -- A gateway that has started had some provider and settings that pass.
  pub new_gateway_checks :
      (ps : List Provider) (settings : Settings F) (w : world.State) {g : Gateway F}
      {s : GatewayState F world.State}
      → new_gateway fl world ps settings w ≡ some (ok (g, s))
      → (ps ≢ []) × IsAcceptable fl settings
  unfolding new_gateway
  new_gateway_checks ps settings w h = elim (Result-cases (configure fl ps settings)) [
    | inl (x, e) ↦ configure-IsAcceptable fl ps settings e
    | inr (x, e) ↦ absurd (cc (rw (e, launch) at h))
  ]
