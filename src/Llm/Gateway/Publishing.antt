-- ===== src/Llm/Gateway/Publishing.antt =====
-- What changes nothing but the metrics, and does not raise while the router manages the gateway's
-- providers.
use mathlib.Core.Option.{some-injective}
use nexus_ai_platform.Prelude.{
  Option, none, some, List, [], ◌∷◌, ◌++◌, ◌≡◌, ◌≢◌, refl, All, Bool-cases, inl, inr, str_eq,
  String, subst, sym, ◌∙◌, map,
}
use nexus_ai_platform.Errors.{ok}
use nexus_ai_platform.Exec.{bind-ok}
use nexus_ai_platform.Floats.{Floats}
use nexus_ai_platform.Llm.Models.{Provider}
use nexus_ai_platform.Llm.Router.{Router, ProviderScore, get_scores, get_stats}
use nexus_ai_platform.Llm.Router.Lookup.{IsManaged, stats_at, scored, find_stats_lem, score_all_lem}
use nexus_ai_platform.Llm.Gateway.State.{World, Gateway, GatewayState, Metric, published}
use nexus_ai_platform.Llm.Gateway.{
  gauges, Action, Handling, returned, transient, fatal, uncaught, provider_name, provider_named,
  publish_for, publish_all, update_provider_metrics, count_attempt, count_fallback,
}

module _ (fl : Floats) (world : World fl) where
  open fl use {F}

  -- The router manages the gateway's providers, of which there is at least one.
  pub record IsReady (g : Gateway F) (router : Router F) : Type 0 where
    pub nonempty : router.providers ≢ []
    pub providers : router.providers ≡ g.providers
    pub managed : All (IsManaged fl router) g.providers

  -- The action returns, and only metrics have changed.
  abbrev pub OnlyPublishes : Action fl world Unit → GatewayState F world.State → Type 0
  OnlyPublishes m s = (ms : List (Metric F)) × (m s ≡ some (ok tt, record s { metrics = ms }))

  provider_named-managed :
      (P : Provider → Type 0) (ps : List Provider) (name : String) (p : Provider)
      → All P ps
      → provider_named ps name ≡ some p
      → P p
  unfolding provider_named
  provider_named-managed P [] name p h e = cc
  provider_named-managed P (q ∷ ps) name p h e = elim (Bool-cases (str_eq (provider_name q) name)) [
    | inl same ↦ subst P (some-injective q p (rw same at e)) h.0
    | inr differ ↦ provider_named-managed P ps name p h.1 (rw differ at e)
  ]

  publish_for-OnlyPublishes :
      (score : ProviderScore F) (o : Option Provider) (s : GatewayState F world.State)
      → ((p : Provider) → o ≡ some p → IsManaged fl s.router p)
      → OnlyPublishes (publish_for fl world score o) s
  unfolding publish_for get_stats
  publish_for-OnlyPublishes score none s h = (s.metrics, refl)
  publish_for-OnlyPublishes score (some p) s h = (
    s.metrics
        ++ published score.provider_name (gauges fl world (stats_at fl s.router p) score) ∷ [],
    rw (find_stats_lem fl s.router p (h p refl)),
  )

  publish_all-OnlyPublishes :
      (g : Gateway F) (scores : List (ProviderScore F)) (s : GatewayState F world.State)
      → All (IsManaged fl s.router) g.providers
      → OnlyPublishes (publish_all fl world g scores) s
  unfolding publish_all
  publish_all-OnlyPublishes g [] s h = (s.metrics, refl)
  publish_all-OnlyPublishes g (score ∷ rest) s h =
      let named = provider_named g.providers score.provider_name in
      let (ms, e) =
        publish_for-OnlyPublishes score named s (λ p.
          provider_named-managed (IsManaged fl s.router) g.providers score.provider_name p h) in
      let (ms', e') = publish_all-OnlyPublishes g rest (record s { metrics = ms }) h in
      (ms', bind-ok (publish_for fl world score named) (λ _. publish_all fl world g rest) s e ∙ e')

  pub update_provider_metrics-OnlyPublishes :
      (g : Gateway F) (s : GatewayState F world.State)
      → IsReady g s.router
      → OnlyPublishes (update_provider_metrics fl world g) s
  unfolding update_provider_metrics get_scores
  update_provider_metrics-OnlyPublishes g s h =
      let now = world.monotonic s.world in
      let all = subst (λ ps. All (IsManaged fl s.router) ps) (sym h.providers) h.managed in
      let (ms, e) =
        publish_all-OnlyPublishes g (map (scored fl s.router now) s.router.providers) s h.managed in
      (ms, rw (score_all_lem fl s.router now s.router.providers all) e)

  pub count_attempt-OnlyPublishes :
      (name : String) (seconds : F) (handling : Handling) (s : GatewayState F world.State)
      → OnlyPublishes (count_attempt fl world name seconds handling) s
  unfolding count_attempt
  count_attempt-OnlyPublishes name seconds (returned response) s = (_, refl)
  count_attempt-OnlyPublishes name seconds (transient label e) s = (_, refl)
  count_attempt-OnlyPublishes name seconds (fatal label e) s = (_, refl)
  count_attempt-OnlyPublishes name seconds (uncaught e) s = (s.metrics, refl)

  pub count_fallback-OnlyPublishes :
      (p : Provider) (rest : List Provider) (s : GatewayState F world.State)
      → OnlyPublishes (count_fallback fl world p rest) s
  unfolding count_fallback
  count_fallback-OnlyPublishes p [] s = (s.metrics, refl)
  count_fallback-OnlyPublishes p (next ∷ rest) s = (_, refl)
