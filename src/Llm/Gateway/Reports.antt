-- ===== src/Llm/Gateway/Reports.antt =====
-- What the gateway tells the router of a provider that it has tried.
use mathlib.Core.List.{Memᴰ}
use nexus_ai_platform.Prelude.{false, some, List, [], ◌∷◌, ◌≡◌, refl, All, ◌∙◌}
use nexus_ai_platform.Errors.{ok}
use nexus_ai_platform.Exec.{bind-ok}
use nexus_ai_platform.Floats.{Floats}
use nexus_ai_platform.Llm.Models.{Provider}
use nexus_ai_platform.Llm.Router.{
  Router, record_success, record_failure, set_stats, success_stats, failure_stats,
}
use nexus_ai_platform.Llm.Router.Lookup.{IsManaged, stats_at}
use nexus_ai_platform.Llm.Router.Records.{record_success_lem, record_failure_lem, All-set_stats}
use nexus_ai_platform.Llm.Router.History.{Report, succeeded, failed, record_report}
use nexus_ai_platform.Llm.Gateway.State.{World, Gateway, GatewayState}
use nexus_ai_platform.Llm.Gateway.Publishing.{IsReady, update_provider_metrics-OnlyPublishes}
use nexus_ai_platform.Llm.Gateway.{note_failure, note_success, tell, update_provider_metrics}

module _ (fl : Floats) (world : World fl) where
  open fl use {F, lt, of_ℕ, sub, sub_nonneg}

  pub mem-IsManaged :
      (router : Router F) (p : Provider) (ps : List Provider)
      → Memᴰ p ps
      → All (IsManaged fl router) ps
      → IsManaged fl router p
  mem-IsManaged router p [] m h = elim m [ ]
  mem-IsManaged router p (q ∷ ps) (Memᴰ.head e) h = rw e h.0
  mem-IsManaged router p (q ∷ ps) (Memᴰ.tail m) h = mem-IsManaged router p ps m h.1

  set_stats-IsReady :
      (g : Gateway F) (router : Router F) (p : Provider) (s : _)
      → IsReady fl world g router
      → IsReady fl world g (set_stats fl router p s)
  set_stats-IsReady g router p s h = record {
    nonempty = h.nonempty;
    providers = h.providers;
    managed = All-set_stats fl router p s g.providers h.managed;
  }

  -- The state after `report` was told to the router: the world and the awaits are as before.
  abbrev pub Told :
      Gateway F → Report F → GatewayState F world.State → GatewayState F world.State → Type 0
  Told g report s s' =
      (record_report fl s.router report ≡ ok s'.router)
      × (s'.acts ≡ s.acts)
      × (s'.world ≡ s.world)
      × IsReady fl world g s'.router

  pub note_failure_lem :
      (g : Gateway F) (p : Provider) (s : GatewayState F world.State)
      → Memᴰ p g.providers
      → IsReady fl world g s.router
      → (s' : GatewayState F world.State) × (note_failure fl world g p s ≡ some (ok tt, s'))
        × Told g (failed p (world.monotonic s.world)) s s'
  unfolding note_failure record_report
  note_failure_lem g p s m h =
      let now = world.monotonic s.world in
      let managed = mem-IsManaged s.router p g.providers m h.managed in
      let router = set_stats fl s.router p (failure_stats fl now (stats_at fl s.router p)) in
      let ready =
        set_stats-IsReady g s.router p (failure_stats fl now (stats_at fl s.router p)) h in
      let told = record_failure_lem fl s.router p now managed in
      let (ms, e) =
        update_provider_metrics-OnlyPublishes fl world g (record s { router = router }) ready in
      (
        record s { router = router; metrics = ms },
        bind-ok (tell fl world (λ r now. record_failure fl r p now))
              (λ _. update_provider_metrics fl world g) s (rw (told, tell))
            ∙ e,
        (told, refl, refl, ready),
      )

  pub note_success_lem :
      (g : Gateway F) (p : Provider) (started : F) (s : GatewayState F world.State)
      → Memᴰ p g.providers
      → IsReady fl world g s.router
      → lt (world.perf_counter s.world) started ≡ false
      → (s' : GatewayState F world.State) × (note_success fl world g p started s ≡ some (ok tt, s'))
        × Told g (succeeded p (sub (world.perf_counter s.world) started)) s s'
  unfolding note_success record_report
  note_success_lem g p started s m h clock =
      let latency = sub (world.perf_counter s.world) started in
      let managed = mem-IsManaged s.router p g.providers m h.managed in
      let router = set_stats fl s.router p (success_stats fl latency (stats_at fl s.router p)) in
      let ready =
        set_stats-IsReady g s.router p (success_stats fl latency (stats_at fl s.router p)) h in
      let told = record_success_lem fl s.router p latency managed (sub_nonneg started _ clock) in
      let (ms, e) =
        update_provider_metrics-OnlyPublishes fl world g (record s { router = router }) ready in
      (
        record s { router = router; metrics = ms },
        bind-ok (tell fl world (λ r _. record_success fl r p latency))
              (λ _. update_provider_metrics fl world g) s (rw (told, tell))
            ∙ e,
        (told, refl, refl, ready),
      )
