-- ===== src/Llm/Gateway/Concurrent/Steps.antt =====
-- A request's arrival and its turns, from a router that has the exact history of the reports.
use mathlib.Core.List.{Memᴰ}
use nexus_ai_platform.Prelude.{
  String, suc, ◌≤◌, true, false, some, List, [], ◌∷◌, ◌++◌, ◌≡◌, ◌≢◌, refl, sym, subst, ◌∙◌, All,
  length, Bool-cases, inl, inr, arith,
}
use nexus_ai_platform.Errors.{LlmErrorKind, Exception, Result, ok, raise, llm_error, ok-injective}
use nexus_ai_platform.Exec.{bind-ok, continue, pure, ◌>>=◌, ◌>>◌}
use nexus_ai_platform.Floats.{Floats}
use nexus_ai_platform.Llm.Models.{LlmResponse, Provider}
use nexus_ai_platform.Llm.Router.{Router}
use nexus_ai_platform.Llm.Router.Lookup.{IsManaged}
use nexus_ai_platform.Llm.Router.Select.{IsBest, select_provider-IsBest}
use nexus_ai_platform.Llm.Router.History.{
  Report, record_report, IsSound, Tracks, All-imp, record_report-Tracks,
}
use nexus_ai_platform.Llm.Gateway.State.{World, Gateway, GatewayState, selected_total}
use nexus_ai_platform.Llm.Gateway.Policy.{worth_falling_back}
use nexus_ai_platform.Llm.Gateway.Publishing.{IsReady, update_provider_metrics-OnlyPublishes}
use nexus_ai_platform.Llm.Gateway.Reports.{note_failure_lem, note_success_lem}
use nexus_ai_platform.Llm.Gateway.Failover.{failure_noted}
use nexus_ai_platform.Llm.Gateway.Generate.{Within, IsBest-mem}
use nexus_ai_platform.Llm.Gateway.{
  read_clock, update_provider_metrics, provider_name, others, note_success, note_failure,
  count_fallback, falls_back,
}
use nexus_ai_platform.Llm.Gateway.Concurrent.{
  Flight, waiting, ended, turns, arrive, go_on, land, reports_of,
}

module _ (fl : Floats) (world : World fl) where
  open fl use {F, lt, sub, ge_trans, sub_nonneg}

  module _ (g : Gateway F) (cooldown : F) where
    -- The request waits for configured providers, which are no more than there are, since a time that is
    -- not to come.
    abbrev pub IsSane : F → Flight F → Type 0
    IsSane now (waiting p rest started) =
        Memᴰ p g.providers
        × All (Within g.providers) rest
        × (lt now started ≡ false)
        × (suc (length rest) ≤ length g.providers)
    IsSane now (ended r) = Unit

    tracks-IsReady :
        (reports : List (Report F)) (r : Router F)
        → g.providers ≢ []
        → Tracks fl g.providers cooldown reports r
        → IsReady fl world g r
    tracks-IsReady reports r nonempty t = record {
      nonempty = λ e. nonempty (sym t.providers ∙ e);
      providers = t.providers;
      managed = All-imp fl g.providers (λ p h. h.0) t.entries;
    }

    told-Tracks :
        (reports : List (Report F)) (report : Report F) (s s' : GatewayState F world.State)
        → Tracks fl g.providers cooldown reports s.router
        → IsSound fl g.providers report
        → record_report fl s.router report ≡ ok s'.router
        → Tracks fl g.providers cooldown (report ∷ reports) s'.router
    told-Tracks reports report s s' t sound told =
        let (r', same, t') =
          record_report-Tracks fl g.providers cooldown reports s.router report t sound in
        subst (Tracks fl g.providers cooldown (report ∷ reports))
          (ok-injective r' s'.router (sym same ∙ told)) t'

    -- Where a request is after a call of it has ended with `r`: the others that are left are asked one
    -- by one as long as `r` deserves it, and it ends with `r` otherwise.
    pub data IsNext (rest : List Provider) (now : F) : Result LlmResponse → Flight F → Type 0 where
      settled :
          (r : Result LlmResponse) → worth_falling_back r ≡ false → IsNext rest now r (ended r)
      exhausted :
          (r : Result LlmResponse)
          → worth_falling_back r ≡ true
          → rest ≡ []
          → IsNext rest now r (ended r)
      another :
          (r : Result LlmResponse) (q : Provider) (later : List Provider)
          → worth_falling_back r ≡ true
          → rest ≡ q ∷ later
          → IsNext rest now r (waiting q later now)

    falls_back-eq :
        (kind : LlmErrorKind) (message : String)
        → worth_falling_back (raise (llm_error kind message)) ≡ falls_back kind
    falls_back-eq LlmErrorKind.rate_limit message = refl
    falls_back-eq LlmErrorKind.unavailable message = refl
    falls_back-eq LlmErrorKind.timeout message = refl
    falls_back-eq LlmErrorKind.authentication message = refl
    falls_back-eq LlmErrorKind.base message = refl
    falls_back-eq LlmErrorKind.response message = refl

    -- What a turn comes to.
    abbrev pub Landed :
        Provider
        → List Provider
        → F
        → Result LlmResponse
        → List (Report F)
        → GatewayState F world.State
        → Type 0
    Landed p rest started r reports s =
        (f : Flight F) × (s' : GatewayState F world.State) × (land fl world g p rest started r s
          ≡ some (ok f, s'))
        × Tracks fl g.providers cooldown (reports_of fl world p started r s ++ reports) s'.router
        × (s'.world ≡ s.world)
        × IsSane (world.perf_counter s.world) f
        × (turns f ≤ length rest)
        × IsNext rest (world.perf_counter s.world) r f

    go_on_lem :
        (rest : List Provider) (e : Exception) (s : GatewayState F world.State)
        → All (Within g.providers) rest
        → length rest ≤ length g.providers
        → (f : Flight F) × (go_on fl world rest e s ≡ some (ok f, s))
          × IsSane (world.perf_counter s.world) f
          × (turns f ≤ length rest)
          × (worth_falling_back (raise e) ≡ true
              → IsNext rest (world.perf_counter s.world) (raise e) f)
    unfolding go_on
    go_on_lem [] e s h few =
        (ended (raise e), refl, tt, omega arith, λ worth. exhausted (raise e) worth refl)
    go_on_lem (q ∷ rest) e s h few = (
      waiting q rest (world.perf_counter s.world),
      refl,
      (h.0, h.1, fl.lt_irrefl (world.perf_counter s.world), few),
      omega arith,
      λ worth. another (raise e) q rest worth refl,
    )

    pub land_lem :
        (p : Provider) (rest : List Provider) (started : F) (r : Result LlmResponse)
        (reports : List (Report F)) (s : GatewayState F world.State)
        → g.providers ≢ []
        → Tracks fl g.providers cooldown reports s.router
        → IsSane (world.perf_counter s.world) (waiting p rest started)
        → Landed p rest started r reports s
    unfolding land
    land_lem p rest started (ok response) reports s nonempty t (m, within, clock, few) =
        let ready = tracks-IsReady reports s.router nonempty t in
        let (s', noted, (told, _, same, _)) =
          note_success_lem fl world g p started s m ready clock in
        (
          ended (ok response),
          s',
          bind-ok (note_success fl world g p started) (λ _. pure (ended (ok response))) s noted,
          told-Tracks reports _ s s' t (m, sub_nonneg started _ clock) told,
          same,
          tt,
          omega arith,
          settled (ok response) refl,
        )
    land_lem p rest started (raise (llm_error kind message)) reports s nonempty t
          (m, within, clock, few) =
        let ready = tracks-IsReady reports s.router nonempty t in
        elim (Bool-cases (falls_back kind)) [
          | inl falls ↦
              let (s', noted, (told, _, same, _)) = failure_noted fl world g p rest s m ready in
              let (f, on, sane, fewer, next) =
                go_on_lem rest (llm_error kind message) s' within (omega (arith, few)) in
              (
                f,
                s',
                rw falls (
                    bind-ok (note_failure fl world g p >> count_fallback fl world p rest)
                      (λ _. go_on fl world rest (llm_error kind message)) s noted
                    ∙ on),
                told-Tracks reports _ s s' t m told,
                same,
                subst (λ w. IsSane (world.perf_counter w) f) same sane,
                fewer,
                subst (λ v. IsNext rest (world.perf_counter v) (raise (llm_error kind message)) f)
                    same (next (falls_back-eq kind message ∙ falls)),
              )
          | inr stops ↦
              let (s', noted, (told, _, same, _)) = note_failure_lem fl world g p s m ready in
              (
                ended (raise (llm_error kind message)),
                s',
                rw stops (
                    bind-ok (note_failure fl world g p)
                      (λ _. pure (ended (raise (llm_error kind message)))) s noted),
                told-Tracks reports _ s s' t m told,
                same,
                tt,
                omega arith,
                settled (raise (llm_error kind message)) (falls_back-eq kind message ∙ stops),
              )
        ]
    land_lem p rest started (raise e) reports s nonempty t h =
        (ended (raise e), s, refl, t, refl, tt, omega arith, settled (raise e) refl)

    pub arrive_lem :
        (reports : List (Report F)) (s : GatewayState F world.State)
        → g.providers ≢ []
        → Tracks fl g.providers cooldown reports s.router
        → (q : Provider) × (s' : GatewayState F world.State) × (arrive fl world g s
            ≡ some (ok (waiting q (others q g.providers) (world.perf_counter s.world)), s'))
          × IsBest fl s.router (world.monotonic s.world) q
          × (s'.router ≡ s.router)
          × (s'.world ≡ s.world)
          × Memᴰ q g.providers
    unfolding arrive
    arrive_lem reports s nonempty t =
        let ready = tracks-IsReady reports s.router nonempty t in
        let all = subst (All (IsManaged fl s.router)) (sym ready.providers) ready.managed in
        let (q, selected, best) =
          select_provider-IsBest fl s.router (world.monotonic s.world) ready.nonempty all in
        let chosen = record s { metrics = s.metrics ++ selected_total (provider_name q) ∷ [] } in
        let (ms, e) = update_provider_metrics-OnlyPublishes fl world g chosen ready in
        (
          q,
          record s { metrics = ms },
          rw (selected, continue)
              (bind-ok (update_provider_metrics fl world g)
                (λ _. read_clock fl world >>= λ started.
                  pure (waiting q (others q g.providers) started))
                chosen e),
          best,
          refl,
          refl,
          subst (Memᴰ q) ready.providers (IsBest-mem fl world s.router _ q best),
        )
