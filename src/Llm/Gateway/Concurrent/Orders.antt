-- ===== src/Llm/Gateway/Concurrent/Orders.antt =====
-- Whatever the order in which the requests' turns come, the router has the exact history, and every
-- turn is taken.
use mathlib.Core.Option.{some-injective}
use nexus_ai_platform.Prelude.{
  ◌≤◌, ◌<◌, false, some, List, [], ◌∷◌, ◌++◌, ◌≡◌, ◌≢◌, sym, ap, subst, ◌∙◌, All, length, arith,
}
use nexus_ai_platform.Errors.{Result, ok, ok-injective}
use nexus_ai_platform.Floats.{Floats}
use nexus_ai_platform.Llm.Models.{LlmResponse, Provider}
use nexus_ai_platform.Llm.Router.{Router, new_router}
use nexus_ai_platform.Llm.Router.Select.{IsBest}
use nexus_ai_platform.Llm.Router.History.{Report, Tracks, new_router-Tracks}
use nexus_ai_platform.Llm.Gateway.State.{World, Gateway, GatewayState}
use nexus_ai_platform.Llm.Gateway.Generate.{Within-refl, others-Within}
use nexus_ai_platform.Llm.Gateway.Bounds.{others-lt}
use nexus_ai_platform.Llm.Gateway.{others}
use nexus_ai_platform.Llm.Gateway.Concurrent.{
  Flight, waiting, ended, turns, arrive, land, reports_of, Busy, opened, goes_on, arrives, lands,
}
use nexus_ai_platform.Llm.Gateway.Concurrent.Steps.{IsSane, IsNext, land_lem, arrive_lem}

module _ (fl : Floats) (world : World fl) where
  open fl use {F, lt, ge_trans}

  module _ (g : Gateway F) (cooldown : F) where
    record IsCalm (fs : List (Flight F)) (reports : List (Report F))
        (s : GatewayState F world.State) : Type 0 where
      nonempty : g.providers ≢ []
      tracks : Tracks fl g.providers cooldown reports s.router
      sane : All (IsSane fl world g cooldown (world.perf_counter s.world)) fs

    later-IsSane :
        (now now' : F) (f : Flight F)
        → lt now' now ≡ false
        → IsSane fl world g cooldown now f
        → IsSane fl world g cooldown now' f
    later-IsSane now now' (waiting p rest started) e (m, within, clock, few) =
        (m, within, ge_trans now' now started e clock, few)
    later-IsSane now now' (ended r) e h = tt

    All-later :
        (now now' : F) (fs : List (Flight F))
        → lt now' now ≡ false
        → All (IsSane fl world g cooldown now) fs
        → All (IsSane fl world g cooldown now') fs
    All-later now now' [] e h = tt
    All-later now now' (f ∷ fs) e h = (later-IsSane now now' f e h.0, All-later now now' fs e h.1)

    All-middle :
        (P : Flight F → Type 0) (before : List (Flight F)) (f : Flight F) (after : List (Flight F))
        → All P (before ++ f ∷ after)
        → P f
    All-middle P [] f after h = h.0
    All-middle P (x ∷ before) f after h = All-middle P before f after h.1

    All-replace :
        (P : Flight F → Type 0) (before : List (Flight F)) (f f' : Flight F)
        (after : List (Flight F))
        → P f'
        → All P (before ++ f ∷ after)
        → All P (before ++ f' ∷ after)
    All-replace P [] f f' after new h = (new, h.1)
    All-replace P (x ∷ before) f f' after new h = (h.0, All-replace P before f f' after new h.1)

    no_router : (r : Router F) → g.providers ≡ [] → new_router fl g.providers cooldown ≡ ok r → ⊥
    unfolding new_router
    no_router r none e = cc (rw none at e)

    Busy-IsCalm :
        {fs : List (Flight F)} {reports : List (Report F)} {s : GatewayState F world.State}
        → Busy fl world g cooldown fs reports s
        → IsCalm fs reports s
    Busy-IsCalm (opened {s} e) = record {
      nonempty = λ none. no_router s.router none e;
      tracks = new_router-Tracks fl g.providers cooldown s.router e;
      sane = tt;
    }
    Busy-IsCalm (goes_on {fs} {reports} {s} w acts metrics later h) =
        let calm = Busy-IsCalm h in
        record {
          nonempty = calm.nonempty;
          tracks = calm.tracks;
          sane = All-later (world.perf_counter s.world) (world.perf_counter w) fs later calm.sane;
        }
    Busy-IsCalm (arrives {fs} {reports} {s} f s' h e) =
        let calm = Busy-IsCalm h in
        let (q, s1, arrived, best, router, time, m) =
          arrive_lem fl world g cooldown reports s calm.nonempty calm.tracks in
        let now = world.perf_counter s.world in
        let same = some-injective _ _ (sym arrived ∙ e) in
        let fresh : IsSane fl world g cooldown now (waiting q (others q g.providers) now) = (
          m,
          others-Within q g.providers g.providers (Within-refl g.providers),
          fl.lt_irrefl now,
          omega (arith, others-lt q g.providers m),
        ) in
        record {
          nonempty = calm.nonempty;
          tracks =
              subst (Tracks fl g.providers cooldown reports)
                (sym router ∙ ap (λ x. x.1.router) same) calm.tracks;
          sane =
              subst (λ t. All (IsSane fl world g cooldown (world.perf_counter t)) (f ∷ fs))
                (sym time ∙ ap (λ x. x.1.world) same)
                (
                  subst (IsSane fl world g cooldown now) (ok-injective _ f (ap (λ x. x.0) same))
                      fresh,
                  calm.sane,
                );
        }
    Busy-IsCalm (lands {reports} {s} before p rest started after r f s' h e) =
        let calm = Busy-IsCalm h in
        let now = world.perf_counter s.world in
        let (f1, s1, landed, tracks, time, sane, few, _) =
          land_lem fl world g cooldown p rest started r reports s calm.nonempty calm.tracks (
            All-middle (IsSane fl world g cooldown now) before (waiting p rest started) after
              calm.sane) in
        let same = some-injective _ _ (sym landed ∙ e) in
        record {
          nonempty = calm.nonempty;
          tracks =
              subst (Tracks fl g.providers cooldown (reports_of fl world p started r s ++ reports))
                (ap (λ x. x.1.router) same) tracks;
          sane =
              subst
                (λ t. All (IsSane fl world g cooldown (world.perf_counter t)) (before ++ f ∷ after))
                (sym time ∙ ap (λ x. x.1.world) same)
                (All-replace (IsSane fl world g cooldown now) before (waiting p rest started) f
                  after
                  (subst (IsSane fl world g cooldown now) (ok-injective f1 f (ap (λ x. x.0) same))
                    sane)
                  calm.sane);
        }

    -- However the requests at one gateway interleave, and whatever the calls come to: at every moment the
    -- router has the exact summary of all that was reported to it. A request that arrives selects a best
    -- provider by that summary, and waits for it; the gateway does not raise.
    pub arrive-IsBest :
        {fs : List (Flight F)} {reports : List (Report F)} {s : GatewayState F world.State}
        → Busy fl world g cooldown fs reports s
        → Tracks fl g.providers cooldown reports s.router
          × ((q : Provider) × (s' : GatewayState F world.State) × (arrive fl world g s
                ≡ some (ok (waiting q (others q g.providers) (world.perf_counter s.world)), s'))
              × IsBest fl s.router (world.monotonic s.world) q)
    arrive-IsBest {fs} {reports} {s} busy =
        let calm = Busy-IsCalm busy in
        let (q, s', arrived, best, _, _, _) =
          arrive_lem fl world g cooldown reports s calm.nonempty calm.tracks in
        (calm.tracks, (q, s', arrived, best))

    -- However the requests at one gateway interleave: if one waits for a provider `p`, whose call ends
    -- with any result `r`, then its turn ends. It has ended with `r`, unless `r` deserves another provider
    -- and one is left: then it waits for the first of those left, from now on. It has fewer providers to
    -- ask than before, and never more than there are. The router then has the exact summary of all
    -- that was reported, this turn's report included.
    pub land-Tracks :
        (before : List (Flight F)) (p : Provider) (rest : List Provider) (started : F)
        (after : List (Flight F)) (r : Result LlmResponse) {reports : List (Report F)}
        {s : GatewayState F world.State}
        → Busy fl world g cooldown (before ++ waiting p rest started ∷ after) reports s
        → (f : Flight F) × (s' : GatewayState F world.State) × (land fl world g p rest started r s
            ≡ some (ok f, s'))
          × IsNext fl world g cooldown rest (world.perf_counter s.world) r f
          × Tracks fl g.providers cooldown (reports_of fl world p started r s ++ reports) s'.router
          × (turns f < turns (waiting p rest started))
          × (turns (waiting p rest started) ≤ length g.providers)
    land-Tracks before p rest started after r {reports} {s} busy =
        let calm = Busy-IsCalm busy in
        let here =
          All-middle (IsSane fl world g cooldown (world.perf_counter s.world)) before
            (waiting p rest started) after calm.sane in
        let (f, s', landed, tracks, _, _, fewer, next) =
          land_lem fl world g cooldown p rest started r reports s calm.nonempty calm.tracks here in
        (f, s', landed, next, tracks, omega (arith, fewer), here.3)
