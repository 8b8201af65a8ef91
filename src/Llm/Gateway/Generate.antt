-- ===== src/Llm/Gateway/Generate.antt =====
-- `generate` as a whole: selection, then the policy over the selected provider and the others.
use mathlib.Core.List.{Memᴰ}
use nexus_ai_platform.Prelude.{
  ℕ, Option, none, some, List, [], ◌∷◌, ◌++◌, ◌≡◌, refl, sym, subst, All, ◌==◌, ==_iff, Bool-cases,
  inl, inr,
}
use nexus_ai_platform.Prelude.Int.{pos}
use nexus_ai_platform.Errors.{Exception}
use nexus_ai_platform.Exec.{bind-ok, continue, catch}
use nexus_ai_platform.Floats.{Floats}
use nexus_ai_platform.Llm.Models.{LlmRequest, Provider}
use nexus_ai_platform.Llm.Router.{Router}
use nexus_ai_platform.Llm.Router.Lookup.{IsManaged}
use nexus_ai_platform.Llm.Router.Select.{
  IsBest, unobserved, available, none_available, select_provider-IsBest,
}
use nexus_ai_platform.Llm.Gateway.State.{World, Gateway, GatewayState, selected_total}
use nexus_ai_platform.Llm.Gateway.Policy.{Others}
use nexus_ai_platform.Llm.Gateway.Publishing.{IsReady, update_provider_metrics-OnlyPublishes}
use nexus_ai_platform.Llm.Gateway.Retry.{generate_with_retry-Retried}
use nexus_ai_platform.Llm.Gateway.Failover.{Tried, Continues, conclude-Tried}
use nexus_ai_platform.Llm.Gateway.{
  provider_name, others, ordered_providers, generate_with_retry, conclude, try_providers, give_up,
  generate, update_provider_metrics,
}

others-Others : (q : Provider) (ps : List Provider) → Others q ps (others q ps)
unfolding others
others-Others q [] = Others.none_left
others-Others q (p ∷ ps) = elim (Bool-cases (p.identity == q.identity)) [
  | inl same ↦
      rw same (Others.itself p ((==_iff p.identity q.identity).0 same) (others-Others q ps))
  | inr differ ↦
      rw differ (
        Others.another p (λ e. cc ((==_iff p.identity q.identity).1 e, differ))
          (others-Others q ps))
]

abbrev pub Within : List Provider → Provider → Type 0
Within qs p = Memᴰ p qs

-- The ordered list holds configured providers only.
pub others-Within :
    (q : Provider) (ps qs : List Provider) → All (Within qs) ps → All (Within qs) (others q ps)
unfolding others
others-Within q [] qs h = tt
others-Within q (p ∷ ps) qs h = elim (Bool-cases (p.identity == q.identity)) [
  | inl same ↦ rw same (others-Within q ps qs h.1)
  | inr differ ↦ rw differ (h.0, others-Within q ps qs h.1)
]

Within-tail : (p : Provider) (ps qs : List Provider) → All (Within qs) ps → All (Within (p ∷ qs)) ps
Within-tail p [] qs h = tt
Within-tail p (x ∷ ps) qs h = (Memᴰ.tail h.0, Within-tail p ps qs h.1)

pub Within-refl : (ps : List Provider) → All (Within ps) ps
Within-refl [] = tt
Within-refl (p ∷ ps) = (Memᴰ.head refl, Within-tail p ps ps (Within-refl ps))

mem_middle : (q : Provider) (before after : List Provider) → Memᴰ q (before ++ q ∷ after)
mem_middle q [] after = Memᴰ.head refl
mem_middle q (p ∷ before) after = Memᴰ.tail (mem_middle q before after)

module _ (fl : Floats) (world : World fl) where
  open fl use {F}

  pub IsBest-mem : (r : Router F) (now : F) (q : Provider) → IsBest fl r now q → Memᴰ q r.providers
  IsBest-mem r now q (unobserved before after e _ _) = rw e (mem_middle q before after)
  IsBest-mem r now q (available _ m _ _) = m
  IsBest-mem r now q (none_available _ m _ _) = m

  round-Tried :
      (g : Gateway F) (n : ℕ) (request : LlmRequest F) (last_error : Option Exception)
      (p : Provider) (rest : List Provider) (s : GatewayState F world.State)
      → g.max_retries ≡ pos n
      → Memᴰ p g.providers
      → IsReady fl world g s.router
      → Continues fl world g n rest (λ e. try_providers fl world g request (some e) rest)
      → Tried fl world g n (p ∷ rest) (try_providers fl world g request last_error (p ∷ rest) s) s
  unfolding try_providers
  round-Tried g n request last_error p rest s max m ready more =
      let (r, w, acts, ms, ended, attempts, clock) =
        generate_with_retry-Retried fl world g n p request s max in
      subst (λ end. Tried fl world g n (p ∷ rest) end s)
        (sym (
          bind-ok (catch (generate_with_retry fl world g p request))
            (conclude fl world g p rest (world.perf_counter s.world)
              (λ e. try_providers fl world g request (some e) rest))
            s (rw (ended, catch))))
        (conclude-Tried fl world g n p rest (λ e. try_providers fl world g request (some e) rest) r
          w acts ms s m ready attempts clock more)

  -- The loop over the providers follows the policy, whatever the last error was.
  try_providers-Continues :
      (g : Gateway F) (n : ℕ) (request : LlmRequest F) (ps : List Provider)
      → g.max_retries ≡ pos n
      → All (Within g.providers) ps
      → Continues fl world g n ps (λ e. try_providers fl world g request (some e) ps)
  try_providers-Continues g n request [] max h = λ e s. unfold try_providers give_up in refl
  try_providers-Continues g n request (p ∷ ps) max h = λ e s ready.
      round-Tried g n request (some e) p ps s max h.0 ready
        (try_providers-Continues g n request ps max h.1)

  -- `generate` follows the policy over the order that the code makes.
  pub generate_run :
      (g : Gateway F) (n : ℕ) (request : LlmRequest F) (s : GatewayState F world.State)
      → g.max_retries ≡ pos n
      → IsReady fl world g s.router
      → (q : Provider) × IsBest fl s.router (world.monotonic s.world) q
        × Tried fl world g n (q ∷ others q g.providers) (generate fl world g request s) s
  unfolding generate ordered_providers
  generate_run g n request s max ready =
      let all = subst (All (IsManaged fl s.router)) (sym ready.providers) ready.managed in
      let (q, selected, best) =
        select_provider-IsBest fl s.router (world.monotonic s.world) ready.nonempty all in
      let m = subst (Memᴰ q) ready.providers (IsBest-mem s.router _ q best) in
      let s' = record s { metrics = s.metrics ++ selected_total (provider_name q) ∷ [] } in
      let (ms, published) = update_provider_metrics-OnlyPublishes fl world g s' ready in
      let order = q ∷ others q g.providers in
      let within : All (Within g.providers) order =
        (m, others-Within q g.providers g.providers (Within-refl g.providers)) in
      (
        q,
        best,
        rw (selected, continue)
            (subst (λ end. Tried fl world g n order end s)
              (sym (
                bind-ok (update_provider_metrics fl world g)
                  (λ _. try_providers fl world g request none order) s' published))
              (round-Tried g n request none q (others q g.providers) (record s { metrics = ms }) max
                m ready (try_providers-Continues g n request (others q g.providers) max within.1))),
      )

  -- A gateway with `n` retries, whose router manages its providers, answers every request after
  -- finitely many steps. It selects a best provider `q`; then its awaits, the reports to its
  -- router and its result are a run of the policy over `q` and the other providers in their
  -- configured order; and its router manages its providers again.
  pub generate_lem :
      (g : Gateway F) (n : ℕ) (request : LlmRequest F) (s : GatewayState F world.State)
      → g.max_retries ≡ pos n
      → IsReady fl world g s.router
      → (q : Provider) × (rest : List Provider) × IsBest fl s.router (world.monotonic s.world) q
        × Others q g.providers rest
        × Tried fl world g n (q ∷ rest) (generate fl world g request s) s
  generate_lem g n request s max ready =
      let (q, best, tried) = generate_run g n request s max ready in
      (q, others q g.providers, best, others-Others q g.providers, tried)
