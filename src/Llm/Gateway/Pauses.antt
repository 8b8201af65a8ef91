-- ===== src/Llm/Gateway/Pauses.antt =====
-- The pauses between attempts: how long and how many.
use mathlib.Core.List.{Memᴰ}
use nexus_ai_platform.Prelude.{
  ℕ, ◌*◌, ◌^◌, ◌≤◌, false, some, List, [], ◌∷◌, ◌++◌, ◌≡◌, subst, arith, count, count-append,
  length, All, Bool-cases, inl, inr,
}
use nexus_ai_platform.Prelude.Int.{pos}
use nexus_ai_platform.Errors.{Result}
use nexus_ai_platform.Floats.{Floats, smaller}
use nexus_ai_platform.Llm.Models.{LlmRequest, LlmResponse, Provider}
use nexus_ai_platform.Llm.Gateway.State.{World, Gateway, GatewayState, Act, called, slept}
use nexus_ai_platform.Llm.Gateway.Policy.{
  Attempts, final, exhausted, again, Fallback, settled, last, next,
}
use nexus_ai_platform.Llm.Gateway.Shares.{is_same, pauses_after, Fallback-pauses, order-count}
use nexus_ai_platform.Llm.Gateway.Publishing.{IsReady}
use nexus_ai_platform.Llm.Gateway.Generate.{IsBest-mem, generate_run}
use nexus_ai_platform.Llm.Gateway.Bounds.{is_pause, Attempts-count, product_le, times_le, others-lt}
use nexus_ai_platform.Llm.Gateway.{others, backoff_delay, generate}

-- Is this no pause longer than `limit`?
abbrev pub IsShort : (fl : Floats) → fl.F → Act fl.F → Type 0
IsShort fl limit (called _ _) = Unit
IsShort fl limit (slept d) = fl.lt limit d ≡ false

module _ (fl : Floats) (delay : ℕ → fl.F) (n : ℕ) (limit : fl.F)
    (short : (k : ℕ) → fl.lt limit (delay k) ≡ false) where
  open fl use {F}

  All-append :
      (xs ys : List (Act F))
      → All (IsShort fl limit) xs
      → All (IsShort fl limit) ys
      → All (IsShort fl limit) (xs ++ ys)
  All-append [] ys a b = b
  All-append (x ∷ xs) ys a b = (a.0, All-append xs ys a.1 b)

  Attempts-Pauses :
      {p : Provider} {k : ℕ} {acts : List (Act F)} {r : Result LlmResponse}
      → Attempts delay n p k acts r
      → All (IsShort fl limit) acts
  Attempts-Pauses (final o e) = (tt, tt)
  Attempts-Pauses (exhausted o e spent) = (tt, tt)
  Attempts-Pauses (again {k} o e more rest) = (tt, (short k, Attempts-Pauses rest))

  pub Fallback-Pauses :
      {ps : List Provider} {acts : List (Act F)} {reports : _} {r : Result LlmResponse}
      → Fallback delay n ps acts reports r
      → All (IsShort fl limit) acts × (count is_pause acts ≤ length ps * n)
  Fallback-Pauses (settled a _ _) =
      (Attempts-Pauses a, grind (arith, Attempts-count delay n _ a (omega arith)))
  Fallback-Pauses (last a _ _) =
      (Attempts-Pauses a, omega (arith, Attempts-count delay n _ a (omega arith)))
  Fallback-Pauses (next {acts} {acts'} a _ _ rest) =
      let (all, few) = Fallback-Pauses rest in
      (
        All-append acts acts' (Attempts-Pauses a) all,
        omega (arith, count-append is_pause acts acts', Attempts-count delay n _ a (omega arith)),
      )

module _ (fl : Floats) (world : World fl) where
  open fl use {F, lt, lt_irrefl}

  -- No pause is longer than the configured maximum.
  backoff_delay_le :
      (g : Gateway F) (attempt : ℕ)
      → lt g.retry_max_delay (backoff_delay fl world g attempt) ≡ false
  unfolding backoff_delay smaller
  backoff_delay_le g attempt =
      let wanted = fl.mul g.retry_base_delay (fl.of_ℕ (2 ^ attempt)) in
      elim (Bool-cases (lt g.retry_max_delay wanted)) [
        | inl longer ↦ rw longer (lt_irrefl _)
        | inr fits ↦ rw fits fits
      ]

  -- While it serves a request, a gateway with `n` retries, whose router manages its providers, pauses
  -- after calls of a provider `p` at most `n` times for each time that `p` is configured, and so at most
  -- `n` times for each configured provider in all, and never for longer than the configured maximum.
  pub generate_pauses :
      (g : Gateway F) (n : ℕ) (request : LlmRequest F) (s : GatewayState F world.State)
      (p : Provider)
      → g.max_retries ≡ pos n
      → IsReady fl world g s.router
      → (r : Result LlmResponse) × (s' : GatewayState F world.State) × (acts : List (Act F))
        × (generate fl world g request s ≡ some (r, s'))
        × (s'.acts ≡ s.acts ++ acts)
        × All (IsShort fl g.retry_max_delay) acts
        × (pauses_after p false acts ≤ count (is_same p) g.providers * n)
        × (count is_pause acts ≤ length g.providers * n)
  generate_pauses g n request s p max ready =
      let (q, best, (r, s', acts, _, ended, logged, policy, _, _)) =
        generate_run fl world g n request s max ready in
      let m = subst (Memᴰ q) ready.providers (IsBest-mem fl world s.router _ q best) in
      let (all, few) =
        Fallback-Pauses fl (backoff_delay fl world g) n g.retry_max_delay (backoff_delay_le g)
          policy in
      (
        r,
        s',
        acts,
        ended,
        logged,
        all,
        times_le n (Fallback-pauses p (backoff_delay fl world g) n false policy)
            (order-count p q g.providers m),
        product_le n (length (others q g.providers)) few (others-lt q g.providers m),
      )
