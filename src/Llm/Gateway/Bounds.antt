-- ===== src/Llm/Gateway/Bounds.antt =====
-- What the policy costs, and what the caller of `generate` is told.
use mathlib.Core.List.{Memᴰ}
use nexus_ai_platform.Prelude.{
  ℕ, suc, ◌+◌, ◌*◌, ◌≤◌, Bool, true, false, Option, none, some, List, [], ◌∷◌, ◌++◌, ◌≡◌, refl, ap,
  ◌∙◌, subst, ◌==◌, ==_refl, arith, count, count-append, length, Bool-cases, inl, inr,
}
use nexus_ai_platform.Prelude.Int.{pos}
use nexus_ai_platform.Errors.{Result}
use nexus_ai_platform.Floats.{Floats}
use nexus_ai_platform.Llm.Models.{LlmRequest, LlmResponse, Provider}
use nexus_ai_platform.Llm.Gateway.State.{World, Gateway, GatewayState, Act, called, slept}
use nexus_ai_platform.Llm.Gateway.Policy.{
  Attempts, final, exhausted, again, Fallback, settled, last, next, surface,
}
use nexus_ai_platform.Llm.Gateway.Shares.{is_same, is_call_of, Fallback-calls, order-count}
use nexus_ai_platform.Llm.Gateway.Publishing.{IsReady}
use nexus_ai_platform.Llm.Gateway.Generate.{IsBest-mem, generate_run}
use nexus_ai_platform.Llm.Gateway.{others, backoff_delay, generate}

module _ {F : Type 0} where
  abbrev pub is_call : Act F → Bool
  is_call (called _ _) = true
  is_call (slept _) = false

  abbrev pub is_pause : Act F → Bool
  is_pause (called _ _) = false
  is_pause (slept _) = true

  -- The last provider that was called, and the outcome of that call.
  abbrev pub last_call : List (Act F) → Option (Provider × Result LlmResponse)
  last_call [] = none
  last_call (called p o ∷ acts) =
      let later = last_call acts in elim later [ none ↦ some (p, o) | some x ↦ some x ]
  last_call (slept _ ∷ acts) = last_call acts

  last_call-append :
      (xs ys : List (Act F)) {x : Provider × Result LlmResponse}
      → last_call ys ≡ some x
      → last_call (xs ++ ys) ≡ some x
  last_call-append [] ys e = e
  last_call-append (called p o ∷ xs) ys e = rw (last_call-append xs ys e)
  last_call-append (slept d ∷ xs) ys e = last_call-append xs ys e

  -- One provider: at most one call more than the retries left, and a pause between two calls.
  pub Attempts-count :
      (delay : ℕ → F) (n : ℕ) (p : Provider) {k : ℕ} {acts : List (Act F)} {r : Result LlmResponse}
      → Attempts delay n p k acts r
      → k ≤ n
      → (count is_call acts + k ≤ n + 1) × (count is_pause acts + 1 ≡ count is_call acts)
  Attempts-count delay n p (final o h) le = (omega arith, refl)
  Attempts-count delay n p (exhausted o h spent) le = (omega arith, refl)
  Attempts-count delay n p (again o h more rest) le =
      let (calls, pauses) = Attempts-count delay n p rest (omega arith) in
      (omega arith, omega arith)

  Fallback-count :
      (delay : ℕ → F) (n : ℕ) {ps : List Provider} {acts : List (Act F)} {reports : _}
      {r : Result LlmResponse}
      → Fallback delay n ps acts reports r
      → count is_call acts ≤ length ps * (n + 1)
  Fallback-count delay n (settled a _ _) =
      grind (arith, (Attempts-count delay n _ a (omega arith)).0)
  Fallback-count delay n (last a _ _) = omega (arith, (Attempts-count delay n _ a (omega arith)).0)
  Fallback-count delay n (next {acts} {acts'} a _ _ rest) = omega (
    arith,
    count-append is_call acts acts',
    (Attempts-count delay n _ a (omega arith)).0,
    Fallback-count delay n rest,
  )

  Attempts-last :
      (delay : ℕ → F) (n : ℕ) (p : Provider) {k : ℕ} {acts : List (Act F)} {r : Result LlmResponse}
      → Attempts delay n p k acts r
      → (o : Result LlmResponse) × (last_call acts ≡ some (p, o)) × (r ≡ surface o)
  Attempts-last delay n p (final o h) = (o, refl, refl)
  Attempts-last delay n p (exhausted o h spent) = (o, refl, refl)
  Attempts-last delay n p (again o h more rest) =
      let (o', e, same) = Attempts-last delay n p rest in (o', rw e, same)

  Fallback-last :
      (delay : ℕ → F) (n : ℕ) {ps : List Provider} {acts : List (Act F)} {reports : _}
      {r : Result LlmResponse}
      → Fallback delay n ps acts reports r
      → (p : Provider) × (o : Result LlmResponse) × Memᴰ p ps
        × (last_call acts ≡ some (p, o))
        × (r ≡ surface o)
  Fallback-last delay n (settled a _ _) =
      let (o, e, same) = Attempts-last delay n _ a in (_, o, Memᴰ.head refl, e, same)
  Fallback-last delay n (last a _ _) =
      let (o, e, same) = Attempts-last delay n _ a in (_, o, Memᴰ.head refl, e, same)
  Fallback-last delay n (next {acts} {acts'} a _ _ rest) =
      let (p, o, m, e, same) = Fallback-last delay n rest in
      (p, o, Memᴰ.tail m, last_call-append acts acts' e, same)

pub product_le : {c m : ℕ} (k l : ℕ) → c ≤ suc l * k → l + 1 ≤ m → c ≤ m * k
product_le k l h le = grind arith

pub times_le : {c k l : ℕ} (m : ℕ) → c ≤ k * m → k ≤ l → c ≤ l * m
times_le m h le = grind arith

-- The others are at least one fewer than the configured providers.
others_fewer : (q : Provider) (ps : List Provider) → length (others q ps) ≤ length ps
unfolding others
others_fewer q [] = omega arith
others_fewer q (p ∷ ps) = elim (Bool-cases (p.identity == q.identity)) [
  | inl same ↦ rw same (omega (arith, others_fewer q ps))
  | inr differ ↦ rw differ (omega (arith, others_fewer q ps))
]

pub others-lt :
    (q : Provider) (ps : List Provider) → Memᴰ q ps → length (others q ps) + 1 ≤ length ps
unfolding others
others-lt q [] m = elim m [ ]
others-lt q (p ∷ ps) (Memᴰ.head e) = rw (← e, ==_refl q.identity) (omega (arith, others_fewer q ps))
others-lt q (p ∷ ps) (Memᴰ.tail m) = elim (Bool-cases (p.identity == q.identity)) [
  | inl same ↦ rw same (omega (arith, others_fewer q ps))
  | inr differ ↦ rw differ (omega (arith, others-lt q ps m))
]

module _ (fl : Floats) (world : World fl) where
  open fl use {F, lt, lt_irrefl, lt_asymm}

  -- While it serves a request, a gateway with `n` retries, whose router manages its providers, awaits at
  -- most `n + 1` calls of a provider `p` for each time that `p` is configured, and so at most `n + 1` for
  -- each configured provider in all; and the request returns or raises.
  pub generate_calls :
      (g : Gateway F) (n : ℕ) (request : LlmRequest F) (s : GatewayState F world.State)
      (p : Provider)
      → g.max_retries ≡ pos n
      → IsReady fl world g s.router
      → (r : Result LlmResponse) × (s' : GatewayState F world.State) × (acts : List (Act F))
        × (generate fl world g request s ≡ some (r, s'))
        × (s'.acts ≡ s.acts ++ acts)
        × (count (is_call_of p) acts ≤ count (is_same p) g.providers * (n + 1))
        × (count is_call acts ≤ length g.providers * (n + 1))
  generate_calls g n request s p max ready =
      let (q, best, (r, s', acts, _, ended, logged, policy, _, _)) =
        generate_run fl world g n request s max ready in
      let m = subst (Memᴰ q) ready.providers (IsBest-mem fl world s.router _ q best) in
      (
        r,
        s',
        acts,
        ended,
        logged,
        times_le (n + 1) (Fallback-calls p (backoff_delay fl world g) n policy)
            (order-count p q g.providers m),
        product_le (n + 1) (length (others q g.providers))
            (Fallback-count (backoff_delay fl world g) n policy) (others-lt q g.providers m),
      )

  -- A gateway with `n` retries, whose router manages its providers, makes some call, and tells the
  -- caller the outcome of the last one, with the gateway's deadline as a provider's timeout.
  pub generate_answer :
      (g : Gateway F) (n : ℕ) (request : LlmRequest F) (s : GatewayState F world.State)
      → g.max_retries ≡ pos n
      → IsReady fl world g s.router
      → (p : Provider) × (o : Result LlmResponse) × (s' : GatewayState F world.State) × (acts : List
          (Act F))
        × (generate fl world g request s ≡ some (surface o, s'))
        × (s'.acts ≡ s.acts ++ acts)
        × (last_call acts ≡ some (p, o))
  generate_answer g n request s max ready =
      let (q, _, (r, s', acts, _, ended, logged, policy, _, _)) =
        generate_run fl world g n request s max ready in
      let (p, o, _, e, same) = Fallback-last (backoff_delay fl world g) n policy in
      (p, o, s', acts, ended ∙ ap (λ x. some (x, s')) same, logged, e)
