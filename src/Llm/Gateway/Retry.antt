-- ===== src/Llm/Gateway/Retry.antt =====
-- `_generate_with_retry` follows the policy for one provider.
use nexus_ai_platform.Prelude.{
  ℕ, zero, suc, ◌+◌, ◌<◌, Bool, true, false, Option, some, List, [], ◌∷◌, ◌++◌, ◌≡◌, refl, subst,
  sym, ap, ◌∙◌, arith, append_assoc, Bool-cases, leb, leb→le, inl, inr,
}
use nexus_ai_platform.Prelude.Int.{pos, leb_ℤ}
use nexus_ai_platform.Errors.{LlmErrorKind, Result, ok, raise, llm_error, builtin_timeout}
use nexus_ai_platform.Exec.{bind-ok, ◌>>=◌}
use nexus_ai_platform.Floats.{Floats}
use nexus_ai_platform.Llm.Models.{LlmRequest, LlmResponse, Provider}
use nexus_ai_platform.Llm.Gateway.State.{
  World, Gateway, GatewayState, Metric, Act, called, slept, retries_total,
}
use nexus_ai_platform.Llm.Gateway.Policy.{
  worth_retrying, surface, Attempts, final, exhausted, again,
}
use nexus_ai_platform.Llm.Gateway.Publishing.{count_attempt-OnlyPublishes}
use nexus_ai_platform.Llm.Gateway.{
  Handling, returned, transient, fatal, uncaught, handle, provider_name, await_provider, try_once,
  backoff_delay, backoff, react, retry_fuel, retry_loop, generate_with_retry, Action,
}

-- What each `except` clause does, as the policy sees it.
abbrev Handled : Result LlmResponse → Handling → Type 0
Handled o (returned response) = (worth_retrying o ≡ false) × (surface o ≡ ok response)
Handled o (transient label e) = (worth_retrying o ≡ true) × (surface o ≡ raise e)
Handled o (fatal label e) = (worth_retrying o ≡ false) × (surface o ≡ raise e)
Handled o (uncaught e) = (worth_retrying o ≡ false) × (surface o ≡ raise e)

handle_lem : (o : Result LlmResponse) → Handled o (handle o)
unfolding handle
handle_lem (ok response) = (refl, refl)
handle_lem (raise builtin_timeout) = (refl, refl)
handle_lem (raise (llm_error LlmErrorKind.base m)) = (refl, refl)
handle_lem (raise (llm_error _ m)) = (refl, refl)
handle_lem (raise _) = (refl, refl)

module _ (fl : Floats) (world : World fl) where
  open fl use {F, lt, lt_irrefl, ge_trans}

  -- The world after one awaited call of the provider, and the call's outcome.
  abbrev outcome_of :
      Gateway F → Provider → LlmRequest F → GatewayState F world.State → Result LlmResponse
  outcome_of g p request s = (world.wait_for g.timeout_seconds p request s.world).0

  abbrev world_after :
      Gateway F → Provider → LlmRequest F → GatewayState F world.State → world.State
  world_after g p request s = (world.wait_for g.timeout_seconds p request s.world).1

  -- The state after some awaits: the router is as before.
  abbrev pub awaited :
      GatewayState F world.State
      → world.State
      → List (Act F)
      → List (Metric F)
      → GatewayState F world.State
  awaited s w acts ms = record s { world = w; acts = s.acts ++ acts; metrics = ms }

  try_once_lem :
      (g : Gateway F) (p : Provider) (request : LlmRequest F) (s : GatewayState F world.State)
      → (ms : List (Metric F)) × (try_once fl world g p request s
          ≡ some (
            ok (handle (outcome_of g p request s)),
            awaited s (world_after g p request s) (called p (outcome_of g p request s) ∷ []) ms,
          ))
  unfolding try_once await_provider
  try_once_lem g p request s =
      let (ms, e) =
        count_attempt-OnlyPublishes fl world (provider_name p)
          (fl.sub (world.perf_counter (world_after g p request s)) (world.perf_counter s.world))
          (handle (outcome_of g p request s))
          (awaited s (world_after g p request s) (called p (outcome_of g p request s) ∷ [])
            s.metrics) in
      (ms, rw (e, ◌>>=◌))

  -- What the loop, or a part of it, has come to.
  abbrev pub Retried :
      Gateway F
      → ℕ
      → Provider
      → ℕ
      → Option (Result LlmResponse × GatewayState F world.State)
      → GatewayState F world.State
      → Type 0
  Retried g n p k end s =
      (r : Result LlmResponse) × (w : world.State) × (acts : List (Act F)) × (ms : List (Metric F))
      × (end ≡ some (r, awaited s w acts ms))
      × Attempts (backoff_delay fl world g) n p k acts r
      × (lt (world.perf_counter w) (world.perf_counter s.world) ≡ false)

  -- The log after a failed attempt and a pause, bracketed as the policy has it.
  acts_again :
      (old new : List (Act F)) (a b : Act F)
      → ((old ++ a ∷ []) ++ b ∷ []) ++ new ≡ old ++ (a ∷ b ∷ new)
  acts_again old new a b =
      append_assoc (old ++ a ∷ []) (b ∷ []) new ∙ append_assoc old (a ∷ []) (b ∷ new)

  retries_test :
      (g : Gateway F) (n k : ℕ) (b : Bool)
      → g.max_retries ≡ pos n
      → leb n k ≡ b
      → leb_ℤ g.max_retries (pos k) ≡ b
  retries_test g n k b max h = rw max (ground arith)

  react-Retried :
      (g : Gateway F) (n : ℕ) (p : Provider)
      → g.max_retries ≡ pos n
      → (next : Action fl world LlmResponse) (k : ℕ) (s : GatewayState F world.State)
        (w : world.State) (ms : List (Metric F)) (o : Result LlmResponse) (h : Handling)
      → Handled o h
      → lt (world.perf_counter w) (world.perf_counter s.world) ≡ false
      → (k < n → (s' : GatewayState F world.State) → Retried g n p (k + 1) (next s') s')
      → Retried g n p k (react fl world g p k next h (awaited s w (called p o ∷ []) ms)) s
  unfolding react backoff
  react-Retried g n p max next k s w ms o (returned response) (stop, same) clock rest = (
    ok response,
    w,
    called p o ∷ [],
    ms,
    refl,
    subst (Attempts _ n p k _) same (final o stop),
    clock,
  )
  react-Retried g n p max next k s w ms o (fatal label e) (stop, same) clock rest =
      (raise e, w, called p o ∷ [], ms, refl, subst (Attempts _ n p k _) same (final o stop), clock)
  react-Retried g n p max next k s w ms o (uncaught e) (stop, same) clock rest =
      (raise e, w, called p o ∷ [], ms, refl, subst (Attempts _ n p k _) same (final o stop), clock)
  react-Retried g n p max next k s w ms o (transient label e) (go_on, same) clock rest =
      elim (Bool-cases (leb n k)) [
        | inl spent ↦ (
          raise e,
          w,
          called p o ∷ [],
          ms,
          rw (retries_test g n k true max spent),
          subst (Attempts _ n p k _) same (exhausted o go_on (leb→le n k spent)),
          clock,
        )
        | inr left ↦
            let delay = backoff_delay fl world g k in
            let s' = record s {
              world = world.sleep delay w;
              acts = (s.acts ++ called p o ∷ []) ++ slept delay ∷ [];
              metrics = ms ++ retries_total (provider_name p) label ∷ [];
            } in
            let (r, w', acts, ms', ended, attempts, later) = rest (ground (arith, left)) s' in
            (
              r,
              w',
              called p o ∷ slept delay ∷ acts,
              ms',
              rw (retries_test g n k false max left) (
                  ended
                  ∙ ap (λ l. some (r, record s { world = w'; acts = l; metrics = ms' }))
                      (acts_again s.acts acts (called p o) (slept delay))),
              again o go_on (ground (arith, left)) attempts,
              ge_trans _ _ _ later (ge_trans _ _ _ (world.sleep_clock delay w) clock),
            )
      ]

  -- One round of the loop, given what the rounds after it come to.
  round-Retried :
      (g : Gateway F) (n : ℕ) (p : Provider) (request : LlmRequest F)
      → g.max_retries ≡ pos n
      → (left k : ℕ) (s : GatewayState F world.State)
      → (k < n
          → (s' : GatewayState F world.State)
          → Retried g n p (k + 1) (retry_loop fl world left g p request (k + 1) s') s')
      → Retried g n p k (retry_loop fl world (suc left) g p request k s) s
  unfolding retry_loop
  round-Retried g n p request max left k s rest =
      let (ms, tried) = try_once_lem g p request s in
      subst (λ end. Retried g n p k end s)
        (sym (
          bind-ok (try_once fl world g p request)
            (react fl world g p k (retry_loop fl world left g p request (k + 1))) s tried))
        (react-Retried g n p max (retry_loop fl world left g p request (k + 1)) k s
          (world_after g p request s) ms (outcome_of g p request s)
          (handle (outcome_of g p request s)) (handle_lem (outcome_of g p request s))
          (world.wait_for_clock g.timeout_seconds p request s.world) rest)

  -- From attempt `k` of `n` retries the loop ends within one round more than the retries left.
  retry_loop-Retried :
      (g : Gateway F) (n : ℕ) (p : Provider) (request : LlmRequest F)
      → g.max_retries ≡ pos n
      → (left k : ℕ) (s : GatewayState F world.State) → left + k ≡ n
      → Retried g n p k (retry_loop fl world (suc left) g p request k s) s
  retry_loop-Retried g n p request max zero k s e =
      round-Retried g n p request max zero k s (λ more. absurd (omega arith))
  retry_loop-Retried g n p request max (suc left) k s e =
      round-Retried g n p request max (suc left) k s
        (λ more s'. retry_loop-Retried g n p request max left (k + 1) s' (omega arith))

  -- With `n` retries allowed, `generate_with_retry` ends: its awaits are a run of the policy for
  -- the provider from the first attempt on, its result is the policy's, it leaves the router
  -- alone, and the clock has not gone back.
  pub generate_with_retry-Retried :
      (g : Gateway F) (n : ℕ) (p : Provider) (request : LlmRequest F)
      (s : GatewayState F world.State)
      → g.max_retries ≡ pos n
      → Retried g n p 0 (generate_with_retry fl world g p request s) s
  unfolding generate_with_retry
  generate_with_retry-Retried g n p request s max =
      subst (λ fuel. Retried g n p 0 (retry_loop fl world fuel g p request 0 s) s)
        (ap retry_fuel (sym max)) (retry_loop-Retried g n p request max n 0 s (omega arith))
