-- ===== src/Llm/Gateway/Concurrent.antt =====
-- Many requests at one gateway. A request gives way to the others only inside `_generate_with_retry`,
-- where it waits for a provider or pauses; what `generate` does before the first call of it, and
-- between one call and the next, runs without an interruption.
pub mod Turns
pub mod Steps
pub mod Orders
use nexus_ai_platform.Prelude.{
  ℕ, suc, Bool, false, List, [], ◌∷◌, ◌++◌, ◌≡◌, some, length, if◌then◌else◌,
}
use nexus_ai_platform.Errors.{LlmErrorKind, Exception, Result, ok, raise, llm_error}
use nexus_ai_platform.Exec.{pure, throw, lift, catch, ◌>>=◌, ◌>>◌}
use nexus_ai_platform.Floats.{Floats}
use nexus_ai_platform.Llm.Models.{LlmRequest, LlmResponse, Provider}
use nexus_ai_platform.Llm.Router.{new_router, select_provider}
use nexus_ai_platform.Llm.Router.History.{Report, succeeded, failed}
use nexus_ai_platform.Llm.Gateway.State.{World, Gateway, GatewayState, Metric, Act, selected_total}
use nexus_ai_platform.Llm.Gateway.{
  Action, ask, emit, read_clock, provider_name, others, update_provider_metrics, note_success,
  note_failure, count_fallback, falls_back, generate_with_retry, conclude, try_providers,
}

-- A request: it waits for a provider, with those that are left and the time at which it began to
-- wait; or it has ended.
pub data Flight (F : Type 0) : Type 0 where
  waiting : Provider → List Provider → F → Flight F
  ended : Result LlmResponse → Flight F

-- The providers that the request may still ask.
abbrev pub turns : {F : Type 0} → Flight F → ℕ
turns (waiting p rest started) = suc (length rest)
turns (ended r) = 0

module _ (fl : Floats) (world : World fl) where
  open fl use {F, lt, sub}

  -- `generate`, up to the first call of `_generate_with_retry`.
  unfoldable pub arrive : Gateway F → Action fl world (Flight F)
  arrive g = do
    selected ← ask fl world (select_provider fl)
    emit fl world (selected_total (provider_name selected))
    update_provider_metrics fl world g
    started ← read_clock fl world
    pure (waiting selected (others selected g.providers) started)

  -- The start of the next round of the loop, or its end.
  unfoldable pub go_on : List Provider → Exception → Action fl world (Flight F)
  go_on [] e = pure (ended (raise e))
  go_on (q ∷ rest) e = do started ← read_clock fl world; pure (waiting q rest started)

  -- The rest of a round, once `_generate_with_retry` has ended with a result, and the start of the
  -- next one.
  unfoldable pub land :
      Gateway F → Provider → List Provider → F → Result LlmResponse → Action fl world (Flight F)
  land g p rest started (ok response) =
      note_success fl world g p started >> pure (ended (ok response))
  land g p rest started (raise (llm_error kind message)) =
      if falls_back kind
      then note_failure fl world g p
        >> count_fallback fl world p rest
        >> go_on rest (llm_error kind message)
      else note_failure fl world g p >> pure (ended (raise (llm_error kind message)))
  land g p rest started (raise e) = pure (ended (raise e))

  -- A request that is alone from here on.
  abbrev pub resume : Gateway F → LlmRequest F → Flight F → Action fl world LlmResponse
  resume g request (waiting p rest started) = do
    outcome ← catch (generate_with_retry fl world g p request)
    conclude fl world g p rest started (λ e. try_providers fl world g request (some e) rest) outcome
  resume g request (ended r) = lift r

  -- What a request that ends a call reports to the router.
  abbrev pub reports_of :
      Provider → F → Result LlmResponse → GatewayState F world.State → List (Report F)
  reports_of p started (ok response) s = succeeded p (sub (world.perf_counter s.world) started) ∷ []
  reports_of p started (raise (llm_error kind message)) s = failed p (world.monotonic s.world) ∷ []
  reports_of p started (raise e) s = []

  -- The requests at one gateway, the reports to its router (newest first) and its state, from the
  -- router that `__init__` makes: what is outside goes on, also for the calls and pauses that
  -- requests wait for; a request arrives; or the call of one that waits ends, with any result.
  pub data Busy (g : Gateway F) (cooldown : F)
      : List (Flight F) → List (Report F) → GatewayState F world.State → Type 0 where
    opened :
        {s : GatewayState F world.State}
        → new_router fl g.providers cooldown ≡ ok s.router
        → Busy g cooldown [] [] s
    goes_on :
        {fs : List (Flight F)} {reports : List (Report F)} {s : GatewayState F world.State}
        (w : world.State) (acts : List (Act F)) (metrics : List (Metric F))
        → lt (world.perf_counter w) (world.perf_counter s.world) ≡ false
        → Busy g cooldown fs reports s
        → Busy g cooldown fs reports (record s { world = w; acts = acts; metrics = metrics })
    arrives :
        {fs : List (Flight F)} {reports : List (Report F)} {s : GatewayState F world.State}
        (f : Flight F) (s' : GatewayState F world.State)
        → Busy g cooldown fs reports s
        → arrive g s ≡ some (ok f, s')
        → Busy g cooldown (f ∷ fs) reports s'
    lands :
        {reports : List (Report F)} {s : GatewayState F world.State} (before : List (Flight F))
        (p : Provider) (rest : List Provider) (started : F) (after : List (Flight F))
        (r : Result LlmResponse) (f : Flight F) (s' : GatewayState F world.State)
        → Busy g cooldown (before ++ waiting p rest started ∷ after) reports s
        → land g p rest started r s ≡ some (ok f, s')
        → Busy g cooldown (before ++ f ∷ after) (reports_of p started r s ++ reports) s'
