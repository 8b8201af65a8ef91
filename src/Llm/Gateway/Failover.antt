-- ===== src/Llm/Gateway/Failover.antt =====
-- `generate` follows the policy: selection, retries and fallback together.
use mathlib.Core.List.{Memᴰ}
use nexus_ai_platform.Prelude.{
  ℕ, true, false, Option, some, List, [], ◌∷◌, ◌++◌, ◌≡◌, refl, ap, ◌∙◌, String, append_assoc,
}
use nexus_ai_platform.Errors.{LlmErrorKind, Exception, Result, ok, raise, llm_error}
use nexus_ai_platform.Exec.{bind-ok, pure, throw, ◌>>◌}
use nexus_ai_platform.Floats.{Floats}
use nexus_ai_platform.Llm.Models.{LlmResponse, Provider}
use nexus_ai_platform.Llm.Router.{Router}
use nexus_ai_platform.Llm.Router.History.{Report, succeeded, failed, record_all, record_report}
use nexus_ai_platform.Llm.Gateway.State.{World, Gateway, GatewayState, Metric, Act}
use nexus_ai_platform.Llm.Gateway.Policy.{
  Attempts, success, failure, nothing, Fallback, settled, last, next, worth_falling_back,
}
use nexus_ai_platform.Llm.Gateway.Publishing.{IsReady, count_fallback-OnlyPublishes}
use nexus_ai_platform.Llm.Gateway.Reports.{Told, note_failure_lem, note_success_lem}
use nexus_ai_platform.Llm.Gateway.Retry.{awaited}
use nexus_ai_platform.Llm.Gateway.{
  Action, backoff_delay, note_failure, note_success, count_fallback, conclude,
}

module _ (fl : Floats) (world : World fl) where
  open fl use {F, lt}

  record_all-append :
      (r r' : Router F) (new old : List (Report F))
      → record_all fl r old ≡ Result.ok r'
      → record_all fl r (new ++ old) ≡ record_all fl r' new
  unfolding record_all
  record_all-append r r' [] old e = e
  record_all-append r r' (report ∷ new) old e = rw (record_all-append r r' new old e)

  -- What trying the providers `ps`, from the state `s`, has come to.
  abbrev pub Tried :
      Gateway F
      → ℕ
      → List Provider
      → Option (Result LlmResponse × GatewayState F world.State)
      → GatewayState F world.State
      → Type 0
  Tried g n ps end s =
      (r : Result LlmResponse) × (s' : GatewayState F world.State) × (acts : List (Act F))
      × (reports : List (Report F)) × (end ≡ some (r, s'))
      × (s'.acts ≡ s.acts ++ acts)
      × Fallback (backoff_delay fl world g) n ps acts reports r
      × (record_all fl s.router reports ≡ ok s'.router)
      × IsReady fl world g s'.router

  -- What the loop does with the providers that are left.
  abbrev pub Continues :
      Gateway F → ℕ → List Provider → (Exception → Action fl world LlmResponse) → Type 0
  Continues g n [] go =
      (e : Exception) (s : GatewayState F world.State) → go e s ≡ some (raise e, s)
  Continues g n (q ∷ qs) go =
      (e : Exception) (s : GatewayState F world.State)
      → IsReady fl world g s.router
      → Tried g n (q ∷ qs) (go e s) s

  pub failure_noted :
      (g : Gateway F) (p : Provider) (rest : List Provider) (s : GatewayState F world.State)
      → Memᴰ p g.providers
      → IsReady fl world g s.router
      → (s' : GatewayState F world.State) × ((note_failure fl world g p
              >> count_fallback fl world p rest)
            s
          ≡ some (ok tt, s'))
        × Told fl world g (failed p (world.monotonic s.world)) s s'
  failure_noted g p rest s m ready =
      let (s', noted, told) = note_failure_lem fl world g p s m ready in
      let (ms, e) = count_fallback-OnlyPublishes fl world p rest s' in
      (
        record s' { metrics = ms },
        bind-ok (note_failure fl world g p) (λ _. count_fallback fl world p rest) s noted ∙ e,
        told,
      )

  record_one :
      (r r' : Router F) (report : Report F)
      → record_report fl r report ≡ ok r'
      → record_all fl r (report ∷ []) ≡ ok r'
  unfolding record_all
  record_one r r' report e = e

  -- A failure after which the loop goes on.
  fall_back :
      (g : Gateway F) (n : ℕ) (p : Provider) (rest : List Provider)
      (go : Exception → Action fl world LlmResponse) (kind : LlmErrorKind) (message : String)
      (w : world.State) (acts : List (Act F)) (ms : List (Metric F))
      (s : GatewayState F world.State)
      → Memᴰ p g.providers
      → IsReady fl world g s.router
      → Attempts (backoff_delay fl world g) n p 0 acts (raise (llm_error kind message))
      → worth_falling_back (raise (llm_error kind message)) ≡ true
      → Continues g n rest go
      → Tried g n
          (p ∷ rest)
          ((note_failure fl world g p
              >> count_fallback fl world p rest
              >> go (llm_error kind message))
            (awaited fl world s w acts ms))
          s
  fall_back g n p [] go kind message w acts ms s m ready attempts falls more =
      let (s', noted, (told, same_acts, _, ready')) =
        failure_noted g p [] (awaited fl world s w acts ms) m ready in
      (
        raise (llm_error kind message),
        s',
        acts,
        failed p (world.monotonic w) ∷ [],
        bind-ok (note_failure fl world g p >> count_fallback fl world p [])
              (λ _. go (llm_error kind message)) (awaited fl world s w acts ms) noted
            ∙ more (llm_error kind message) s',
        same_acts,
        last attempts falls (failure kind message (world.monotonic w)),
        record_one s.router s'.router (failed p (world.monotonic w)) told,
        ready',
      )
  fall_back g n p (q ∷ qs) go kind message w acts ms s m ready attempts falls more =
      let report = failed p (world.monotonic w) in
      let (s', noted, (told, same_acts, _, ready')) =
        failure_noted g p (q ∷ qs) (awaited fl world s w acts ms) m ready in
      let (r, s'', acts', reports, ended, logged, fallback, recorded, ready'') =
        more (llm_error kind message) s' ready' in
      (
        r,
        s'',
        acts ++ acts',
        reports ++ report ∷ [],
        bind-ok (note_failure fl world g p >> count_fallback fl world p (q ∷ qs))
              (λ _. go (llm_error kind message)) (awaited fl world s w acts ms) noted
            ∙ ended,
        logged ∙ ap (λ l. l ++ acts') same_acts ∙ append_assoc s.acts acts acts',
        next attempts falls (failure kind message (world.monotonic w)) fallback,
        record_all-append s.router s'.router reports (report ∷ [])
              (record_one s.router s'.router report told)
            ∙ recorded,
        ready'',
      )

  -- A failure that is raised at once.
  give_in :
      (g : Gateway F) (n : ℕ) (p : Provider) (rest : List Provider) (kind : LlmErrorKind)
      (message : String) (w : world.State) (acts : List (Act F)) (ms : List (Metric F))
      (s : GatewayState F world.State)
      → Memᴰ p g.providers
      → IsReady fl world g s.router
      → Attempts (backoff_delay fl world g) n p 0 acts (raise (llm_error kind message))
      → worth_falling_back (raise (llm_error kind message)) ≡ false
      → Tried g n
          (p ∷ rest)
          ((note_failure fl world g p >> throw (llm_error kind message))
            (awaited fl world s w acts ms))
          s
  give_in g n p rest kind message w acts ms s m ready attempts stops =
      let (s', noted, (told, same_acts, _, ready')) =
        note_failure_lem fl world g p (awaited fl world s w acts ms) m ready in
      (
        raise (llm_error kind message),
        s',
        acts,
        failed p (world.monotonic w) ∷ [],
        bind-ok (note_failure fl world g p) (λ _. throw (llm_error kind message))
            (awaited fl world s w acts ms) noted,
        same_acts,
        settled attempts stops (failure kind message (world.monotonic w)),
        record_one s.router s'.router (failed p (world.monotonic w)) told,
        ready',
      )

  -- A response is returned.
  respond :
      (g : Gateway F) (n : ℕ) (p : Provider) (rest : List Provider) (response : LlmResponse)
      (w : world.State) (acts : List (Act F)) (ms : List (Metric F))
      (s : GatewayState F world.State)
      → Memᴰ p g.providers
      → IsReady fl world g s.router
      → Attempts (backoff_delay fl world g) n p 0 acts (ok response)
      → lt (world.perf_counter w) (world.perf_counter s.world) ≡ false
      → Tried g n
          (p ∷ rest)
          ((note_success fl world g p (world.perf_counter s.world) >> pure response)
            (awaited fl world s w acts ms))
          s
  respond g n p rest response w acts ms s m ready attempts clock =
      let latency = fl.sub (world.perf_counter w) (world.perf_counter s.world) in
      let (s', noted, (told, same_acts, _, ready')) =
        note_success_lem fl world g p (world.perf_counter s.world) (awaited fl world s w acts ms) m
          ready clock in
      (
        ok response,
        s',
        acts,
        succeeded p latency ∷ [],
        bind-ok (note_success fl world g p (world.perf_counter s.world)) (λ _. pure response)
            (awaited fl world s w acts ms) noted,
        same_acts,
        settled attempts refl (success response latency),
        record_one s.router s'.router (succeeded p latency) told,
        ready',
      )

  -- An exception that is no provider's error is raised as it is.
  pass_on :
      (g : Gateway F) (n : ℕ) (p : Provider) (rest : List Provider) (e : Exception)
      (w : world.State) (acts : List (Act F)) (ms : List (Metric F))
      (s : GatewayState F world.State)
      → IsReady fl world g s.router
      → Attempts (backoff_delay fl world g) n p 0 acts (raise e)
      → worth_falling_back (raise e) ≡ false
      → ((kind : LlmErrorKind) (message : String) → e ≡ llm_error kind message → ⊥)
      → Tried g n (p ∷ rest) (throw e (awaited fl world s w acts ms)) s
  unfolding record_all
  pass_on g n p rest e w acts ms s ready attempts stops foreign = (
    raise e,
    awaited fl world s w acts ms,
    acts,
    [],
    refl,
    refl,
    settled attempts stops (nothing e foreign),
    refl,
    ready,
  )

  pub conclude-Tried :
      (g : Gateway F) (n : ℕ) (p : Provider) (rest : List Provider)
      (go : Exception → Action fl world LlmResponse) (r : Result LlmResponse) (w : world.State)
      (acts : List (Act F)) (ms : List (Metric F)) (s : GatewayState F world.State)
      → Memᴰ p g.providers
      → IsReady fl world g s.router
      → Attempts (backoff_delay fl world g) n p 0 acts r
      → lt (world.perf_counter w) (world.perf_counter s.world) ≡ false
      → Continues g n rest go
      → Tried g n
          (p ∷ rest)
          (conclude fl world g p rest
            (world.perf_counter s.world)
            go
            r
            (awaited fl world s w acts ms))
          s
  unfolding conclude
  conclude-Tried g n p rest go (ok response) w acts ms s m ready attempts clock more =
      respond g n p rest response w acts ms s m ready attempts clock
  conclude-Tried g n p rest go (raise (llm_error LlmErrorKind.rate_limit t)) w acts ms s m ready a
        clock more =
      fall_back g n p rest go LlmErrorKind.rate_limit t w acts ms s m ready a refl more
  conclude-Tried g n p rest go (raise (llm_error LlmErrorKind.unavailable t)) w acts ms s m ready a
        clock more =
      fall_back g n p rest go LlmErrorKind.unavailable t w acts ms s m ready a refl more
  conclude-Tried g n p rest go (raise (llm_error LlmErrorKind.timeout t)) w acts ms s m ready a
        clock more =
      fall_back g n p rest go LlmErrorKind.timeout t w acts ms s m ready a refl more
  conclude-Tried g n p rest go (raise (llm_error kind t)) w acts ms s m ready a clock more =
      give_in g n p rest kind t w acts ms s m ready a refl
  conclude-Tried g n p rest go (raise e) w acts ms s m ready a clock more =
      pass_on g n p rest e w acts ms s ready a refl (λ kind t x. cc)
