-- ===== src/Llm/Gateway/Policy.antt =====
-- The reliability policy of the gateway, said by relations on what is awaited: no metrics, no
-- clock, no fuel and no control flow.
use nexus_ai_platform.Prelude.{
  ◌≢◌, ℕ, ◌+◌, ◌≤◌, ◌<◌, String, Bool, true, false, List, [], ◌∷◌, ◌++◌, ◌≡◌,
}
use nexus_ai_platform.Errors.{
  LlmErrorKind, Exception, Result, ok, raise, llm_error, builtin_timeout,
}
use nexus_ai_platform.Llm.Models.{LlmResponse, Provider}
use nexus_ai_platform.Llm.Router.History.{Report, succeeded, failed}
use nexus_ai_platform.Llm.Gateway.State.{Act, called, slept}

-- Outcomes of a call that deserve another attempt at the same provider: the deadline of the
-- gateway, a rate limit, an unavailable service.
abbrev pub worth_retrying : Result LlmResponse → Bool
worth_retrying (raise builtin_timeout) = true
worth_retrying (raise (llm_error LlmErrorKind.rate_limit _)) = true
worth_retrying (raise (llm_error LlmErrorKind.unavailable _)) = true
worth_retrying _ = false

-- What the caller is told of the last outcome: itself, the deadline as a provider's timeout.
abbrev pub surface : Result LlmResponse → Result LlmResponse
surface (raise builtin_timeout) =
    raise (llm_error LlmErrorKind.timeout "LLM provider request timed out")
surface outcome = outcome

-- Failures after which another provider is tried.
abbrev pub worth_falling_back : Result LlmResponse → Bool
worth_falling_back (raise (llm_error LlmErrorKind.rate_limit _)) = true
worth_falling_back (raise (llm_error LlmErrorKind.unavailable _)) = true
worth_falling_back (raise (llm_error LlmErrorKind.timeout _)) = true
worth_falling_back _ = false

module _ {F : Type 0} (delay : ℕ → F) (retries : ℕ) (p : Provider) where
  -- The attempts at one provider, from attempt number `k` on, and what they end with. After the
  -- failed attempt `k` the pause is `delay k`.
  pub data Attempts : ℕ → List (Act F) → Result LlmResponse → Type 0 where
    final :
        {k : ℕ} (outcome : Result LlmResponse)
        → worth_retrying outcome ≡ false
        → Attempts k (called p outcome ∷ []) (surface outcome)
    exhausted :
        {k : ℕ} (outcome : Result LlmResponse)
        → worth_retrying outcome ≡ true
        → retries ≤ k
        → Attempts k (called p outcome ∷ []) (surface outcome)
    again :
        {k : ℕ} {acts : List (Act F)} {r : Result LlmResponse} (outcome : Result LlmResponse)
        → worth_retrying outcome ≡ true
        → k < retries
        → Attempts (k + 1) acts r
        → Attempts k (called p outcome ∷ slept (delay k) ∷ acts) r

-- What is recorded of a provider that ended with `r`: a success or a failure; of an exception that
-- is no provider's error, nothing.
pub data Recorded {F : Type 0} (p : Provider) : Result LlmResponse → List (Report F) → Type 0 where
  success :
      (response : LlmResponse) (latency : F) → Recorded p (ok response) (succeeded p latency ∷ [])
  failure :
      (kind : LlmErrorKind) (message : String) (now : F)
      → Recorded p (raise (llm_error kind message)) (failed p now ∷ [])
  nothing :
      (e : Exception)
      → ((kind : LlmErrorKind) (message : String) → e ≡ llm_error kind message → ⊥)
      → Recorded p (raise e) []

module _ {F : Type 0} (delay : ℕ → F) (retries : ℕ) where
  -- The providers in the order in which they are tried, everything that is awaited, the reports to
  -- the router (newest first), and the end of it.
  pub data Fallback
      : List Provider → List (Act F) → List (Report F) → Result LlmResponse → Type 0 where
    settled :
        {p : Provider} {ps : List Provider} {acts : List (Act F)} {reports : List (Report F)}
        {r : Result LlmResponse}
        → Attempts delay retries p 0 acts r
        → worth_falling_back r ≡ false
        → Recorded p r reports
        → Fallback (p ∷ ps) acts reports r
    last :
        {p : Provider} {acts : List (Act F)} {reports : List (Report F)} {r : Result LlmResponse}
        → Attempts delay retries p 0 acts r
        → worth_falling_back r ≡ true
        → Recorded p r reports
        → Fallback (p ∷ []) acts reports r
    next :
        {p q : Provider} {ps : List Provider} {acts acts' : List (Act F)}
        {reports reports' : List (Report F)} {r r' : Result LlmResponse}
        → Attempts delay retries p 0 acts r
        → worth_falling_back r ≡ true
        → Recorded p r reports
        → Fallback (q ∷ ps) acts' reports' r'
        → Fallback (p ∷ q ∷ ps) (acts ++ acts') (reports' ++ reports) r'

-- Of the configured providers, those that are another object than `q`, each as often as it is configured
-- and in the configured order.
pub data Others (q : Provider) : List Provider → List Provider → Type 0 where
  none_left : Others q [] []
  itself :
      {ps rest : List Provider} (p : Provider)
      → p.identity ≡ q.identity
      → Others q ps rest
      → Others q (p ∷ ps) rest
  another :
      {ps rest : List Provider} (p : Provider)
      → p.identity ≢ q.identity
      → Others q ps rest
      → Others q (p ∷ ps) (p ∷ rest)
