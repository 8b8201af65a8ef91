-- ===== src/Llm/Service/Valid.antt =====
-- Which requests the one-provider gateway passes on.
use nexus_ai_platform.Prelude.{
  ℕ, ◌≤◌, Bool, false, ◌||◌, ◌≡◌, ◌≢◌, inl, inr, refl, arith, ltb, str_eq,
}
use nexus_ai_platform.Prelude.Int.{pos, leb_ℤ}
use nexus_ai_platform.Errors.{
  Exception, builtin_timeout, other, Result, ok, raise, raise_if-eq-ok, Result-cases,
}
use nexus_ai_platform.Floats.{Floats}
use nexus_ai_platform.Text.{strip, text_length}
use nexus_ai_platform.Llm.Models.{LlmRequest, LlmResponse}
use nexus_ai_platform.Llm.Gateway.{World}
use nexus_ai_platform.Llm.Service.{Service, validate_request, translate, generate}

module _ (fl : Floats) where
  open fl use {F, lt, of_ℕ}

  -- The prompt has some ink and at most 32000 characters between its ends, and the other two
  -- fields are in range.
  pub record IsValid (request : LlmRequest F) : Type 0 where
    pub inked : str_eq (strip request.prompt) "" ≡ false
    pub short : text_length (strip request.prompt) ≤ 32000
    pub tokens : leb_ℤ request.max_tokens (pos 0) ≡ false
    pub not_cold : lt request.temperature (of_ℕ 0) ≡ false
    pub not_hot : lt (of_ℕ 2) request.temperature ≡ false

  short_iff : (n : ℕ) → ltb 32000 n ≡ false → n ≤ 32000
  short_iff n h = ground arith

  long_iff : (n : ℕ) → n ≤ 32000 → ltb 32000 n ≡ false
  long_iff n h = ground arith

  neither : (a b : Bool) → (a || b) ≡ false → (a ≡ false) × (b ≡ false)
  neither a b h = ground arith

  validate_request-IsValid :
      (request : LlmRequest F) → validate_request fl request ≡ ok tt → IsValid request
  unfolding validate_request
  validate_request-IsValid request e =
      let (a, e1) = raise_if-eq-ok (str_eq (strip request.prompt) "") _ _ e in
      let (b, e2) = raise_if-eq-ok (ltb 32000 (text_length (strip request.prompt))) _ _ e1 in
      let (c, e3) = raise_if-eq-ok (leb_ℤ request.max_tokens (pos 0)) _ _ e2 in
      let (d, _) =
        raise_if-eq-ok (lt request.temperature (of_ℕ 0) || lt (of_ℕ 2) request.temperature) _ _
          e3 in
      let (cold, hot) = neither _ _ d in
      record { inked = a; short = short_iff _ b; tokens = c; not_cold = cold; not_hot = hot }

  IsValid-validate_request :
      (request : LlmRequest F) → IsValid request → validate_request fl request ≡ ok tt
  unfolding validate_request
  IsValid-validate_request request v =
      rw (v.inked, long_iff _ v.short, v.tokens, v.not_cold, v.not_hot) refl

  -- What the caller is told of an outcome: the builtin timeout becomes this gateway's own exception, and
  -- everything else is told as it is.
  pub data IsTold : Result LlmResponse → Result LlmResponse → Type 0 where
    timed_out : IsTold (raise builtin_timeout) (raise (other "LLMProviderTimeoutError"))
    as_it_is :
        (outcome : Result LlmResponse) → outcome ≢ raise builtin_timeout → IsTold outcome outcome

  translate-IsTold : (outcome : Result LlmResponse) → IsTold outcome (translate fl outcome)
  unfolding translate
  translate-IsTold (raise builtin_timeout) = timed_out
  translate-IsTold (ok response) = as_it_is (ok response) (λ e. cc)
  translate-IsTold (raise x) = as_it_is (raise x) (λ e. cc)

  -- How a request ends: refused, and the provider is not called; or passed on once, and its outcome
  -- is told, with the builtin timeout as the gateway's own.
  pub data IsHandled (world : World fl) (g : Service F) (request : LlmRequest F) (w : world.State)
      : Result LlmResponse × world.State → Type 0 where
    refused : (e : Exception) → (IsValid request → ⊥) → IsHandled world g request w (raise e, w)
    called :
        (told : Result LlmResponse)
        → IsValid request
        → IsTold (world.wait_for g.timeout_seconds g.provider request w).0 told
        → IsHandled world g request w
            (told, (world.wait_for g.timeout_seconds g.provider request w).1)

  -- The gateway over one provider calls it exactly if the request is valid, and then once, and tells
  -- its outcome, with the builtin timeout as the gateway's own; a request that is not valid raises
  -- and calls nothing.
  pub generate-IsHandled :
      (world : World fl) (g : Service F) (request : LlmRequest F) (w : world.State)
      → IsHandled world g request w (generate fl world g request w)
  unfolding generate
  generate-IsHandled world g request w = elim (Result-cases (validate_request fl request)) [
    | inl (_, e) ↦ rw e (called _ (validate_request-IsValid request e) (translate-IsTold _))
    | inr (x, e) ↦ rw e (refused x (λ v. cc (IsValid-validate_request request v)))
  ]
