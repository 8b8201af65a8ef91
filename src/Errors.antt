-- ===== src/Errors.antt =====
-- llm/errors.py, and the other exceptions that the modelled code raises or catches.
-- A call that may raise returns a `Result`.
use nexus_ai_platform.Prelude.{ℕ, String, Bool, true, false, ◌≡◌, refl, ap, ◌⊎◌, inl, inr, Dict}

-- The classes of llm/errors.py: `base` is `LLMProviderError` itself, the others its subclasses.
pub data LlmErrorKind : Type 0 where
  base timeout rate_limit authentication unavailable response : LlmErrorKind

-- `other` is any exception that no `except` clause of the program names.
pub data Exception : Type 0 where
  llm_error : LlmErrorKind → String → Exception
  builtin_timeout : Exception
  value_error runtime_error type_error key_error index_error attribute_error : String → Exception
  httpx_timeout : Exception
  httpx_request_error : String → Exception
  http_exception : ℕ → String → Dict String → Exception
  other : String → Exception

pub data Result {ℓ} (A : Type ℓ) : Type ℓ where
  ok : A → Result A
  raise : Exception → Result A

infixl 5 ◌>>=◌ ◌>>◌
abbrev pub ◌>>=◌ {ℓ κ} : {A : Type ℓ} {B : Type κ} → Result A → (A → Result B) → Result B
ok a >>= f = f a
raise e >>= f = raise e

abbrev pub ◌>>◌ {ℓ κ} : {A : Type ℓ} {B : Type κ} → Result A → Result B → Result B
m >> k = m >>= λ _. k

-- `if test: raise e`
abbrev pub raise_if : Bool → Exception → Result (Unit {0})
raise_if true e = raise e
raise_if false e = ok tt

pub ok-injective {ℓ} : {A : Type ℓ} (a b : A) → ok a ≡ ok b → a ≡ b
ok-injective a b p = ap (λ r. elim r [ ok x ↦ x | raise e ↦ a ]) p

-- A check that was passed, and what came after it.
pub raise_if-eq-ok {ℓ} :
    {A : Type ℓ} (b : Bool) (e : Exception) (m : Result A) {a : A}
    → (raise_if b e >> m) ≡ ok a
    → (b ≡ false) × (m ≡ ok a)
raise_if-eq-ok true e m h = cc
raise_if-eq-ok false e m h = (refl, h)

pub Result-cases {ℓ} :
    {A : Type ℓ} (r : Result A) → ((a : A) × (r ≡ ok a)) ⊎ ((e : Exception) × (r ≡ raise e))
Result-cases (ok a) = inl (a, refl)
Result-cases (raise e) = inr (e, refl)

-- What came before a chain that returned.
pub bind-inv {ℓ κ} :
    {A : Type ℓ} {B : Type κ} (r : Result A) (f : A → Result B) (b : B)
    → (r >>= f) ≡ ok b
    → (a : A) × (r ≡ ok a) × (f a ≡ ok b)
bind-inv (ok a) f b e = (a, refl, e)
bind-inv (raise x) f b e = cc
