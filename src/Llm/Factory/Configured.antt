-- ===== src/Llm/Factory/Configured.antt =====
-- Which single provider is built for a name.
use nexus_ai_platform.Prelude.{
  String, true, false, Option, none, some, ◌≡◌, refl, ap, sym, ◌∙◌, inl, inr, Bool-cases, str_eq,
  eq_iff,
}
use nexus_ai_platform.Errors.{ok, ok-injective, raise_if-eq-ok, bind-inv}
use nexus_ai_platform.Floats.{Floats}
use nexus_ai_platform.Text.{is_blank}
use nexus_ai_platform.Settings.{Settings}
use nexus_ai_platform.Llm.Http.{HttpClientPool}
use nexus_ai_platform.Llm.Providers.Chat.{ChatProvider, new_chat_provider}
use nexus_ai_platform.Llm.Providers.Mistral.{new_mistral_provider}
use nexus_ai_platform.Llm.Providers.Groq.{new_groq_provider}
use nexus_ai_platform.Llm.Providers.Gemini.{new_gemini_provider}
use nexus_ai_platform.Llm.Factory.{
  Built, mistral, groq, gemini, fake, built_name, required_key, build_mistral, build_groq,
  build_gemini, build_provider,
}

abbrev mistral_missing : String
mistral_missing = "Mistral provider selected but MISTRAL_API_KEY is not configured"

abbrev groq_missing : String
groq_missing = "Groq provider selected but GROQ_API_KEY is not configured"

abbrev gemini_missing : String
gemini_missing = "Gemini provider selected but GEMINI_API_KEY is not configured"

-- There is a key, and it is not blank.
abbrev pub HasKey : Option String → Type 0
HasKey o = (key : String) × (o ≡ some key) × (is_blank key ≡ false)

-- The name is that of a provider that the settings have a key for, or of the fake one.
pub data IsConfigured {F : Type 0} (settings : Settings F) (name : String) : Type 0 where
  as_mistral : name ≡ "mistral" → HasKey settings.mistral_api_key → IsConfigured settings name
  as_groq : name ≡ "groq" → HasKey settings.groq_api_key → IsConfigured settings name
  as_gemini : name ≡ "gemini" → HasKey settings.gemini_api_key → IsConfigured settings name
  as_fake : name ≡ "fake" → IsConfigured settings name

required_key-inv :
    (o : Option String) (message key : String) → required_key o message ≡ ok key → o ≡ some key
unfolding required_key
required_key-inv none message key e = cc
required_key-inv (some k) message key e = elim (Bool-cases (str_eq k "")) [
  | inl empty ↦ absurd (cc (rw empty at e))
  | inr given ↦ ap some (ok-injective k key (rw given at e))
]

-- A key that is not blank is not empty.
required_key_lem :
    (key message : String) → is_blank key ≡ false → required_key (some key) message ≡ ok key
unfolding required_key is_blank
required_key_lem key message ink = elim (Bool-cases (str_eq key "")) [
  | inl empty ↦
      let blank : is_blank key ≡ true = ap is_blank ((eq_iff key "").0 empty) in
      absurd (cc (ink, blank))
  | inr given ↦ rw given
]

module _ (fl : Floats) (settings : Settings fl.F) (pool : Option HttpClientPool) where
  open fl use {F}

  new_chat_provider-inv :
      (brand url key model : String) (timeout : F) (p : ChatProvider F)
      → new_chat_provider fl brand url key model timeout pool ≡ ok p
      → is_blank key ≡ false
  unfolding new_chat_provider
  new_chat_provider-inv brand url key model timeout p e = (raise_if-eq-ok (is_blank key) _ _ e).0

  new_chat_provider_lem :
      (brand url key model : String)
      → is_blank key ≡ false
      → (p : ChatProvider F) × (new_chat_provider fl brand url key model (fl.of_ℕ 30) pool ≡ ok p)
  unfolding new_chat_provider
  new_chat_provider_lem brand url key model ink = (
    record {
      brand = brand;
      base_url = url;
      api_key = key;
      model = model;
      timeout_seconds = fl.of_ℕ 30;
      http_client = pool;
    },
    rw (ink, fl.of_ℕ_pos 29) refl,
  )

  build_mistral-inv :
      (p : Built F)
      → build_mistral fl settings pool ≡ ok p
      → HasKey settings.mistral_api_key × (built_name p ≡ "mistral")
  unfolding build_mistral new_mistral_provider built_name
  build_mistral-inv p e =
      let (key, given, e1) = bind-inv (required_key settings.mistral_api_key _) _ p e in
      let (c, made, e2) =
        bind-inv (new_mistral_provider fl key settings.mistral_model (fl.of_ℕ 30) pool) _ p e1 in
      (
        (
          key,
          required_key-inv settings.mistral_api_key _ key given,
          new_chat_provider-inv _ _ key _ _ c made,
        ),
        ap built_name (sym (ok-injective (mistral c) p e2)),
      )

  build_groq-inv :
      (p : Built F)
      → build_groq fl settings pool ≡ ok p
      → HasKey settings.groq_api_key × (built_name p ≡ "groq")
  unfolding build_groq new_groq_provider built_name
  build_groq-inv p e =
      let (key, given, e1) = bind-inv (required_key settings.groq_api_key _) _ p e in
      let (c, made, e2) =
        bind-inv (new_groq_provider fl key settings.groq_model (fl.of_ℕ 30) pool) _ p e1 in
      (
        (
          key,
          required_key-inv settings.groq_api_key _ key given,
          new_chat_provider-inv _ _ key _ _ c made,
        ),
        ap built_name (sym (ok-injective (groq c) p e2)),
      )

  build_gemini-inv :
      (p : Built F)
      → build_gemini fl settings pool ≡ ok p
      → HasKey settings.gemini_api_key × (built_name p ≡ "gemini")
  unfolding build_gemini new_gemini_provider built_name
  build_gemini-inv p e =
      let (key, given, e1) = bind-inv (required_key settings.gemini_api_key _) _ p e in
      let (c, made, e2) = bind-inv (new_gemini_provider key settings.gemini_model pool) _ p e1 in
      (
        (
          key,
          required_key-inv settings.gemini_api_key _ key given,
          (raise_if-eq-ok (is_blank key) _ _ made).0,
        ),
        ap built_name (sym (ok-injective (gemini c) p e2)),
      )

  -- What was built for a name has that name, and the name is configured.
  pub build_provider-inv :
      (name : String) (p : Built F)
      → build_provider fl settings pool name ≡ ok p
      → IsConfigured settings name × (built_name p ≡ name)
  unfolding build_provider built_name
  build_provider-inv name p e = elim (Bool-cases (str_eq name "mistral")) [
    | inl is ↦
        let q = (eq_iff name "mistral").0 is in
        let (key, n) = build_mistral-inv p (rw is at e) in (as_mistral q key, n ∙ sym q)
    | inr not_mistral ↦ elim (Bool-cases (str_eq name "groq")) [
      | inl is ↦
          let q = (eq_iff name "groq").0 is in
          let (key, n) = build_groq-inv p (rw (not_mistral, is) at e) in (as_groq q key, n ∙ sym q)
      | inr not_groq ↦ elim (Bool-cases (str_eq name "gemini")) [
        | inl is ↦
            let q = (eq_iff name "gemini").0 is in
            let (key, n) = build_gemini-inv p (rw (not_mistral, not_groq, is) at e) in
            (as_gemini q key, n ∙ sym q)
        | inr not_gemini ↦ elim (Bool-cases (str_eq name "fake")) [
          | inl is ↦
              let q = (eq_iff name "fake").0 is in
              let made = ok-injective _ p (rw (not_mistral, not_groq, not_gemini, is) at e) in
              (as_fake q, faked p made ∙ sym q)
          | inr unknown ↦ absurd (cc (rw (not_mistral, not_groq, not_gemini, unknown) at e))
        ]
      ]
    ]
  ]
    where
      faked :
          (b : Built F)
          → fake (record { model = "fake-model"; name = "fake"; calls = 0 }) ≡ b
          → built_name b ≡ "fake"
      faked b e = sym (ap built_name e)

  pub build_provider_lem :
      (name : String)
      → IsConfigured settings name
      → (p : Built F) × (build_provider fl settings pool name ≡ ok p)
  unfolding build_provider build_mistral build_groq build_gemini new_mistral_provider
      new_groq_provider new_gemini_provider new_chat_provider_lem
  build_provider_lem name (as_mistral q (key, given, ink)) =
      let (c, made) =
        new_chat_provider_lem "Mistral" "https://api.mistral.ai/v1/chat/completions" key
          settings.mistral_model ink in
      (mistral c, rw (q, given, required_key_lem key mistral_missing ink, made) refl)
  build_provider_lem name (as_groq q (key, given, ink)) =
      let (c, made) =
        new_chat_provider_lem "Groq" "https://api.groq.com/openai/v1/chat/completions" key
          settings.groq_model ink in
      (groq c, rw (q, given, required_key_lem key groq_missing ink, made) refl)
  build_provider_lem name (as_gemini q (key, given, ink)) = (
    gemini (record { api_key = key; model = settings.gemini_model; http_client = pool }),
    rw (q, given, required_key_lem key gemini_missing ink, ink) refl,
  )
  build_provider_lem name (as_fake q) =
      (fake (record { model = "fake-model"; name = "fake"; calls = 0 }), rw q refl)
