-- ===== src/Llm/Factory/Chain.antt =====
-- The chain of providers is the one that the settings name, in their order, and it is built exactly
-- if every name is known and has its key.
use nexus_ai_platform.Prelude.{
  String, true, false, not, select, Bool-cases, inl, inr, Option, List, [], ◌∷◌, map, All, ◌≡◌, ◌≢◌,
  refl, ap, sym, ◌∙◌,
}
use nexus_ai_platform.Errors.{ok, ok-injective, bind-inv}
use nexus_ai_platform.Text.{is_blank, strip, split_at}
use nexus_ai_platform.Floats.{Floats}
use nexus_ai_platform.Codec.{Codec}
use nexus_ai_platform.Settings.{Settings}
use nexus_ai_platform.Llm.Http.{HttpClientPool}
use nexus_ai_platform.Llm.Factory.{
  Built, built_name, provider_names, build_provider, build_all, build_llm_providers, build_named,
}
use nexus_ai_platform.Llm.Factory.Configured.{IsConfigured, build_provider-inv, build_provider_lem}

-- The names that stand in a list of pieces: of each piece that is not blank, in the order of the pieces,
-- the text between its white space, in lower case.
pub data Names (codec : Codec) : List String → List String → Type 0 where
  none_left : Names codec [] []
  blank :
      {pieces names : List String} (piece : String)
      → is_blank piece ≡ true
      → Names codec pieces names
      → Names codec (piece ∷ pieces) names
  listed :
      {pieces names : List String} (piece : String)
      → is_blank piece ≡ false
      → Names codec pieces names
      → Names codec (piece ∷ pieces) (codec.lower (strip piece) ∷ names)

module _ (codec : Codec) where
  abbrev spelled : List String → List String
  spelled pieces = map (λ n. codec.lower (strip n)) (select (λ n. not (is_blank n)) pieces)

  spelled-Names : (pieces : List String) → Names codec pieces (spelled pieces)
  spelled-Names [] = Names.none_left
  spelled-Names (piece ∷ pieces) = elim (Bool-cases (is_blank piece)) [
    | inl e ↦ rw e (Names.blank piece e (spelled-Names pieces))
    | inr e ↦ rw e (Names.listed piece e (spelled-Names pieces))
  ]

  Names-eq : {pieces names : List String} → Names codec pieces names → spelled pieces ≡ names
  Names-eq Names.none_left = refl
  Names-eq (Names.blank piece e h) = rw e (Names-eq h)
  Names-eq (Names.listed piece e h) = rw e (ap (λ ns. codec.lower (strip piece) ∷ ns) (Names-eq h))

  -- The pieces of the setting, at its commas.
  abbrev pub pieces_of : {F : Type 0} → Settings F → List String
  pieces_of settings = split_at b',' settings.llm_provider

  pub provider_names-Names :
      {F : Type 0} (settings : Settings F)
      → Names codec (pieces_of settings) (provider_names codec settings)
  unfolding provider_names
  provider_names-Names settings = spelled-Names (pieces_of settings)

  pub Names-provider_names :
      {F : Type 0} (settings : Settings F) {names : List String}
      → Names codec (pieces_of settings) names
      → provider_names codec settings ≡ names
  unfolding provider_names
  Names-provider_names settings h = Names-eq h

module _ (fl : Floats) (settings : Settings fl.F) (pool : Option HttpClientPool) where
  open fl use {F}

  build_all-inv :
      (names : List String) (ps : List (Built F))
      → build_all fl settings pool names ≡ ok ps
      → All (IsConfigured settings) names × (map built_name ps ≡ names)
  unfolding build_all
  build_all-inv [] ps e = (tt, ap (map built_name) (sym (ok-injective [] ps e)))
  build_all-inv (name ∷ names) ps e =
      let (p, built, e1) = bind-inv (build_provider fl settings pool name) _ ps e in
      let (rest, built_rest, e2) = bind-inv (build_all fl settings pool names) _ ps e1 in
      let (first, is_first) = build_provider-inv fl settings pool name p built in
      let (others, are_others) = build_all-inv names rest built_rest in
      (
        (first, others),
        ap (map built_name) (sym (ok-injective (p ∷ rest) ps e2))
            ∙ ap (λ n. n ∷ map built_name rest) is_first
            ∙ ap (λ ns. name ∷ ns) are_others,
      )

  build_all_lem :
      (names : List String)
      → All (IsConfigured settings) names
      → (ps : List (Built F)) × (build_all fl settings pool names ≡ ok ps)
  unfolding build_all
  build_all_lem [] h = ([], refl)
  build_all_lem (name ∷ names) h =
      let (p, built) = build_provider_lem fl settings pool name h.0 in
      let (ps, built_all) = build_all_lem names h.1 in (p ∷ ps, rw (built, built_all) refl)

  pub build_llm_providers-inv :
      (codec : Codec) (ps : List (Built F))
      → build_llm_providers fl settings pool codec ≡ ok ps
      → (map built_name ps ≡ provider_names codec settings)
        × (provider_names codec settings ≢ [])
        × All (IsConfigured settings) (provider_names codec settings)
  unfolding build_llm_providers
  build_llm_providers-inv codec ps = named (provider_names codec settings)
    where
      named :
          (names : List String)
          → build_named fl settings pool names ≡ ok ps
          → (map built_name ps ≡ names) × (names ≢ []) × All (IsConfigured settings) names
      named [] e = absurd (cc e)
      named (name ∷ names) e =
          let (configured, same) = build_all-inv (name ∷ names) ps e in
          (same, λ none. cc, configured)

  -- The names of the chain that is built are what stands between the commas of the setting, in its order,
  -- stripped of white space and in lower case, without what is blank; there is at least one; and each is
  -- the fake provider's, or one whose API key is there and not blank.
  pub build_llm_providers-names :
      (codec : Codec) (ps : List (Built F))
      → build_llm_providers fl settings pool codec ≡ ok ps
      → Names codec (pieces_of codec settings) (map built_name ps)
        × (map built_name ps ≢ [])
        × All (IsConfigured settings) (map built_name ps)
  build_llm_providers-names codec ps e =
      let (same, named, configured) = build_llm_providers-inv codec ps e in
      rw same (provider_names-Names codec settings, named, configured)

  -- If the settings name at least one provider, each known and with an API key that is not blank
  -- where it needs one, then the chain is built.
  pub build_llm_providers_succeeds :
      (codec : Codec)
      → provider_names codec settings ≢ []
      → All (IsConfigured settings) (provider_names codec settings)
      → (ps : List (Built F)) × (build_llm_providers fl settings pool codec ≡ ok ps)
        × (map built_name ps ≡ provider_names codec settings)
  unfolding build_llm_providers
  build_llm_providers_succeeds codec = named (provider_names codec settings)
    where
      named :
          (names : List String)
          → names ≢ []
          → All (IsConfigured settings) names
          → (ps : List (Built F)) × (build_named fl settings pool names ≡ ok ps)
            × (map built_name ps ≡ names)
      named [] some_name h = absurd (some_name refl)
      named (name ∷ names) some_name h =
          let (ps, built) = build_all_lem (name ∷ names) h in
          (ps, built, (build_all-inv (name ∷ names) ps built).1)
