-- ===== src/Llm/Router/Select.antt =====
-- `select_provider`: which provider it returns, against a description of the best one that does
-- not follow the code.
use mathlib.Core.List.{Memᴰ}
use nexus_ai_platform.Prelude.{
  Bool, true, false, Option, none, some, List, [], ◌∷◌, ◌++◌, map, ◌≡◌, ◌≢◌, refl, arith, All,
  select, ap, Bool-cases, inl, inr, ◌⊎◌, if◌then◌else◌, ◌==◌, ==_iff,
}
use nexus_ai_platform.Errors.{Result, ok}
use nexus_ai_platform.Floats.{Floats}
use nexus_ai_platform.Llm.Models.{Provider}
use nexus_ai_platform.Llm.Router.{
  Router, provider_name, first_unobserved, best_of, best_score, provider_by_name, or_all,
  select_best, select_provider,
}
use nexus_ai_platform.Llm.Router.Lookup.{
  IsManaged, stats_at, available_at, score_at, scored, find_stats_lem, score_all_lem,
  score_available_lem, provider_by_name_lem,
}

module _ (fl : Floats) where
  open fl use {F, lt, lt_irrefl, lt_asymm, ge_trans}

  abbrev pub IsUnobserved : Router F → Provider → Type 0
  IsUnobserved r p = (stats_at fl r p).requests ≡ 0

  abbrev pub IsObserved : Router F → Provider → Type 0
  IsObserved r p = (stats_at fl r p).requests ≢ 0

  -- No provider of the list has a score below that of `q`.
  abbrev pub HasLeastScore : Router F → Provider → List Provider → Type 0
  HasLeastScore r q ps = All (λ p. lt (score_at fl r p) (score_at fl r q) ≡ false) ps

  -- The provider to try: the first one without a request; else one of least score among those
  -- that are available; else, none being available, one of least score.
  pub data IsBest (r : Router F) (now : F) (q : Provider) : Type 0 where
    unobserved :
        (before after : List Provider)
        → r.providers ≡ before ++ q ∷ after
        → All (IsObserved r) before
        → IsUnobserved r q
        → IsBest r now q
    available :
        All (IsObserved r) r.providers
        → Memᴰ q r.providers
        → available_at fl r now q ≡ true
        → HasLeastScore r q (select (available_at fl r now) r.providers)
        → IsBest r now q
    none_available :
        All (IsObserved r) r.providers
        → Memᴰ q r.providers
        → All (λ p. available_at fl r now p ≡ false) r.providers
        → HasLeastScore r q r.providers
        → IsBest r now q

  -- The first loop stops at the first provider without a request.
  abbrev FirstUnobserved : Router F → List Provider → Option Provider → Type 0
  FirstUnobserved r ps none = All (IsObserved r) ps
  FirstUnobserved r ps (some q) =
      (before : List Provider) × (after : List Provider) × (ps ≡ before ++ q ∷ after)
      × All (IsObserved r) before
      × IsUnobserved r q

  extend :
      (r : Router F) (p : Provider) (ps : List Provider) (o : Option Provider)
      → IsObserved r p
      → FirstUnobserved r ps o
      → FirstUnobserved r (p ∷ ps) o
  extend r p ps none seen h = (seen, h)
  extend r p ps (some q) seen (before, after, e, observed, fresh) =
      (p ∷ before, after, ap (λ l. p ∷ l) e, (seen, observed), fresh)

  first_unobserved_lem :
      (r : Router F) (ps : List Provider)
      → All (IsManaged fl r) ps
      → (o : Option Provider) × (first_unobserved fl r ps ≡ ok o) × FirstUnobserved r ps o
  unfolding first_unobserved
  first_unobserved_lem r [] h = (none, refl, tt)
  first_unobserved_lem r (p ∷ ps) h = elim (Bool-cases ((stats_at fl r p).requests == 0)) [
    | inl e ↦ (some p, rw (find_stats_lem fl r p h.0, e), ([], ps, refl, tt, (==_iff _ _).0 e))
    | inr e ↦
        let (o, found, first) = first_unobserved_lem r ps h.1 in
        (
          o,
          rw (find_stats_lem fl r p h.0, e) found,
          extend r p ps o (λ z. ground (arith, z, e)) first,
        )
  ]

  mem_second : (q p p' : Provider) (ps : List Provider) → Memᴰ q (p ∷ ps) → Memᴰ q (p ∷ p' ∷ ps)
  mem_second q p p' ps (Memᴰ.head e) = Memᴰ.head e
  mem_second q p p' ps (Memᴰ.tail m) = Memᴰ.tail (Memᴰ.tail m)

  -- `min` over the scores of a list of providers.
  best_of_lem :
      (r : Router F) (now : F) (p : Provider) (ps : List Provider)
      → (q : Provider) × (best_of fl (scored fl r now p) (map (scored fl r now) ps)
          ≡ scored fl r now q)
        × Memᴰ q (p ∷ ps)
        × HasLeastScore r q (p ∷ ps)
  unfolding best_of scored
  best_of_lem r now p [] = (p, refl, Memᴰ.head refl, (lt_irrefl _, tt))
  best_of_lem r now p (p' ∷ ps) = elim (Bool-cases (lt (score_at fl r p') (score_at fl r p))) [
    | inl e ↦
        let (q, found, m, h) = best_of_lem r now p' ps in
        (q, rw (e, best_of) found, Memᴰ.tail m, (ge_trans _ _ _ (lt_asymm _ _ e) h.0, h))
    | inr e ↦
        let (q, found, m, h) = best_of_lem r now p ps in
        (q, rw (e, best_of) found, mem_second q p p' ps m, (h.0, (ge_trans _ _ _ e h.0, h.1)))
  ]

  mem-select :
      (test : Provider → Bool) (q : Provider) (ps : List Provider)
      → Memᴰ q (select test ps)
      → Memᴰ q ps × (test q ≡ true)
  mem-select test q [] m = elim m [ ]
  mem-select test q (p ∷ ps) m = pick (test p) refl m (mem-select test q ps)
    where
      pick :
          (b : Bool)
          → test p ≡ b
          → Memᴰ q (if b then p ∷ select test ps else select test ps)
          → (Memᴰ q (select test ps) → Memᴰ q ps × (test q ≡ true))
          → Memᴰ q (p ∷ ps) × (test q ≡ true)
      pick true e (Memᴰ.head same) ih = (Memᴰ.head same, rw same e)
      pick true e (Memᴰ.tail m') ih = (Memᴰ.tail (ih m').0, (ih m').1)
      pick false e m' ih = (Memᴰ.tail (ih m').0, (ih m').1)

  select-nil :
      (test : Provider → Bool) (ps : List Provider)
      → select test ps ≡ []
      → All (λ p. test p ≡ false) ps
  select-nil test [] e = tt
  select-nil test (p ∷ ps) e = elim (Bool-cases (test p)) [
    | inl t ↦ absurd (cc (rw t at e))
    | inr f ↦ (f, select-nil test ps (rw f at e))
  ]

  -- The statistics, and so the score and the availability, go by the provider's name.
  same_stats :
      (r : Router F) (p q : Provider)
      → provider_name p ≡ provider_name q
      → stats_at fl r p ≡ stats_at fl r q
  unfolding stats_at
  same_stats r p q e = rw (e, stats_at)

  same_score :
      (r : Router F) (p q : Provider)
      → provider_name p ≡ provider_name q
      → score_at fl r p ≡ score_at fl r q
  unfolding score_at
  same_score r p q e = rw (same_stats r p q e)

  same_available :
      (r : Router F) (now : F) (p q : Provider)
      → provider_name p ≡ provider_name q
      → available_at fl r now p ≡ available_at fl r now q
  unfolding available_at
  same_available r now p q e = rw (same_stats r p q e)

  -- The last step of `select_best`: from the score of `q` back to a provider.
  return_named :
      (r : Router F) (now : F) (q : Provider)
      → Memᴰ q r.providers
      → (p : Provider) × Memᴰ p r.providers
        × (provider_by_name r.providers (scored fl r now q).provider_name ≡ ok p)
        × (provider_name p ≡ provider_name q)
  unfolding scored
  return_named r now q m = provider_by_name_lem q r.providers m

  best_score_lem :
      (r : Router F) (now : F) (ps : List Provider)
      → ps ≢ []
      → (q : Provider) × (best_score fl (map (scored fl r now) ps) ≡ ok (scored fl r now q))
        × Memᴰ q ps
        × HasLeastScore r q ps
  unfolding best_score
  best_score_lem r now [] h = absurd (h refl)
  best_score_lem r now (p ∷ ps) h =
      let (q, found, m, least) = best_of_lem r now p ps in (q, rw found, m, least)

  List-cases : (ps : List Provider) → (ps ≡ []) ⊎ (ps ≢ [])
  List-cases [] = inl refl
  List-cases (p ∷ ps) = inr (λ e. cc)

  or_all_some :
      (r : Router F) (now : F) (ps : List Provider)
      → ps ≢ []
      → or_all fl r now (map (scored fl r now) ps) ≡ ok (map (scored fl r now) ps)
  unfolding or_all
  or_all_some r now [] h = absurd (h refl)
  or_all_some r now (p ∷ ps) h = refl

  select_best-IsBest :
      (r : Router F) (now : F)
      → r.providers ≢ []
      → All (IsManaged fl r) r.providers
      → All (IsObserved r) r.providers
      → (q : Provider) × (select_best fl r now ≡ ok q) × IsBest r now q
  unfolding select_best
  select_best-IsBest r now some_provider managed observed =
      elim (List-cases (select (available_at fl r now) r.providers)) [
        | inl e ↦
            let (q, found, m, least) = best_score_lem r now r.providers some_provider in
            let (p, m', named, same) = return_named r now q m in
            (
              p,
              rw (score_available_lem fl r now r.providers managed, e)
                  (unfold or_all in rw (score_all_lem fl r now r.providers managed, found) named),
              none_available observed m' (select-nil (available_at fl r now) r.providers e)
                  (rw (same_score r p q same) least),
            )
        | inr h ↦
            let (q, found, m, least) =
              best_score_lem r now (select (available_at fl r now) r.providers) h in
            let (member, up) = mem-select (available_at fl r now) q r.providers m in
            let (p, m', named, same) = return_named r now q member in
            (
              p,
              rw (score_available_lem fl r now r.providers managed, or_all_some r now _ h, found)
                  named,
              available observed m' (rw (same_available r now p q same) up)
                  (rw (same_score r p q same) least),
            )
      ]

  -- A router that manages at least one provider selects one, without raising: the first provider
  -- that has had no request yet; if all have had one, a provider of least score among those that
  -- are available; and if none is available, a provider of least score among all.
  pub select_provider-IsBest :
      (r : Router F) (now : F)
      → r.providers ≢ []
      → All (IsManaged fl r) r.providers
      → (q : Provider) × (select_provider fl r now ≡ ok q) × IsBest r now q
  unfolding select_provider
  select_provider-IsBest r now some_provider managed =
      let (o, found, first) = first_unobserved_lem r r.providers managed in
      rw found (finish o first)
    where
      finish :
          (o : Option Provider)
          → FirstUnobserved r r.providers o
          → (q : Provider) × (elim o as (λ x. Result Provider) [
            | some p ↦ ok p
            | none ↦ select_best fl r now
          ]
              ≡ ok q)
            × IsBest r now q
      finish none observed = select_best-IsBest r now some_provider managed observed
      finish (some q) (before, after, e, observed, fresh) =
          (q, refl, unobserved before after e observed fresh)
