-- ===== src/Llm/Router/Lookup.antt =====
-- What the router's lookups return when it manages all its providers.
use mathlib.Core.List.{Memᴰ}
use nexus_ai_platform.Prelude.{
  Bool, none, some, List, [], ◌∷◌, map, ◌≡◌, refl, All, select, ap, sym, str_eq, eq_iff, eq_refl,
  Bool-cases, inl, inr, lookup,
}
use nexus_ai_platform.Errors.{ok}
use nexus_ai_platform.Floats.{Floats}
use nexus_ai_platform.Llm.Models.{Provider}
use nexus_ai_platform.Llm.Router.{
  ProviderStats, ProviderScore, Router, provider_name, initial_stats, find_stats, stats_available,
  stats_score, average_latency_seconds, success_rate, is_available, score_provider, score_available,
  score_all, provider_by_name,
}

module _ (fl : Floats) where
  open fl use {F}

  -- The statistics have an entry for the provider.
  abbrev pub IsManaged : Router F → Provider → Type 0
  IsManaged r p = (s : ProviderStats F) × (lookup (provider_name p) r.stats ≡ some s)

  -- The entry for a provider, as a total function.
  unfoldable pub stats_at : Router F → Provider → ProviderStats F
  stats_at r p = elim (lookup (provider_name p) r.stats) [ none ↦ initial_stats fl | some s ↦ s ]

  unfoldable pub available_at : Router F → F → Provider → Bool
  available_at r now p = stats_available fl r.recovery_cooldown_seconds now (stats_at r p)

  unfoldable pub score_at : Router F → Provider → F
  score_at r p = stats_score fl (stats_at r p)

  -- What `score_provider` returns.
  unfoldable pub scored : Router F → F → Provider → ProviderScore F
  scored r now p = record {
    provider_name = provider_name p;
    score = score_at r p;
    average_latency_seconds = average_latency_seconds fl (stats_at r p);
    success_rate = success_rate fl (stats_at r p);
    healthy = available_at r now p;
  }

  pub find_stats_lem :
      (r : Router F) (p : Provider) → IsManaged r p → find_stats fl r p ≡ ok (stats_at r p)
  unfolding find_stats stats_at
  find_stats_lem r p (s, e) = rw (e, find_stats, stats_at)

  pub is_available_lem :
      (r : Router F) (now : F) (p : Provider)
      → IsManaged r p
      → is_available fl r now p ≡ ok (available_at r now p)
  unfolding is_available available_at
  is_available_lem r now p h = rw (find_stats_lem r p h)

  pub score_provider_lem :
      (r : Router F) (now : F) (p : Provider)
      → IsManaged r p
      → score_provider fl r now p ≡ ok (scored r now p)
  unfolding score_provider score_at scored
  score_provider_lem r now p h = rw (find_stats_lem r p h, is_available_lem r now p h)

  pub score_all_lem :
      (r : Router F) (now : F) (ps : List Provider)
      → All (IsManaged r) ps
      → score_all fl r now ps ≡ ok (map (scored r now) ps)
  unfolding score_all
  score_all_lem r now [] h = refl
  score_all_lem r now (p ∷ ps) h = rw (score_provider_lem r now p h.0, score_all_lem r now ps h.1)

  pub score_available_lem :
      (r : Router F) (now : F) (ps : List Provider)
      → All (IsManaged r) ps
      → score_available fl r now ps ≡ ok (map (scored r now) (select (available_at r now) ps))
  unfolding score_available
  score_available_lem r now [] h = refl
  score_available_lem r now (p ∷ ps) h =
      rw
        (
          is_available_lem r now p h.0,
          score_available_lem r now ps h.1,
          score_provider_lem r now p h.0,
        )
        (elim (Bool-cases (available_at r now p)) [ inl e ↦ rw e | inr e ↦ rw e ])

-- A provider with a listed name is found under it.
pub provider_by_name_lem :
    (q : Provider) (ps : List Provider)
    → Memᴰ q ps
    → (p : Provider) × Memᴰ p ps
      × (provider_by_name ps (provider_name q) ≡ ok p)
      × (provider_name p ≡ provider_name q)
unfolding provider_by_name
provider_by_name_lem q [] m = elim m [ ]
provider_by_name_lem q (p ∷ ps) (Memᴰ.head e) =
    (p, Memᴰ.head refl, rw (e, eq_refl) refl, ap provider_name (sym e))
provider_by_name_lem q (p ∷ ps) (Memᴰ.tail m) =
    elim (Bool-cases (str_eq (provider_name p) (provider_name q))) [
      | inl e ↦ (p, Memᴰ.head refl, rw e, (eq_iff (provider_name p) (provider_name q)).0 e)
      | inr e ↦
          let (p', m', found, same) = provider_by_name_lem q ps m in
          (p', Memᴰ.tail m', rw e found, same)
    ]
