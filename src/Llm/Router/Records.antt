-- ===== src/Llm/Router/Records.antt =====
-- `record_success` and `record_failure`: what they return, and that the router goes on managing
-- the providers that it managed.
use nexus_ai_platform.Prelude.{
  false, some, List, [], ◌∷◌, ◌≡◌, refl, All, Bool-cases, inl, inr, if◌then◌else◌, lookup, insert,
  lookup-insert, str_eq, eq_refl, String, arith,
}
use nexus_ai_platform.Errors.{ok}
use nexus_ai_platform.Floats.{Floats}
use nexus_ai_platform.Llm.Models.{Provider}
use nexus_ai_platform.Llm.Router.{
  ProviderStats, Router, provider_name, initial_stats, success_stats, failure_stats, set_stats,
  record_success, record_failure, init_stats,
}
use nexus_ai_platform.Llm.Router.Lookup.{IsManaged, stats_at, find_stats_lem}

module _ (fl : Floats) where
  open fl use {F, lt, of_ℕ}

  pub record_success_lem :
      (r : Router F) (p : Provider) (latency : F)
      → IsManaged fl r p
      → lt latency (of_ℕ 0) ≡ false
      → record_success fl r p latency
        ≡ ok (set_stats fl r p (success_stats fl latency (stats_at fl r p)))
  unfolding record_success
  record_success_lem r p latency h e = rw (e, find_stats_lem fl r p h)

  pub record_failure_lem :
      (r : Router F) (p : Provider) (now : F)
      → IsManaged fl r p
      → record_failure fl r p now ≡ ok (set_stats fl r p (failure_stats fl now (stats_at fl r p)))
  unfolding record_failure
  record_failure_lem r p now h = rw (find_stats_lem fl r p h)

  -- The entry for `q` after one was written for `p`.
  pub stats_at-set_stats :
      (r : Router F) (p q : Provider) (s : ProviderStats F)
      → stats_at fl (set_stats fl r p s) q
        ≡ (if str_eq (provider_name p) (provider_name q) then s else stats_at fl r q)
  unfolding stats_at
  stats_at-set_stats r p q s =
      ground (arith, lookup-insert (provider_name p) (provider_name q) s r.stats)

  pub set_stats-IsManaged :
      (r : Router F) (p q : Provider) (s : ProviderStats F)
      → IsManaged fl r q
      → IsManaged fl (set_stats fl r p s) q
  set_stats-IsManaged r p q s (t, e) =
      elim (Bool-cases (str_eq (provider_name p) (provider_name q))) [
        | inl same ↦ (s, rw (lookup-insert, same) refl)
        | inr differ ↦ (t, rw (lookup-insert, differ) e)
      ]

  pub All-set_stats :
      (r : Router F) (p : Provider) (s : ProviderStats F) (qs : List Provider)
      → All (IsManaged fl r) qs
      → All (IsManaged fl (set_stats fl r p s)) qs
  All-set_stats r p s [] h = tt
  All-set_stats r p s (q ∷ qs) h = (set_stats-IsManaged r p q s h.0, All-set_stats r p s qs h.1)

  -- An entry of the dict that `__init__` builds is fresh, and no entry is lost on the way.
  init_stats_keeps :
      (q : Provider) (ps : List Provider) (d : List (String × ProviderStats F))
      → lookup (provider_name q) d ≡ some (initial_stats fl)
      → lookup (provider_name q) (init_stats fl ps d) ≡ some (initial_stats fl)
  unfolding init_stats
  init_stats_keeps q [] d h = h
  init_stats_keeps q (p ∷ ps) d h =
      init_stats_keeps q ps (insert (provider_name p) (initial_stats fl) d)
        (ground (arith, lookup-insert (provider_name p) (provider_name q) (initial_stats fl) d))

  abbrev pub IsFresh : List (String × ProviderStats F) → Provider → Type 0
  IsFresh d p = lookup (provider_name p) d ≡ some (initial_stats fl)

  pub init_stats-IsFresh :
      (ps : List Provider) (d : List (String × ProviderStats F))
      → All (IsFresh (init_stats fl ps d)) ps
  unfolding init_stats
  init_stats-IsFresh [] d = tt
  init_stats-IsFresh (p ∷ ps) d = (
    init_stats_keeps p ps (insert (provider_name p) (initial_stats fl) d)
        (rw (lookup-insert, eq_refl) refl),
    init_stats-IsFresh ps (insert (provider_name p) (initial_stats fl) d),
  )
