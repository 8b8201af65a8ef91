-- ===== src/Llm/Router/History.antt =====
-- The statistics as a summary of the requests that were recorded.
use mathlib.Core.List.{Memᴰ}
use nexus_ai_platform.Prelude.{
  subst, ℕ, suc, Bool, true, false, Option, none, some, List, [], ◌∷◌, ◌≡◌, refl, ◌+◌, All,
  Bool-cases, inl, inr, if◌then◌else◌, str_eq, eq_iff, String, arith, count, ltb,
}
use nexus_ai_platform.Errors.{Result, ok, ok-injective, ◌>>=◌}
use nexus_ai_platform.Floats.{Floats, le}
use nexus_ai_platform.Llm.Models.{Provider}
use nexus_ai_platform.Llm.Router.{
  ProviderStats, Router, provider_name, initial_stats, success_stats, failure_stats, set_stats,
  record_success, record_failure, new_router, init_stats, is_available, stats_available,
}
use nexus_ai_platform.Llm.Router.Lookup.{IsManaged, stats_at, available_at, is_available_lem}
use nexus_ai_platform.Llm.Router.Records.{
  record_success_lem, record_failure_lem, stats_at-set_stats, set_stats-IsManaged, IsFresh,
  init_stats-IsFresh,
}

-- One call of `record_success` (with the latency) or `record_failure` (with the clock's reading).
pub data Report (F : Type 0) : Type 0 where
  succeeded : Provider → F → Report F
  failed : Provider → F → Report F

module _ (fl : Floats) where
  open fl use {F, lt, of_ℕ, sub}

  unfoldable pub record_report : Router F → Report F → Result (Router F)
  record_report r (succeeded p latency) = record_success fl r p latency
  record_report r (failed p now) = record_failure fl r p now

  -- The newest report stands first.
  unfoldable pub record_all : Router F → List (Report F) → Result (Router F)
  record_all r [] = ok r
  record_all r (report ∷ earlier) = do r' ← record_all r earlier; record_report r' report

  abbrev pub success_of : String → Report F → Bool
  success_of name (succeeded p _) = str_eq (provider_name p) name
  success_of name (failed _ _) = false

  abbrev pub failure_of : String → Report F → Bool
  failure_of name (succeeded _ _) = false
  failure_of name (failed p _) = str_eq (provider_name p) name

  -- The failures of a name since its last success.
  abbrev pub failures_in_a_row : String → List (Report F) → ℕ
  failures_in_a_row name [] = 0
  failures_in_a_row name (succeeded p _ ∷ earlier) =
      let rest = failures_in_a_row name earlier in if str_eq (provider_name p) name then 0 else rest
  failures_in_a_row name (failed p _ ∷ earlier) =
      let rest = failures_in_a_row name earlier in
      if str_eq (provider_name p) name then suc rest else rest

  -- The time of the last failure, if no success has come since.
  abbrev pub open_failure : String → List (Report F) → Option F
  open_failure name [] = none
  open_failure name (succeeded p _ ∷ earlier) =
      let rest = open_failure name earlier in if str_eq (provider_name p) name then none else rest
  open_failure name (failed p now ∷ earlier) =
      let rest = open_failure name earlier in
      if str_eq (provider_name p) name then some now else rest

  pub record Summarises (name : String) (reports : List (Report F)) (s : ProviderStats F)
      : Type 0 where
    pub requests : s.requests ≡ count (success_of name) reports + count (failure_of name) reports
    pub successes : s.successes ≡ count (success_of name) reports
    pub failures : s.failures ≡ count (failure_of name) reports
    pub consecutive_failures : s.consecutive_failures ≡ failures_in_a_row name reports
    pub last_failure_at : s.last_failure_at ≡ open_failure name reports

  -- The report is about a configured provider, and its latency is not negative.
  abbrev pub IsSound : List Provider → Report F → Type 0
  IsSound ps (succeeded p latency) = Memᴰ p ps × (lt latency (of_ℕ 0) ≡ false)
  IsSound ps (failed p now) = Memᴰ p ps

  -- The router has an entry for the provider, and that entry sums the reports up.
  abbrev pub IsTracked : Router F → List (Report F) → Provider → Type 0
  IsTracked r reports p = IsManaged fl r p × Summarises (provider_name p) reports (stats_at fl r p)

  pub record Tracks (ps : List Provider) (cooldown : F) (reports : List (Report F)) (r : Router F)
      : Type 0 where
    pub providers : r.providers ≡ ps
    pub cooldown_kept : r.recovery_cooldown_seconds ≡ cooldown
    pub entries : All (IsTracked r reports) ps

  managed_of_mem :
      (P : Provider → Type 0) (p : Provider) (ps : List Provider) → Memᴰ p ps → All P ps → P p
  managed_of_mem P p [] m h = elim m [ ]
  managed_of_mem P p (q ∷ ps) (Memᴰ.head e) h = rw e h.0
  managed_of_mem P p (q ∷ ps) (Memᴰ.tail m) h = managed_of_mem P p ps m h.1

  success_summary :
      (name : String) (p : Provider) (latency : F) (reports : List (Report F)) (s : ProviderStats F)
      → str_eq (provider_name p) name ≡ true
      → Summarises name reports s
      → Summarises name (succeeded p latency ∷ reports) (success_stats fl latency s)
  success_summary name p latency reports s same h = ground arith

  failure_summary :
      (name : String) (p : Provider) (now : F) (reports : List (Report F)) (s : ProviderStats F)
      → str_eq (provider_name p) name ≡ true
      → Summarises name reports s
      → Summarises name (failed p now ∷ reports) (failure_stats fl now s)
  failure_summary name p now reports s same h = ground arith

  success_other :
      (name : String) (p : Provider) (latency : F) (reports : List (Report F)) (s : ProviderStats F)
      → str_eq (provider_name p) name ≡ false
      → Summarises name reports s
      → Summarises name (succeeded p latency ∷ reports) s
  success_other name p latency reports s differ h = ground arith

  failure_other :
      (name : String) (p : Provider) (now : F) (reports : List (Report F)) (s : ProviderStats F)
      → str_eq (provider_name p) name ≡ false
      → Summarises name reports s
      → Summarises name (failed p now ∷ reports) s
  failure_other name p now reports s differ h = ground arith

  -- One more report about `p` keeps the entry of every provider `q` a summary.
  success_tracks :
      (r : Router F) (reports : List (Report F)) (p q : Provider) (latency : F)
      → IsTracked r reports p
      → IsTracked r reports q
      → IsTracked
          (set_stats fl r p (success_stats fl latency (stats_at fl r p)))
          (succeeded p latency ∷ reports)
          q
  success_tracks r reports p q latency (mp, hp) (mq, hq) = (
    set_stats-IsManaged fl r p q _ mq,
    rw (stats_at-set_stats fl r p q (success_stats fl latency (stats_at fl r p)))
        (elim (Bool-cases (str_eq (provider_name p) (provider_name q))) [
          | inl same ↦ rw same (
              success_summary (provider_name q) p latency reports (stats_at fl r p) same
                (rw ((eq_iff (provider_name p) (provider_name q)).0 same) at hp))
          | inr differ ↦
              rw differ
                (success_other (provider_name q) p latency reports (stats_at fl r q) differ hq)
        ]),
  )

  failure_tracks :
      (r : Router F) (reports : List (Report F)) (p q : Provider) (now : F)
      → IsTracked r reports p
      → IsTracked r reports q
      → IsTracked
          (set_stats fl r p (failure_stats fl now (stats_at fl r p)))
          (failed p now ∷ reports)
          q
  failure_tracks r reports p q now (mp, hp) (mq, hq) = (
    set_stats-IsManaged fl r p q _ mq,
    rw (stats_at-set_stats fl r p q (failure_stats fl now (stats_at fl r p)))
        (elim (Bool-cases (str_eq (provider_name p) (provider_name q))) [
          | inl same ↦ rw same (
              failure_summary (provider_name q) p now reports (stats_at fl r p) same
                (rw ((eq_iff (provider_name p) (provider_name q)).0 same) at hp))
          | inr differ ↦
              rw differ (failure_other (provider_name q) p now reports (stats_at fl r q) differ hq)
        ]),
  )

  pub All-imp :
      {P Q : Provider → Type 0} (ps : List Provider)
      → ((p : Provider) → P p → Q p)
      → All P ps
      → All Q ps
  All-imp [] f h = tt
  All-imp (p ∷ ps) f h = (f p h.0, All-imp ps f h.1)

  pub record_report-Tracks :
      (ps : List Provider) (cooldown : F) (reports : List (Report F)) (r : Router F)
      (report : Report F)
      → Tracks ps cooldown reports r
      → IsSound ps report
      → (r' : Router F) × (record_report r report ≡ ok r')
        × Tracks ps cooldown (report ∷ reports) r'
  unfolding record_report
  record_report-Tracks ps cooldown reports r (succeeded p latency) t (m, e) =
      let tracked : IsTracked r reports p = managed_of_mem (IsTracked r reports) p ps m t.entries in
      (
        set_stats fl r p (success_stats fl latency (stats_at fl r p)),
        record_success_lem fl r p latency tracked.0 e,
        record {
          providers = t.providers;
          cooldown_kept = t.cooldown_kept;
          entries =
              All-imp {P = IsTracked r reports} ps
                (λ q h. success_tracks r reports p q latency tracked h) t.entries;
        },
      )
  record_report-Tracks ps cooldown reports r (failed p now) t m =
      let tracked : IsTracked r reports p = managed_of_mem (IsTracked r reports) p ps m t.entries in
      (
        set_stats fl r p (failure_stats fl now (stats_at fl r p)),
        record_failure_lem fl r p now tracked.0,
        record {
          providers = t.providers;
          cooldown_kept = t.cooldown_kept;
          entries =
              All-imp {P = IsTracked r reports} ps
                (λ q h. failure_tracks r reports p q now tracked h) t.entries;
        },
      )

  pub record_all-Tracks :
      (ps : List Provider) (cooldown : F) (r : Router F) (reports : List (Report F))
      → Tracks ps cooldown [] r
      → All (IsSound ps) reports
      → (r' : Router F) × (record_all r reports ≡ ok r') × Tracks ps cooldown reports r'
  unfolding record_all
  record_all-Tracks ps cooldown r [] t h = (r, refl, t)
  record_all-Tracks ps cooldown r (report ∷ earlier) t h =
      let (r', ran, t') = record_all-Tracks ps cooldown r earlier t h.1 in
      let (r'', reported, t'') = record_report-Tracks ps cooldown earlier r' report t' h.0 in
      (r'', rw (ran, reported), t'')

  fresh-IsTracked : (r : Router F) (p : Provider) → IsFresh fl r.stats p → IsTracked r [] p
  unfolding stats_at
  fresh-IsTracked r p e = ((initial_stats fl, e), ground arith)

  fresh-entries :
      (r : Router F) (ps : List Provider) → All (IsFresh fl r.stats) ps → All (IsTracked r []) ps
  fresh-entries r ps h = All-imp {P = IsFresh fl r.stats} ps (fresh-IsTracked r) h

  built :
      (p : Provider) (ps : List Provider) (cooldown : F)
      → Tracks (p ∷ ps) cooldown [] (record {
        providers = p ∷ ps;
        recovery_cooldown_seconds = cooldown;
        stats = init_stats fl (p ∷ ps) [];
      })
  built p ps cooldown = record {
    providers = refl;
    cooldown_kept = refl;
    entries = fresh-entries _ (p ∷ ps) (init_stats-IsFresh fl (p ∷ ps) []);
  }

  pub new_router-Tracks :
      (ps : List Provider) (cooldown : F) (r : Router F)
      → new_router fl ps cooldown ≡ ok r
      → Tracks ps cooldown [] r
  unfolding new_router
  new_router-Tracks [] cooldown r e = cc
  new_router-Tracks (p ∷ ps) cooldown r e = elim (Bool-cases (le fl cooldown (of_ℕ 0))) [
    | inl negative ↦ absurd (cc (rw negative at e))
    | inr positive ↦
        subst (λ x. Tracks (p ∷ ps) cooldown [] x) (ok-injective _ r (rw positive at e))
          (built p ps cooldown)
  ]

  -- A router that was built for some providers, and then told of any requests to them, whose
  -- latencies are not negative, has for each of them the exact summary of those requests: how
  -- many there were, how many succeeded and failed, how many failed since the last success, and
  -- when the last of these failed. No report raises.
  pub history_summary :
      (ps : List Provider) (cooldown : F) (r : Router F) (reports : List (Report F))
      → new_router fl ps cooldown ≡ ok r
      → All (IsSound ps) reports
      → (r' : Router F) × (record_all r reports ≡ ok r') × Tracks ps cooldown reports r'
  history_summary ps cooldown r reports built sound =
      record_all-Tracks ps cooldown r reports (new_router-Tracks ps cooldown r built) sound

  -- The description of availability by the reports alone.
  abbrev pub available_by : F → F → String → List (Report F) → Bool
  available_by cooldown now name reports =
      if ltb (failures_in_a_row name reports) 3
      then true
      else elim (open_failure name reports) [ none ↦ false | some t ↦ le fl cooldown (sub now t) ]

  -- In a router that has the exact summaries of some reports, a configured provider is available
  -- exactly if it has failed fewer than three times since its last success, or the cooldown has
  -- passed since its last failure.
  pub is_available-eq-history :
      (ps : List Provider) (cooldown : F) (reports : List (Report F)) (r : Router F) (now : F)
      (p : Provider)
      → Tracks ps cooldown reports r
      → Memᴰ p ps
      → is_available fl r now p ≡ ok (available_by cooldown now (provider_name p) reports)
  unfolding available_at stats_available
  is_available-eq-history ps cooldown reports r now p t m =
      let (managed, summary) = managed_of_mem (IsTracked r reports) p ps m t.entries in
      rw (is_available_lem fl r now p managed)
        (ground (arith, t.cooldown_kept, summary.consecutive_failures, summary.last_failure_at))
