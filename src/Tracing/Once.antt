-- ===== src/Tracing/Once.antt =====
-- Tracing is configured once for the process.
use nexus_ai_platform.Prelude.{
  String, List, [], ◌∷◌, ◌≡◌, refl, Bool-cases, inl, inr, if◌then◌else◌,
}
use nexus_ai_platform.Settings.{Settings}
use nexus_ai_platform.Tracing.{
  Tracer, TracerProvider, proxy, sdk, foreign, tracer_of, configure_tracing,
}

module _ {F : Type 0} where
  -- Every call of `configure_tracing`, the first one first.
  abbrev pub configure_all : List (Settings F) → TracerProvider → TracerProvider
  configure_all [] p = p
  configure_all (settings ∷ later) p = configure_all later (configure_tracing settings p)

  -- The provider of the first settings that enable tracing, if there are any.
  abbrev pub first_enabled : List (Settings F) → TracerProvider
  first_enabled [] = proxy
  first_enabled (settings ∷ later) =
      if settings.otel_enabled then sdk (tracer_of settings) else first_enabled later

  kept : (later : List (Settings F)) (t : Tracer) → configure_all later (sdk t) ≡ sdk t
  unfolding configure_tracing
  kept [] t = refl
  kept (settings ∷ later) t = elim (Bool-cases settings.otel_enabled) [
    | inl e ↦ rw e (kept later t)
    | inr e ↦ rw e (kept later t)
  ]

  foreign_kept :
      (later : List (Settings F)) (name : String)
      → configure_all later (foreign name) ≡ foreign name
  unfolding configure_tracing
  foreign_kept [] name = refl
  foreign_kept (settings ∷ later) name = elim (Bool-cases settings.otel_enabled) [
    | inl e ↦ rw e (foreign_kept later name)
    | inr e ↦ rw e (foreign_kept later name)
  ]

  first_kept : (calls : List (Settings F)) → configure_all calls proxy ≡ first_enabled calls
  unfolding configure_tracing tracer_of
  first_kept [] = refl
  first_kept (settings ∷ later) = elim (Bool-cases settings.otel_enabled) [
    | inl e ↦ rw e (kept later (tracer_of settings))
    | inr e ↦ rw e (first_kept later)
  ]

  -- However often tracing is configured, and with whichever settings: a process that had no provider
  -- gets the one of the first settings that enable tracing and keeps it, and none if no settings do;
  -- and a provider that something else has set stays.
  pub configure_all-first :
      (calls : List (Settings F)) (name : String)
      → (configure_all calls proxy ≡ first_enabled calls)
        × (configure_all calls (foreign name) ≡ foreign name)
  configure_all-first calls name = (first_kept calls, foreign_kept calls name)
