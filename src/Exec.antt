-- ===== src/Exec.antt =====
-- Methods that change an object, may raise, and hold a loop on fuel. What was written before a
-- raise stays written, so the state comes back beside the exception; `none` means that the fuel
-- ran out.
use nexus_ai_platform.Prelude.{Option, none, some, ◌≡◌}
use nexus_ai_platform.Errors.{Exception, Result, ok, raise}

abbrev pub Exec {ℓ} : Type ℓ → Type ℓ → Type ℓ
Exec S A = S → Option (Result A × S)

module _ {ℓ} {S A : Type ℓ} where
  abbrev pub pure : A → Exec S A
  pure a s = some (ok a, s)

  abbrev pub throw : Exception → Exec S A
  throw e s = some (raise e, s)

  abbrev pub lift : Result A → Exec S A
  lift r s = some (r, s)

  abbrev pub gets : (S → A) → Exec S A
  gets f s = some (ok (f s), s)

  -- `try`: the exception as a value
  abbrev pub catch : Exec S A → Exec S (Result A)
  catch m s = elim (m s) [ none ↦ none | some (r, s') ↦ some (ok r, s') ]

abbrev pub modify {ℓ} : {S : Type ℓ} → (S → S) → Exec S (Unit {ℓ})
modify f s = some (ok tt, f s)

module _ {ℓ} {S A B : Type ℓ} where
  abbrev pub continue : (A → Exec S B) → Result A → S → Option (Result B × S)
  continue f (ok a) s = f a s
  continue f (raise e) s = some (raise e, s)

  infixl 10 ◌>>=◌ ◌>>◌
  abbrev pub ◌>>=◌ : Exec S A → (A → Exec S B) → Exec S B
  ◌>>=◌ m f s = elim (m s) [ none ↦ none | some (r, s') ↦ continue f r s' ]

  abbrev pub ◌>>◌ : Exec S A → Exec S B → Exec S B
  m >> n = m >>= λ _. n

  pub bind-ok :
      (m : Exec S A) (f : A → Exec S B) (s : S) {a : A} {s' : S}
      → m s ≡ some (ok a, s')
      → (m >>= f) s ≡ f a s'
  bind-ok m f s e = rw (e, ◌>>=◌)

  pub bind-raise :
      (m : Exec S A) (f : A → Exec S B) (s : S) {e : Exception} {s' : S}
      → m s ≡ some (raise e, s')
      → (m >>= f) s ≡ some (raise e, s')
  bind-raise m f s h = rw (h, ◌>>=◌)
