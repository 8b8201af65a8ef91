-- ===== src/Llm/Http/Lifecycle.antt =====
-- What has become of a pool after any sequence of starts and closes.
use nexus_ai_platform.Prelude.{
  Bool, true, false, List, [], ◌∷◌, ◌≡◌, ◌↔◌, refl, sym, subst, Bool-cases, inl, inr,
}
use nexus_ai_platform.Prelude.Int.{ℤ, pos, leb_ℤ, ltb_ℤ}
use nexus_ai_platform.Errors.{ok, raise_if-eq-ok, ok-injective}
use nexus_ai_platform.Floats.{Floats, le}
use nexus_ai_platform.Llm.Http.{HttpClientPool, new_pool, client, start, close}

pub data Step : Type 0 where
  starts closes : Step

-- The newest step stands first.
abbrev pub run : List Step → HttpClientPool → HttpClientPool
run [] pool = pool
run (starts ∷ steps) pool = start (run steps pool)
run (closes ∷ steps) pool = close (run steps pool)

abbrev pub ends_with_start : List Step → Bool
ends_with_start [] = false
ends_with_start (starts ∷ steps) = true
ends_with_start (closes ∷ steps) = false

abbrev pub has_close : List Step → Bool
has_close [] = false
has_close (starts ∷ steps) = has_close steps
has_close (closes ∷ steps) = true

started : (pool : HttpClientPool) → (start pool ≡ record pool { started = true })
unfolding start
started pool = elim (Bool-cases pool.started) [ inl e ↦ rw e refl | inr e ↦ rw e refl ]

closed : (pool : HttpClientPool) → (close pool ≡ record { client_closed = true; started = false })
unfolding close
closed pool = elim (Bool-cases pool.started) [ inl e ↦ rw e refl | inr e ↦ rw e refl ]

-- A pool was closed if it ever was, and hands out its client exactly after a start.
pub data IsPool (steps : List Step) : HttpClientPool → Type 0 where
  is_pool :
      IsPool steps (record { client_closed = has_close steps; started = ends_with_start steps })

run-IsPool :
    (steps : List Step)
    → IsPool steps (run steps (record { client_closed = false; started = false }))
run-IsPool [] = is_pool
run-IsPool (starts ∷ steps) =
    subst (IsPool (starts ∷ steps)) (sym (started _)) (restarted (run-IsPool steps))
  where
    restarted :
        {pool : HttpClientPool}
        → IsPool steps pool
        → IsPool (starts ∷ steps) (record pool { started = true })
    restarted is_pool = is_pool
run-IsPool (closes ∷ steps) = subst (IsPool (closes ∷ steps)) (sym (closed _)) is_pool

client_iff : (pool : HttpClientPool) → (client pool ≡ ok tt) ↔ (pool.started ≡ true)
unfolding client
client_iff pool = elim (Bool-cases pool.started) [
  | inl e ↦ (λ _. e, λ _. rw e refl)
  | inr e ↦ (λ h. absurd (cc (rw e at h)), λ h. absurd (cc (e, h)))
]

module _ (fl : Floats) where
  open fl use {F, of_ℕ}

  new_pool-inv :
      (timeout : F) (connections keepalive : ℤ) (pool : HttpClientPool)
      → new_pool fl timeout connections keepalive ≡ ok pool
      → pool ≡ record { client_closed = false; started = false }
  unfolding new_pool
  new_pool-inv timeout connections keepalive pool e =
      let (_, e1) = raise_if-eq-ok (le fl timeout (of_ℕ 0)) _ _ e in
      let (_, e2) = raise_if-eq-ok (leb_ℤ connections (pos 0)) _ _ e1 in
      let (_, e3) = raise_if-eq-ok (leb_ℤ keepalive (pos 0)) _ _ e2 in
      let (_, e4) = raise_if-eq-ok (ltb_ℤ connections keepalive) _ _ e3 in
      sym (ok-injective _ pool e4)

  -- After any starts and closes of a new pool: it hands its client out exactly if the last of them
  -- was a start, and that client is a closed one exactly if there ever was a close, also if the pool
  -- was started again since.
  pub pool_history :
      (timeout : F) (connections keepalive : ℤ) (pool : HttpClientPool) (steps : List Step)
      → new_pool fl timeout connections keepalive ≡ ok pool
      → ((client (run steps pool) ≡ ok tt) ↔ (ends_with_start steps ≡ true))
        × ((run steps pool).client_closed ≡ has_close steps)
  pool_history timeout connections keepalive pool steps e = told (
      subst (λ q. IsPool steps (run steps q))
        (sym (new_pool-inv timeout connections keepalive pool e)) (run-IsPool steps))
    where
      told :
          {p : HttpClientPool}
          → IsPool steps p
          → ((client p ≡ ok tt) ↔ (ends_with_start steps ≡ true))
            × (p.client_closed ≡ has_close steps)
      told is_pool = (
        client_iff (record { client_closed = has_close steps; started = ends_with_start steps }),
        refl,
      )
