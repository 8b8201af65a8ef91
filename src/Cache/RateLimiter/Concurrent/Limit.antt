-- ===== src/Cache/RateLimiter/Concurrent/Limit.antt =====
-- The limit of the minute's window holds for checks that interleave.
use nexus_ai_platform.Prelude.{
  ℕ, suc, ◌+◌, ◌*◌, ◌/◌, ◌≤◌, ◌<◌, String, Bool, true, false, not, ◌&&◌, List, [], ◌∷◌, ◌++◌, ◌≡◌,
  refl, arith, eq_iff, Bool-cases, ◌⊎◌, inl, inr, subst, ◌∙◌, ap,
}
use nexus_ai_platform.Prelude.Int.{pos, ltb_ℤ}
use nexus_ai_platform.Errors.{Result, ok, raise}
use nexus_ai_platform.Cache.Counters.{Counters}
use nexus_ai_platform.Cache.Keys.{rate_limit_minute_key, rate_limit_hour_key}
use nexus_ai_platform.Cache.RateLimiter.{RateLimiter, count_hour, and_hour}
use nexus_ai_platform.Cache.RateLimiter.Windows.{minute, is_allowed}
use nexus_ai_platform.Cache.RateLimiter.Windows.Touches.{
  Touches, touch_clock, touch_grows, touch-Outlives, Outlives,
}
use nexus_ai_platform.Cache.RateLimiter.Windows.Raises.{decided}
use nexus_ai_platform.Cache.RateLimiter.Windows.Limit.{wait_keeps_window}
use nexus_ai_platform.Cache.RateLimiter.Concurrent.{
  Asking, Running, begin, finish, is_of, one_if, Reached, opened, passes, elsewhere, asks, begins,
  ends,
}

module _ (store : Counters) (limiter : RateLimiter) where
  open store use {State, clock, value, deadline}

  module _ (user : String) (bucket : ℕ) where
    abbrev key : String
    key = rate_limit_minute_key user bucket

    -- A check that waits and may still be allowed.
    abbrev fits : Result ℕ → Bool
    fits (ok n) = not (ltb_ℤ limiter.minute_limit (pos n))
    fits (raise e) = false

    abbrev tickets : List Running → ℕ
    tickets [] = 0
    tickets (r ∷ rs) =
        one_if (fits r.minute_reply && is_of store limiter user bucket r) + tickets rs

    tickets-append :
        (before : List Running) (r : Running) (after : List Running)
        → tickets (before ++ r ∷ after)
          ≡ one_if (fits r.minute_reply && is_of store limiter user bucket r)
            + tickets (before ++ after)
    tickets-append [] r after = refl
    tickets-append (q ∷ before) r after = omega (arith, tickets-append before r after)

    allowed-fits :
        (user_id : String) (now : ℕ) (reply : Result ℕ) (s : State)
        → is_allowed (and_hour store limiter user_id now reply s).0 ≡ true
        → fits reply ≡ true
    unfolding count_hour
    allowed-fits user_id now (ok n) s h =
        let (_, _, e, _) =
          decided store limiter now n
            (store.increment (rate_limit_hour_key user_id (now / 3600)) 3600 s).0 h in
        rw e
    allowed-fits user_id now (raise e) s h = cc

    spent :
        (r : Running) (s : State)
        → one_if (is_allowed (finish store limiter r s).0 && is_of store limiter user bucket r)
          ≤ one_if (fits r.minute_reply && is_of store limiter user bucket r)
    spent r s = elim (Bool-cases (is_allowed (finish store limiter r s).0)) [
      | inl e ↦ rw (e, allowed-fits r.user_id r.now r.minute_reply s e) (omega arith)
      | inr e ↦ rw e (omega arith)
    ]

    -- The second half touches no key but the hour's.
    finish-Touches :
        (id : String) (now : ℕ) (reply : Result ℕ) (s : State)
        → let t = (and_hour store limiter id now reply s).1 in
          (value s key ≤ value t key)
          × (clock t ≡ clock s)
          × (60 * bucket ≤ clock s
              → Outlives store limiter minute user bucket s
              → Outlives store limiter minute user bucket t)
    unfolding count_hour
    finish-Touches id now (ok n) s =
        let touched : Touches store limiter minute user bucket s _ =
          Touches.once (rate_limit_hour_key id (now / 3600)) 3600 s (inl (omega arith)) in
        (
          touch_grows store limiter minute user bucket touched,
          touch_clock store limiter minute user bucket touched,
          touch-Outlives store limiter minute user bucket touched,
        )
    finish-Touches id now (raise e) s = (omega arith, refl, λ _ old. old)

    -- What holds in between: the checks that were allowed, and those that may be, are within the
    -- limit, and while the window lasts they have all been counted.
    record IsWithin (limit : ℕ) (rs : List Running) (n : ℕ) (s : State) : Type 0 where
      room : n + tickets rs ≤ limit
      late : 60 * bucket ≤ clock s
      counted : clock s < 60 * (bucket + 1) → n + tickets rs ≤ value s key
      outlives : clock s < 60 * (bucket + 1) → Outlives store limiter minute user bucket s

    of_parts :
        (r : Running)
        → is_of store limiter user bucket r ≡ true
        → (r.user_id ≡ user) × ((r.now / 60) ≡ bucket) × ((r.counted_at / 60) ≡ bucket)
    of_parts r h = ground (arith, eq_iff r.user_id user)

    ticket_fits : (n limit : ℕ) → limiter.minute_limit ≡ pos limit → fits (ok n) ≡ true → n ≤ limit
    ticket_fits n limit max h = ground (arith, max)

    -- A check that has begun has a ticket only if it has raised the window's counter within the limit.
    issued :
        (limit : ℕ) (a : Asking) (s : State)
        → limiter.minute_limit ≡ pos limit
        → let (r, t) = begin store limiter a s in
          (one_if (fits r.minute_reply && is_of store limiter user bucket r) ≡ 0)
          ⊎ ((one_if (fits r.minute_reply && is_of store limiter user bucket r) ≡ 1)
              × (clock s < 60 * (bucket + 1))
              × (value t key ≡ suc (value s key))
              × (suc (value s key) ≤ limit))
    issued limit a s max =
        replied (store.increment (rate_limit_minute_key a.user_id (a.now / 60)) 60 s).0 refl
      where
        replied :
            (reply : Result ℕ)
            → (store.increment (rate_limit_minute_key a.user_id (a.now / 60)) 60 s).0 ≡ reply
            → let r : Running = record {
              user_id = a.user_id;
              now = a.now;
              counted_at = clock s;
              minute_reply = reply;
            } in
              let t = (begin store limiter a s).1 in
              (one_if (fits reply && is_of store limiter user bucket r) ≡ 0)
              ⊎ ((one_if (fits reply && is_of store limiter user bucket r) ≡ 1)
                  × (clock s < 60 * (bucket + 1))
                  × (value t key ≡ suc (value s key))
                  × (suc (value s key) ≤ limit))
        replied (raise e) lost = inl refl
        replied (ok n) told = elim (Bool-cases (fits (ok n))) [
          | inr e ↦ inl (rw e)
          | inl e ↦
              let r : Running = record {
                user_id = a.user_id;
                now = a.now;
                counted_at = clock s;
                minute_reply = ok n;
              } in
              elim (Bool-cases (is_of store limiter user bucket r)) [
                | inr f ↦ inl (rw (e, f))
                | inl f ↦
                    let (same_user, same_bucket, in_time) = of_parts r f in
                    let (counted, raised) =
                      store.increment_returns (rate_limit_minute_key a.user_id (a.now / 60)) 60 s n
                        told in
                    let same : rate_limit_minute_key a.user_id (a.now / 60) ≡ key =
                      ap (λ u. rate_limit_minute_key u (a.now / 60)) same_user
                      ∙ ap (rate_limit_minute_key user) same_bucket in
                    let up : value (begin store limiter a s).1 key ≡ suc (value s key) =
                      subst (λ j. value (begin store limiter a s).1 j ≡ suc (value s j)) same
                        raised in
                    let top : n ≡ value (begin store limiter a s).1 key =
                      counted ∙ ap (value (begin store limiter a s).1) same in
                    let le = ticket_fits n limit max e in
                    inr (rw (e, f) refl, omega arith, up, omega arith)
              ]
        ]

    begin-IsWithin :
        (limit n : ℕ) (rs : List Running) (a : Asking) (s : State)
        → limiter.minute_limit ≡ pos limit
        → IsWithin limit rs n s
        → IsWithin limit ((begin store limiter a s).0 ∷ rs) n (begin store limiter a s).1
    begin-IsWithin limit n rs a s max h =
        let touched : Touches store limiter minute user bucket s (begin store limiter a s).1 =
          Touches.once (rate_limit_minute_key a.user_id (a.now / 60)) 60 s (inl (omega arith)) in
        let same = touch_clock store limiter minute user bucket touched in
        let up = touch_grows store limiter minute user bucket touched in
        let ticket = issued limit a s max in
        record {
          room = elim ticket [
            | inl zero ↦ omega (arith, h.room, zero)
            | inr (one, early, raised, le) ↦ omega (arith, h.counted early, one, le)
          ];
          late = omega (arith, h.late, same);
          counted = λ early. elim ticket [
            | inl zero ↦ omega (arith, h.counted (omega (arith, same)), zero, up)
            | inr (one, _, raised, le) ↦ omega (arith, h.counted (omega (arith, same)), one, raised)
          ];
          outlives = λ early.
              touch-Outlives store limiter minute user bucket touched h.late
                (h.outlives (omega (arith, same)));
        }

    finish-IsWithin :
        (limit n : ℕ) (before : List Running) (r : Running) (after : List Running) (s : State)
        → IsWithin limit (before ++ r ∷ after) n s
        → IsWithin limit
            (before ++ after)
            (n
              + one_if
                  (is_allowed (finish store limiter r s).0 && is_of store limiter user bucket r))
            (finish store limiter r s).1
    finish-IsWithin limit n before r after s h =
        let (up, same, outlive) = finish-Touches r.user_id r.now r.minute_reply s in
        let split = tickets-append before r after in
        let le = spent r s in
        record {
          room = omega (arith, h.room);
          late = omega (arith, h.late);
          counted = λ early. omega (arith, h.counted (omega arith));
          outlives = λ early. outlive h.late (h.outlives (omega arith));
        }

    Reached-IsWithin :
        (limit : ℕ) {waiting : List Asking} {rs : List Running} {n : ℕ} {s : State}
        → limiter.minute_limit ≡ pos limit
        → Reached store limiter user bucket waiting rs n s
        → IsWithin limit rs n s
    Reached-IsWithin limit max (opened late absent) = record {
      room = omega arith;
      late = late;
      counted = λ early. omega arith;
      outlives = λ early there. absurd (omega (arith, absent));
    }
    Reached-IsWithin limit max (passes {rs} {n} {s} d h) =
        let before = Reached-IsWithin limit max h in
        let later = store.wait_clock d s in
        record {
          room = before.room;
          late = omega (arith, before.late);
          counted = λ early.
              let (same, _) =
                wait_keeps_window store limiter minute user bucket d s
                  (before.outlives (omega arith)) (omega arith) in
              omega (arith, before.counted (omega arith), same);
          outlives = λ early.
              (wait_keeps_window store limiter minute user bucket d s
                (before.outlives (omega arith)) (omega arith)).1;
        }
    Reached-IsWithin limit max (elsewhere t h same counter kept) =
        let before = Reached-IsWithin limit max h in
        record {
          room = before.room;
          late = omega (arith, before.late);
          counted = λ early. omega (arith, before.counted (omega arith));
          outlives = λ early there. omega (arith, before.outlives (omega arith) (omega arith));
        }
    Reached-IsWithin limit max (asks user_id h) = Reached-IsWithin limit max h
    Reached-IsWithin limit max (begins {rs} {n} {s} earlier a later h) =
        begin-IsWithin limit n rs a s max (Reached-IsWithin limit max h)
    Reached-IsWithin limit max (ends {n} {s} before r after h) =
        finish-IsWithin limit n before r after s (Reached-IsWithin limit max h)

    -- Once a minute's window has begun, and while its counter does not exist yet: however checks of
    -- any callers interleave from then on, each waiting for as long as it may between reading the time
    -- and its first increment, and before its second one, whatever is changed elsewhere in the store, and
    -- whichever replies of it are lost: of a caller's checks that read a second of that minute, and
    -- whose first increment the store runs in that minute, at most as many are allowed as the
    -- minute's limit says.
    pub allowed-le-limit :
        (limit : ℕ) {waiting : List Asking} {rs : List Running} {n : ℕ} {s : State}
        → limiter.minute_limit ≡ pos limit
        → Reached store limiter user bucket waiting rs n s
        → n ≤ limit
    allowed-le-limit limit max h = omega (arith, (Reached-IsWithin limit max h).room)
