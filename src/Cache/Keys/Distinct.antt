-- ===== src/Cache/Keys/Distinct.antt =====
-- The keys of the two windows of the rate limiter are different, for whichever callers and
-- whichever windows: they differ in what stands before the last colon.
use Prim.Native.Char.{code}
use Prim.Native.String.{[], ◌∷◌, ◌++◌ as ◌<>◌}
use Prim.Native.String.append.{nil as append_nil, cons as append_cons}
use nexus_ai_platform.Prelude.{
  ℕ, zero, suc, ◌/◌, ◌%◌, String, false, ◌≡◌, refl, ap, sym, ◌∙◌, arith, ltb, ◌==◌, str_eq, eq_iff,
  if◌then◌else◌, if_elim, Bool-cases, inl, inr,
}
use nexus_ai_platform.Cache.Keys.{
  digit, decimal, str, prefix, rate_limit_minute_key, rate_limit_hour_key,
}

-- The last character read, and the one before the last colon.
pub record Read : Type 0 where
  pub last : ℕ
  pub before : ℕ

abbrev step : ℕ → Read → Read
step c r =
    if c == b':'
    then record { last = c; before = r.last }
    else record { last = c; before = r.before }

unfoldable pub scan : Read → String → Read
scan r [] = r
scan r (c ∷ s) = scan (step (code c) r) s

scan-append : (r : Read) (s t : String) → scan r (s <> t) ≡ scan (scan r s) t
unfolding scan
scan-append r [] t = ap (scan r) (λ i. append_nil t i)
scan-append r (c ∷ s) t = ap (scan r) (λ i. append_cons c s t i) ∙ scan-append (step (code c) r) s t

scan-digit : (r : Read) (d : ℕ) → (scan r (digit d)).before ≡ r.before
unfolding scan digit
scan-digit r d =
    let tests : (n : ℕ) (s t : String) → P s → P t → P (if d == n then s else t) =
      λ n s t h k. if_elim P (d == n) h (λ _. k) in
    tests 0 _ _ refl (
      tests 1 _ _ refl (
        tests 2 _ _ refl (
          tests 3 _ _ refl (
            tests 4 _ _ refl
              (tests 5 _ _ refl (tests 6 _ _ refl (tests 7 _ _ refl (tests 8 _ _ refl refl))))))))
  where
    P : String → Type 0
    P s = (scan r s).before ≡ r.before

-- There is no colon in a number.
scan-decimal : (r : Read) (fuel n : ℕ) → (scan r (decimal fuel n)).before ≡ r.before
unfolding decimal
scan-decimal r zero n = scan-digit r n
scan-decimal r (suc fuel) n = elim (Bool-cases (ltb n 10)) [
  | inl small ↦ rw small (scan-digit r n)
  | inr large ↦ rw large (
      ap (λ (x : Read). x.before) (scan-append r (decimal fuel (n / 10)) (digit (n % 10)))
      ∙ scan-digit (scan r (decimal fuel (n / 10))) (n % 10)
      ∙ scan-decimal r fuel (n / 10))
]

-- What a key with the word `kind` before its number has before its last colon.
scan-key :
    (r : Read) (user_id kind : String) (n : ℕ)
    → (scan r (user_id <> kind <> str n)).before ≡ (scan (scan r user_id) kind).before
unfolding str
scan-key r user_id kind n =
    ap (λ (x : Read). x.before)
      (scan-append r user_id (kind <> decimal n n)
        ∙ scan-append (scan r user_id) kind (decimal n n))
    ∙ scan-decimal (scan (scan r user_id) kind) n n

pub none_read : Read
none_read = record { last = 0; before = 0 }

pub minute_word : (r : Read) → (scan r ":minute:").before ≡ b'e'
unfolding scan
minute_word r = refl

pub hour_word : (r : Read) → (scan r ":hour:").before ≡ b'r'
unfolding scan
hour_word r = refl

pub scan-rate_limit :
    (user_id kind : String) (n : ℕ) (c : ℕ)
    → ((r : Read) → (scan r kind).before ≡ c)
    → (scan none_read (prefix <> ":rate_limit:" <> user_id <> kind <> str n)).before ≡ c
scan-rate_limit user_id kind n c word =
    ap (λ (x : Read). x.before)
      (scan-append none_read prefix (":rate_limit:" <> user_id <> kind <> str n)
        ∙ scan-append (scan none_read prefix) ":rate_limit:" (user_id <> kind <> str n))
    ∙ scan-key _ user_id kind n
    ∙ word _

other_letters : ◌≡◌ {A = ℕ} b'r' b'e' → ⊥
other_letters e = omega arith

-- No key of an hour is a key of a minute.
pub hour-minute :
    (user_id user_id' : String) (bucket bucket' : ℕ)
    → str_eq (rate_limit_hour_key user_id bucket) (rate_limit_minute_key user_id' bucket') ≡ false
unfolding rate_limit_hour_key rate_limit_minute_key
hour-minute user_id user_id' bucket bucket' =
    elim (Bool-cases
      (str_eq (rate_limit_hour_key user_id bucket) (rate_limit_minute_key user_id' bucket'))) [
        | inr differ ↦ differ
        | inl e ↦
            let same =
              (eq_iff (rate_limit_hour_key user_id bucket)
                  (rate_limit_minute_key user_id' bucket')).0
                e in
            let letters : b'r' ≡ b'e' =
              sym (scan-rate_limit user_id ":hour:" bucket b'r' hour_word)
              ∙ ap (λ key. (scan none_read key).before) same
              ∙ scan-rate_limit user_id' ":minute:" bucket' b'e' minute_word in
            absurd (other_letters letters)
      ]
