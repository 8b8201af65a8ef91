-- ===== src/Llm/Gateway/Shares.antt =====
-- What of the policy's calls and pauses falls to one provider.
use mathlib.Core.List.{Memᴰ}
use nexus_ai_platform.Prelude.{
  ℕ, ◌+◌, ◌*◌, ◌≤◌, Bool, true, false, List, [], ◌∷◌, ◌++◌, ◌≡◌, refl, subst, ◌==◌, ==_iff, arith,
  count, count-append, append-nil, Bool-cases, inl, inr, if◌then◌else◌,
}
use nexus_ai_platform.Errors.{Result}
use nexus_ai_platform.Llm.Models.{LlmResponse, Provider}
use nexus_ai_platform.Llm.Gateway.State.{Act, called, slept}
use nexus_ai_platform.Llm.Gateway.Policy.{
  Attempts, final, exhausted, again, Fallback, settled, last, next,
}
use nexus_ai_platform.Llm.Gateway.{others}

-- Is it this object?
abbrev pub is_same : Provider → Provider → Bool
is_same p x = x.identity == p.identity

module _ {F : Type 0} (p : Provider) where
  abbrev pub is_call_of : Act F → Bool
  is_call_of (called x _) = is_same p x
  is_call_of (slept _) = false

  -- The pauses whose last call before them was one of `p`; `mine` says whether the last call was.
  abbrev pub pauses_after : Bool → List (Act F) → ℕ
  pauses_after mine [] = 0
  pauses_after mine (called x _ ∷ acts) = pauses_after (is_same p x) acts
  pauses_after mine (slept _ ∷ acts) = (if mine then 1 else 0) + pauses_after mine acts

  module _ (delay : ℕ → F) (n : ℕ) where
    calls_mine :
        (x : Provider) {k : ℕ} {acts : List (Act F)} {r : Result LlmResponse}
        → is_same p x ≡ true
        → Attempts delay n x k acts r
        → k ≤ n
        → count is_call_of acts + k ≤ n + 1
    calls_mine x e (final o h) le = rw e (omega arith)
    calls_mine x e (exhausted o h spent) le = rw e (omega arith)
    calls_mine x e (again o h more rest) le =
        rw e (omega (arith, calls_mine x e rest (omega arith)))

    calls_others :
        (x : Provider) {k : ℕ} {acts : List (Act F)} {r : Result LlmResponse}
        → is_same p x ≡ false
        → Attempts delay n x k acts r
        → count is_call_of acts ≡ 0
    calls_others x e (final o h) = rw e refl
    calls_others x e (exhausted o h spent) = rw e refl
    calls_others x e (again o h more rest) = rw e (omega (arith, calls_others x e rest))

    -- One provider's attempts.
    calls_share :
        (x : Provider) {acts : List (Act F)} {r : Result LlmResponse}
        → Attempts delay n x 0 acts r
        → count is_call_of acts ≤ (if is_same p x then 1 else 0) * (n + 1)
    calls_share x a = elim (Bool-cases (is_same p x)) [
      | inl e ↦ rw e (omega (arith, calls_mine x e a (omega arith)))
      | inr e ↦ rw e (omega (arith, calls_others x e a))
    ]

    plus_times : (a b c d m : ℕ) → a ≤ b * m → c ≤ d * m → a + c ≤ (b + d) * m
    plus_times a b c d m h k = grind arith

    pub Fallback-calls :
        {ps : List Provider} {acts : List (Act F)} {reports : _} {r : Result LlmResponse}
        → Fallback delay n ps acts reports r
        → count is_call_of acts ≤ count (is_same p) ps * (n + 1)
    Fallback-calls (settled {p = x} {ps} {acts} a _ _) = omega (
      arith,
      plus_times (count is_call_of acts) (if is_same p x then 1 else 0) 0 (count (is_same p) ps)
          (n + 1) (calls_share x a) (omega arith),
    )
    Fallback-calls (last {p = x} {acts} a _ _) = omega (
      arith,
      plus_times (count is_call_of acts) (if is_same p x then 1 else 0) 0 0 (n + 1)
          (calls_share x a) (omega arith),
    )
    Fallback-calls (next {p = x} {acts} {acts'} a _ _ rest) = omega (
      arith,
      count-append is_call_of acts acts',
      plus_times (count is_call_of acts) (if is_same p x then 1 else 0) (count is_call_of acts') _
          (n + 1) (calls_share x a) (Fallback-calls rest),
    )

    pauses_mine :
        (x : Provider) {k : ℕ} {acts : List (Act F)} {r : Result LlmResponse} (mine : Bool)
        (later : List (Act F))
        → is_same p x ≡ true
        → Attempts delay n x k acts r
        → k ≤ n
        → pauses_after mine (acts ++ later) + k ≤ n + pauses_after true later
    pauses_mine x mine later e (final o h) le = rw (e, pauses_after) (omega arith)
    pauses_mine x mine later e (exhausted o h spent) le = rw (e, pauses_after) (omega arith)
    pauses_mine x mine later e (again o h more rest) le =
        rw (e, pauses_after) (omega (arith, pauses_mine x true later e rest (omega arith)))

    pauses_others :
        (x : Provider) {k : ℕ} {acts : List (Act F)} {r : Result LlmResponse} (mine : Bool)
        (later : List (Act F))
        → is_same p x ≡ false
        → Attempts delay n x k acts r
        → pauses_after mine (acts ++ later) ≡ pauses_after false later
    pauses_others x mine later e (final o h) = rw (e, pauses_after) refl
    pauses_others x mine later e (exhausted o h spent) = rw (e, pauses_after) refl
    pauses_others x mine later e (again o h more rest) =
        rw (e, pauses_after) (omega (arith, pauses_others x false later e rest))

    pauses_share :
        (x : Provider) {acts : List (Act F)} {r : Result LlmResponse} (mine : Bool)
        (later : List (Act F)) (m : ℕ)
        → Attempts delay n x 0 acts r
        → ((before : Bool) → pauses_after before later ≤ m)
        → pauses_after mine (acts ++ later) ≤ (if is_same p x then 1 else 0) * n + m
    pauses_share x mine later m a h = elim (Bool-cases (is_same p x)) [
      | inl e ↦ rw e (omega (arith, pauses_mine x mine later e a (omega arith), h true))
      | inr e ↦ rw e (omega (arith, pauses_others x mine later e a, h false))
    ]

    pub Fallback-pauses :
        {ps : List Provider} {acts : List (Act F)} {reports : _} {r : Result LlmResponse}
        (mine : Bool)
        → Fallback delay n ps acts reports r
        → pauses_after mine acts ≤ count (is_same p) ps * n
    Fallback-pauses mine (settled {p = x} {ps} {acts} a _ _) =
        let alone = pauses_share x mine [] 0 a (λ b. omega arith) in
        subst
          (λ l. pauses_after mine l ≤ ((if is_same p x then 1 else 0) + count (is_same p) ps) * n)
          (append-nil acts)
          (omega (
            arith,
            plus_times (pauses_after mine (acts ++ [])) (if is_same p x then 1 else 0) 0
                (count (is_same p) ps) n (omega (arith, alone)) (omega arith),
          ))
    Fallback-pauses mine (last {p = x} {acts} a _ _) =
        subst (λ l. pauses_after mine l ≤ ((if is_same p x then 1 else 0) + 0) * n)
          (append-nil acts) (omega (arith, pauses_share x mine [] 0 a (λ b. omega arith)))
    Fallback-pauses mine (next {p = x} {acts} {acts'} a _ _ rest) =
        grind (arith, pauses_share x mine acts' _ a (λ b. Fallback-pauses b rest))

module _ (p : Provider) where
  -- The order of a request has each provider at most as often as it is configured.
  others_none :
      (q : Provider) (ps : List Provider) → is_same p q ≡ true → count (is_same p) (others q ps) ≡ 0
  unfolding others
  others_none q [] e = refl
  others_none q (x ∷ ps) e = elim (Bool-cases (x.identity == q.identity)) [
    | inl same ↦ rw same (others_none q ps e)
    | inr differ ↦
        let also : is_same p x ≡ false =
          subst (λ i. (x.identity == i) ≡ false) ((==_iff q.identity p.identity).0 e) differ in
        rw (differ, also) (omega (arith, others_none q ps e))
  ]

  others_few :
      (q : Provider) (ps : List Provider) → count (is_same p) (others q ps) ≤ count (is_same p) ps
  unfolding others
  others_few q [] = omega arith
  others_few q (x ∷ ps) = elim (Bool-cases (x.identity == q.identity)) [
    | inl same ↦ rw same (omega (arith, others_few q ps))
    | inr differ ↦ rw differ (omega (arith, others_few q ps))
  ]

  mem_counts :
      (q : Provider) (ps : List Provider)
      → is_same p q ≡ true
      → Memᴰ q ps
      → 1 ≤ count (is_same p) ps
  mem_counts q [] e m = elim m [ ]
  mem_counts q (x ∷ ps) e (Memᴰ.head same) = rw (← same, e) (omega arith)
  mem_counts q (x ∷ ps) e (Memᴰ.tail m) = omega (arith, mem_counts q ps e m)

  pub order-count :
      (q : Provider) (ps : List Provider)
      → Memᴰ q ps
      → count (is_same p) (q ∷ others q ps) ≤ count (is_same p) ps
  order-count q ps m = elim (Bool-cases (is_same p q)) [
    | inl e ↦ rw e (omega (arith, others_none q ps e, mem_counts q ps e m))
    | inr e ↦ rw e (omega (arith, others_few q ps))
  ]
