-- ===== src/Floats.antt =====
-- Python's floats. The operations are the interpreter's, on finite values; the laws are those of
-- the order that IEEE 754 gives such values.
use nexus_ai_platform.Prelude.{ℕ, suc, Bool, true, false, not, ◌≡◌, if◌then◌else◌}

pub record Floats : Type 1 where
  pub F : Type 0
  pub of_ℕ : ℕ → F
  pub add : F → F → F
  pub sub : F → F → F
  pub mul : F → F → F
  pub div : F → F → F
  pub lt : F → F → Bool
  pub lt_irrefl : (a : F) → lt a a ≡ false
  pub lt_asymm : (a b : F) → lt a b ≡ true → lt b a ≡ false
  -- `b ≤ a` and `c ≤ b` give `c ≤ a`
  pub ge_trans : (a b c : F) → lt a b ≡ false → lt b c ≡ false → lt a c ≡ false
  pub of_ℕ_pos : (n : ℕ) → lt (of_ℕ 0) (of_ℕ (suc n)) ≡ true
  -- a difference of ordered values has no negative sign
  pub sub_nonneg : (a b : F) → lt b a ≡ false → lt (sub b a) (of_ℕ 0) ≡ false

module _ (fl : Floats) where
  open fl use {F, lt}

  -- `a <= b`
  abbrev pub le : F → F → Bool
  le a b = not (lt b a)

  -- `min(a, b)` keeps its first argument unless the second is smaller.
  unfoldable pub smaller : F → F → F
  smaller a b = if lt b a then b else a
