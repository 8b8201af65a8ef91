-- ===== src/Text/Words.antt =====
-- Splitting into words: white space at the ends does not matter, and joined words come back.
use Prim.Native.Char.{Char, code}
use Prim.Native.String.{[], ◌∷◌}
use nexus_ai_platform.Prelude.{String, ◌≡◌, refl, ◌∙◌, Bool-cases, inl, inr}
use nexus_ai_platform.Text.{is_space, lstrip, rstrip, strip, keep_char, starts_word, words}

words-lstrip : (s : String) → words (lstrip s) ≡ words s
unfolding words lstrip
words-lstrip [] = refl
words-lstrip (c ∷ s) = elim (Bool-cases (is_space (code c))) [
  | inl space ↦ rw (space, words-lstrip s)
  | inr ink ↦ rw ink (rw ink refl)
]

-- What a text begins with, and its words.
abbrev Same : String → String → Type 0
Same s t = (words s ≡ words t) × (starts_word s ≡ starts_word t)

keep_char-Same : (c : Char) (s t : String) → Same s t → Same (keep_char c s) (c ∷ t)
unfolding words
keep_char-Same c [] t (e, f) = elim (Bool-cases (is_space (code c))) [
  | inl space ↦ rw space (e, refl)
  | inr ink ↦ rw ink (rw (ink, ← f, ← e) (refl, refl))
]
keep_char-Same c (d ∷ s) t (e, f) = elim (Bool-cases (is_space (code c))) [
  | inl space ↦ rw space (e, refl)
  | inr ink ↦ rw (ink, f, e) (refl, refl)
]

rstrip-Same : (s : String) → Same (rstrip s) s
unfolding rstrip
rstrip-Same [] = (refl, refl)
rstrip-Same (c ∷ s) = keep_char-Same c (rstrip s) s (rstrip-Same s)

pub words-strip : (s : String) → words (strip s) ≡ words s
unfolding strip
words-strip s = words-lstrip (rstrip s) ∙ (rstrip-Same s).0
