-- ===== src/Cache/Keys/Kinds.antt =====
-- The kinds of keys share no key: no service reads or writes what another one keeps.
use Prim.Native.Char.{code}
use Prim.Native.String.{[], ◌∷◌, ◌++◌ as ◌<>◌}
use Prim.Native.String.append.{nil as append_nil, cons as append_cons}
use mathlib.Core.Option.{some-injective}
use nexus_ai_platform.Prelude.{
  ℕ, zero, suc, String, false, Option, none, some, ◌≡◌, refl, ap, sym, ◌∙◌, ◌==◌, arith, str_eq,
  eq_iff, Bool-cases, inl, inr, if◌then◌else◌,
}
use nexus_ai_platform.Cache.Keys.{
  prefix, str, document_key, semantic_cache_key, rate_limit_minute_key, rate_limit_hour_key,
  session_memory_key,
}
use nexus_ai_platform.Cache.Keys.Distinct.{scan, none_read, scan-rate_limit, minute_word, hour_word}

-- What a key is made for.
pub data Purpose : Type 0 where
  document answer session : String → Purpose
  minute hour : String → ℕ → Purpose

pub data Kind : Type 0 where
  documents answers sessions minutes hours : Kind

abbrev pub kind : Purpose → Kind
kind (document hash) = documents
kind (answer hash) = answers
kind (session id) = sessions
kind (minute user bucket) = minutes
kind (hour user bucket) = hours

abbrev pub key : Purpose → String
key (document hash) = document_key hash
key (answer hash) = semantic_cache_key hash
key (session id) = session_memory_key id
key (minute user bucket) = rate_limit_minute_key user bucket
key (hour user bucket) = rate_limit_hour_key user bucket

-- The character at an index, 0 past the end.
unfoldable code_at : ℕ → String → ℕ
code_at n [] = 0
code_at zero (c ∷ s) = code c
code_at (suc n) (c ∷ s) = code_at n s

append_assoc : (s t u : String) → (s <> t) <> u ≡ s <> t <> u
append_assoc [] t u = ap (λ x. x <> u) (λ i. append_nil t i) ∙ sym (λ i. append_nil (t <> u) i)
append_assoc (c ∷ s) t u =
    ap (λ x. x <> u) (λ i. append_cons c s t i)
    ∙ (λ i. append_cons c (s <> t) u i)
    ∙ ap (λ x. c ∷ x) (append_assoc s t u)
    ∙ sym (λ i. append_cons c s (t <> u) i)

code_at-append : (n : ℕ) (s t : String) → (code_at n s ≡ 0 → ⊥) → code_at n (s <> t) ≡ code_at n s
unfolding code_at
code_at-append n [] t h = absurd (h refl)
code_at-append zero (c ∷ s) t h = ap (code_at zero) (λ i. append_cons c s t i)
code_at-append (suc n) (c ∷ s) t h =
    ap (code_at (suc n)) (λ i. append_cons c s t i) ∙ code_at-append n s t h

-- The third letter of the word after the prefix.
letter :
    (word rest : String) (c : ℕ)
    → code_at 11 (prefix <> word) ≡ suc c
    → code_at 11 (prefix <> word <> rest) ≡ suc c
letter word rest c e =
    ap (code_at 11) (sym (append_assoc prefix word rest))
    ∙ code_at-append 11 (prefix <> word) rest (λ zero_there. omega (arith, zero_there, e))
    ∙ e

-- The kind of a key, as it is read off the key.
abbrev kind_of_window : ℕ → Kind
kind_of_window c = if c == b'e' then minutes else hours

abbrev kind_of_letters : ℕ → ℕ → Kind
kind_of_letters c d =
    if c == b'g'
    then documents
    else if c == b'm'
    then answers
    else if c == b'n'
    then sessions
    else kind_of_window d

abbrev kind_of : String → Kind
kind_of s = kind_of_letters (code_at 11 s) (scan none_read s).before

kind_of-key : (p : Purpose) → kind_of (key p) ≡ kind p
unfolding code_at document_key semantic_cache_key session_memory_key rate_limit_minute_key
    rate_limit_hour_key
kind_of-key (document hash) = rw (letter ":rag:doc:" hash 102 refl) refl
kind_of-key (answer hash) = rw (letter ":semantic_cache:" hash 108 refl) refl
kind_of-key (session id) = rw (letter ":langchain:memory:session:" id 109 refl) refl
kind_of-key (minute user bucket) =
    rw
      (
        letter ":rate_limit:" (user <> ":minute:" <> str bucket) 115 refl,
        scan-rate_limit user ":minute:" bucket b'e' minute_word,
      )
      refl
kind_of-key (hour user bucket) =
    rw
      (
        letter ":rate_limit:" (user <> ":hour:" <> str bucket) 115 refl,
        scan-rate_limit user ":hour:" bucket b'r' hour_word,
      )
      refl

-- The hash or the session that a key is made of.
abbrev pub subject : Purpose → Option String
subject (document hash) = some hash
subject (answer hash) = some hash
subject (session id) = some id
subject (minute user bucket) = none
subject (hour user bucket) = none

unfoldable without : String → String → String
without [] s = s
without (c ∷ word) [] = []
without (c ∷ word) (d ∷ s) = without word s

without-append : (word s : String) → without word (word <> s) ≡ s
unfolding without
without-append [] s = λ i. append_nil s i
without-append (c ∷ word) s =
    ap (without (c ∷ word)) (λ i. append_cons c word s i) ∙ without-append word s

rest_of-word : (word s : String) → without (prefix <> word) (prefix <> word <> s) ≡ s
rest_of-word word s =
    ap (without (prefix <> word)) (sym (append_assoc prefix word s))
    ∙ without-append (prefix <> word) s

-- The subject of a key, as it is read off a key of that kind.
abbrev subject_of : Kind → String → Option String
subject_of documents s = some (without (prefix <> ":rag:doc:") s)
subject_of answers s = some (without (prefix <> ":semantic_cache:") s)
subject_of sessions s = some (without (prefix <> ":langchain:memory:session:") s)
subject_of minutes s = none
subject_of hours s = none

subject_of-key : (p : Purpose) → subject_of (kind p) (key p) ≡ subject p
unfolding document_key semantic_cache_key session_memory_key
subject_of-key (document hash) = ap some (rest_of-word ":rag:doc:" hash)
subject_of-key (answer hash) = ap some (rest_of-word ":semantic_cache:" hash)
subject_of-key (session id) = ap some (rest_of-word ":langchain:memory:session:" id)
subject_of-key (minute user bucket) = refl
subject_of-key (hour user bucket) = refl

-- If two keys are equal, they were made for purposes of the same kind, and of the same document's or
-- query's hash or the same session, where they are made of one: no document's, answer's, session's,
-- minute's or hour's key is a key of another kind, and no two sessions or hashes share a key.
pub key-kind : (p q : Purpose) → key p ≡ key q → (kind p ≡ kind q) × (subject p ≡ subject q)
key-kind p q e =
    let same = sym (kind_of-key p) ∙ ap kind_of e ∙ kind_of-key q in
    (
      same,
      sym (subject_of-key p)
          ∙ ap (λ k. subject_of k (key p)) same
          ∙ ap (subject_of (kind q)) e
          ∙ subject_of-key q,
    )

-- Other sessions have other keys.
pub session_memory_key-differ :
    (a b : String)
    → str_eq a b ≡ false
    → str_eq (session_memory_key a) (session_memory_key b) ≡ false
session_memory_key-differ a b differ =
    elim (Bool-cases (str_eq (session_memory_key a) (session_memory_key b))) [
      | inr other ↦ other
      | inl e ↦
          let same =
            (key-kind (session a) (session b)
              ((eq_iff (session_memory_key a) (session_memory_key b)).0 e)).1 in
          absurd (cc ((eq_iff a b).1 (some-injective a b same), differ))
    ]
