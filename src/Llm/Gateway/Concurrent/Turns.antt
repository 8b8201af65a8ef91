-- ===== src/Llm/Gateway/Concurrent/Turns.antt =====
-- A request that no other one comes between is `generate`: the turns are its parts.
use nexus_ai_platform.Prelude.{
  Option, none, some, List, [], ◌∷◌, ◌≡◌, refl, sym, ◌∙◌, Bool-cases, inl, inr,
}
use nexus_ai_platform.Errors.{Exception, Result, ok, raise, llm_error}
use nexus_ai_platform.Exec.{Exec, pure, continue, ◌>>=◌, ◌>>◌}
use nexus_ai_platform.Floats.{Floats}
use nexus_ai_platform.Llm.Models.{LlmRequest, LlmResponse, Provider}
use nexus_ai_platform.Llm.Router.{select_provider}
use nexus_ai_platform.Llm.Gateway.State.{World, Gateway, GatewayState, selected_total}
use nexus_ai_platform.Llm.Gateway.{
  ask, emit, read_clock, provider_name, others, ordered_providers, update_provider_metrics,
  note_success, note_failure, count_fallback, falls_back, conclude, try_providers, give_up,
  generate,
}
use nexus_ai_platform.Llm.Gateway.Concurrent.{waiting, ended, arrive, go_on, land, resume}

module _ {S A B : Type 0} where
  bind_cong :
      (m : Exec S A) (f h : A → Exec S B) (s : S)
      → ((a : A) (t : S) → f a t ≡ h a t)
      → (m >>= f) s ≡ (m >>= h) s
  bind_cong m f h s same = by_cases (m s)
    where
      by_cases :
          (o : Option (Result A × S))
          → ◌≡◌ {A = Option (Result B × S)}
              (elim o [ none ↦ none | some (r, t) ↦ continue f r t ])
              (elim o [ none ↦ none | some (r, t) ↦ continue h r t ])
      by_cases none = refl
      by_cases (some (ok a, t)) = same a t
      by_cases (some (raise e, t)) = refl

  bind_assoc :
      {C : Type 0} (m : Exec S A) (f : A → Exec S B) (h : B → Exec S C) (s : S)
      → (m >>= f >>= h) s ≡ (m >>= (λ a. f a >>= h)) s
  bind_assoc {C} m f h s = by_cases (m s)
    where
      by_cases :
          (o : Option (Result A × S))
          → ((λ (x : S). elim o [ none ↦ none | some (r, t) ↦ continue f r t ]) >>= h) s
            ≡ (elim o [ none ↦ none | some (r, t) ↦ continue (λ a. f a >>= h) r t ])
      by_cases none = refl
      by_cases (some (ok a, t)) = refl
      by_cases (some (raise e, t)) = refl

module _ (fl : Floats) (world : World fl) where
  open fl use {F}

  go_on-resume :
      (g : Gateway F) (request : LlmRequest F) (rest : List Provider) (e : Exception)
      (s : GatewayState F world.State)
      → (go_on fl world rest e >>= resume fl world g request) s
        ≡ try_providers fl world g request (some e) rest s
  unfolding go_on try_providers give_up
  go_on-resume g request [] e s = refl
  go_on-resume g request (q ∷ rest) e s = refl

  -- The end of a round is `land`, and what the request does after it.
  conclude-land :
      (g : Gateway F) (request : LlmRequest F) (p : Provider) (rest : List Provider) (started : F)
      (r : Result LlmResponse) (s : GatewayState F world.State)
      → conclude fl world g p rest started (λ e. try_providers fl world g request (some e) rest) r s
        ≡ (land fl world g p rest started r >>= resume fl world g request) s
  unfolding conclude land
  conclude-land g request p rest started (ok response) s = sym (
      bind_assoc (note_success fl world g p started) (λ _. pure (ended (ok response)))
        (resume fl world g request) s)
  conclude-land g request p rest started (raise (llm_error kind message)) s =
      elim (Bool-cases (falls_back kind)) [
        | inl falls ↦ rw falls (
            bind_cong (note_failure fl world g p >> count_fallback fl world p rest)
              (λ _. try_providers fl world g request (some (llm_error kind message)) rest)
              (λ _. go_on fl world rest (llm_error kind message) >>= resume fl world g request) s
              (λ _ t. sym (go_on-resume g request rest (llm_error kind message) t))
            ∙ sym (
                bind_assoc (note_failure fl world g p >> count_fallback fl world p rest)
                  (λ _. go_on fl world rest (llm_error kind message)) (resume fl world g request)
                  s))
        | inr stops ↦ rw stops (
            sym (
              bind_assoc (note_failure fl world g p)
                (λ _. pure (ended (raise (llm_error kind message)))) (resume fl world g request) s))
      ]
  conclude-land g request p rest started (raise e) s = refl

  -- `generate` is the arrival, and what the request does after it.
  generate-arrive :
      (g : Gateway F) (request : LlmRequest F) (s : GatewayState F world.State)
      → generate fl world g request s ≡ (arrive fl world g >>= resume fl world g request) s
  unfolding generate arrive try_providers ordered_providers
  generate-arrive g request s = sym (
      bind_assoc (ask fl world (select_provider fl))
        (λ selected.
          emit fl world (selected_total (provider_name selected))
          >> update_provider_metrics fl world g
          >> (read_clock fl world >>= λ started.
              pure (waiting selected (others selected g.providers) started)))
        (resume fl world g request) s
      ∙ bind_cong (ask fl world (select_provider fl)) _ _ s (λ selected t.
        bind_assoc
          (emit fl world (selected_total (provider_name selected))
            >> update_provider_metrics fl world g)
          (λ _. read_clock fl world >>= λ started.
            pure (waiting selected (others selected g.providers) started))
          (resume fl world g request) t))
