-- ===== src/Hooks/UseApi/Laws.antt =====
-- The last request wins, whatever the order of the answers.
use adms_server.Common.{
  ℕ, ◌+◌, ◌<◌, true, false, none, some, List, [], ◌∷◌, ◌++◌, ◌≡◌, refl, ◌≢◌, ◌⊎◌, inl, arith, All,
  ap, subst, sym, ◌∙◌, map,
}
use adms_server.Api.Request.{Result, ok, thrown}
use adms_server.Hooks.UseApi.{
  ApiState, ApiEvent, run, settle, unmount, error_message, api_step, api_run, api_start,
}

module _ {ℓ} {T : Type ℓ} where
  api_run-append :
      (s : ApiState T) (es es' : List (ApiEvent T))
      → api_run s (es ++ es') ≡ api_run (api_run s es) es'
  unfolding api_run
  api_run-append s [] es' = refl
  api_run-append s (e ∷ es) es' = api_run-append (api_step s e) es es'

  api_step_stale :
      (s : ApiState T) (k : ℕ) (a : Result T)
      → (k ≢ s.runs) ⊎ (s.mounted ≡ false)
      → api_step s (settle k a) ≡ s
  unfolding api_step
  api_step_stale s k a h = ground arith

  -- An answer to a run that was superseded, or that comes after the page was left, changes nothing,
  -- whatever happens before and after it.
  stale_answer_ignored :
      (s : ApiState T) (es es' : List (ApiEvent T)) (k : ℕ) (a : Result T)
      → (k ≢ (api_run s es).runs) ⊎ ((api_run s es).mounted ≡ false)
      → api_run s (es ++ settle k a ∷ es') ≡ api_run s (es ++ es')
  unfolding api_run
  stale_answer_ignored s es es' k a h =
      api_run-append s es (settle k a ∷ es')
      ∙ ap (λ t. api_run t es') (api_step_stale (api_run s es) k a h)
      ∙ sym (api_run-append s es es')

  -- What holds between two events once the first run has started.
  pub record Inv (s : ApiState T) : Type ℓ where
    pub loading_iff : s.loading ≡ true → s.settled ≡ false
    pub waiting : s.settled ≡ false → (s.loading ≡ true) × (s.error ≡ none)
    pub started : 0 < s.runs

  api_step-Inv : (s : ApiState T) (e : ApiEvent T) → Inv s → Inv (api_step s e)
  unfolding api_step
  api_step-Inv s run h = ground arith
  api_step-Inv s (settle k (ok d)) h = ground arith
  api_step-Inv s (settle k (thrown e)) h = ground arith
  api_step-Inv s unmount h = ground arith

  api_run-Inv : (s : ApiState T) (es : List (ApiEvent T)) → Inv s → Inv (api_run s es)
  unfolding api_run
  api_run-Inv s [] h = h
  api_run-Inv s (e ∷ es) h = api_run-Inv (api_step s e) es (api_step-Inv s e h)

  -- After any events the page is loading exactly while the last run is not answered, and then it
  -- shows no error.
  pub use_api-Inv : (es : List (ApiEvent T)) → Inv (api_run (api_step (api_start {T = T}) run) es)
  unfolding api_start api_step
  use_api-Inv es =
      api_run-Inv _ es
        (record { loading_iff = λ e. refl; waiting = λ e. (refl, refl); started = omega arith })

  abbrev pub answers : List (ℕ × Result T) → List (ApiEvent T)
  answers = map (λ p. settle p.0 p.1)

  stale_answers :
      (s : ApiState T) (stale : List (ℕ × Result T)) (es : List (ApiEvent T))
      → All (λ p. p.0 < s.runs) stale
      → api_run s (answers stale ++ es) ≡ api_run s es
  unfolding api_run
  stale_answers s [] es h = refl
  stale_answers s ((k, a) ∷ stale) es (old, h) =
      ap (λ t. api_run t (answers stale ++ es)) (api_step_stale s k a (inl (omega arith)))
      ∙ stale_answers s stale es h

  -- What the page shows for the answer of its last run.
  abbrev pub Shows : ApiState T → Result T → ApiState T → Type ℓ
  Shows before (ok d) s = (s.value ≡ some d) × (s.error ≡ none) × (s.loading ≡ false)
  Shows before (thrown e) s =
      (s.value ≡ before.value) × (s.error ≡ some (error_message e)) × (s.loading ≡ false)

  abbrev fresh : ApiState T → ApiState T
  fresh s = record s { loading = true; error = none; runs = s.runs + 1; settled = false }

  step-run : (s : ApiState T) → s.mounted ≡ true → api_step s run ≡ fresh s
  unfolding api_step
  step-run s h = ground arith

  fresh_answer :
      (s : ApiState T) (a : Result T)
      → s.mounted ≡ true
      → Shows s a (api_step (fresh s) (settle (s.runs + 1) a))
  unfolding api_step
  fresh_answer s (ok d) h = ground arith
  fresh_answer s (thrown e) h = ground arith

  -- A new run followed by any answers to older runs and then by its own answer shows that answer:
  -- the value, or the error over the value from before.
  pub latest_wins :
      (s : ApiState T) (stale : List (ℕ × Result T)) (a : Result T)
      → s.mounted ≡ true
      → All (λ p. p.0 < s.runs + 1) stale
      → Shows s a (api_run s (run ∷ (answers stale ++ settle (s.runs + 1) a ∷ [])))
  unfolding api_run
  latest_wins s stale a h old =
      subst (Shows s a)
        (sym (
          ap (λ t. api_run t (answers stale ++ settle (s.runs + 1) a ∷ [])) (step-run s h)
          ∙ stale_answers (fresh s) stale (settle (s.runs + 1) a ∷ []) old))
        (fresh_answer s a h)
