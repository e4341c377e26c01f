-- ===== src/Enrollments/Workspace/Laws.antt =====
-- What an action leaves behind, whatever the server answers.
use adms_server.Common.{
  ℕ, suc, String, true, false, none, some, List, [], ◌∷◌, ◌++◌, append_assoc, any, ◌≡◌, ◌⊎◌, arith,
}
use adms_server.Api.Json.{Json, is_text}
use adms_server.Api.Request.{JsError, ok, thrown, client_error}
use adms_server.Enrollments.Workspace.Messages.{
  Action, create_account, confirm_fingerprint, start_scan, confirm_scan, mark_ready, cancel,
  error_uncertain,
}
use adms_server.Enrollments.Workspace.{
  TransitionResult, WorkspaceState, Env, auto_next, call_of, run_action, on_run_action,
}

-- Two rounds are enough: an action and the one that follows it are all that runs, and more fuel
-- changes nothing.
run_action_fuel :
    (f : ℕ) (env : Env) (a : Action) (s : WorkspaceState)
    → run_action (suc (suc f)) env a s ≡ on_run_action env a s
unfolding on_run_action
run_action_fuel f env (create_account n) s = ground arith
run_action_fuel f env _ s = ground arith

-- One message is shown, and it is an error or a success.
abbrev pub ShowsOne : WorkspaceState → Type 0
ShowsOne s =
    ((s.action_error ≡ none) × ((m : String) × (s.action_success ≡ some m)))
    ⊎ ((s.action_success ≡ none) × ((m : String) × (s.action_error ≡ some m)))

-- However its calls are answered, an action ends with no action marked as busy and with exactly one
-- message: an error or a success.
pub run_action_settles :
    (env : Env) (a : Action) (s : WorkspaceState)
    → ((on_run_action env a s).busy_action ≡ none) × ShowsOne (on_run_action env a s)
unfolding on_run_action run_action
run_action_settles env (create_account n) s = ground arith
run_action_settles env _ s = ground arith

-- The call of an action was accepted.
abbrev pub Accepted : Env → Action → Type 0
Accepted env a = (r : TransitionResult) × (env.serve (call_of env a) ≡ ok r)

-- An action makes its own call. A second call, that of the action that follows it, is made only when
-- there is such an action and the server accepted the first, and no third is ever made.
pub run_action_calls :
    (env : Env) (a : Action) (s : WorkspaceState)
    → ((on_run_action env a s).calls ≡ s.calls ++ call_of env a ∷ [])
        × (((e : JsError) × (env.serve (call_of env a) ≡ thrown e)) ⊎ (auto_next a ≡ none))
      ⊎ ((next : Action) × (auto_next a ≡ some next)
          × Accepted env a
          × ((on_run_action env a s).calls ≡ s.calls ++ call_of env a ∷ call_of env next ∷ []))
unfolding on_run_action run_action
run_action_calls env (create_account n) s = ground arith
run_action_calls env confirm_fingerprint s = ground (
  arith,
  append_assoc s.calls (call_of env confirm_fingerprint ∷ []) (call_of env start_scan ∷ []),
)
run_action_calls env confirm_scan s =
    ground
      (arith, append_assoc s.calls (call_of env confirm_scan ∷ []) (call_of env mark_ready ∷ []))
run_action_calls env _ s = ground arith

-- The selection is kept, but for an accepted cancellation, which clears it.
run_action_selection :
    (env : Env) (a : Action) (s : WorkspaceState)
    → ((on_run_action env a s).selected_id ≡ s.selected_id)
      ⊎ ((notes : String) × (a ≡ cancel notes)
          × Accepted env a
          × ((on_run_action env a s).selected_id ≡ none))
unfolding on_run_action run_action
run_action_selection env (create_account n) s = ground arith
run_action_selection env (cancel n) s = ground arith
run_action_selection env _ s = ground arith

-- The answers after which the account may or may not exist.
abbrev pub uncertain_codes : List String
uncertain_codes =
    "TERMINAL_ACCOUNT_UNCONFIRMED" ∷ "DEVICE_COMMAND_TIMEOUT" ∷ "DEVICE_COMMAND_IN_PROGRESS" ∷ []

-- The account on the terminal is reported as uncertain only if it was so before, or when the server
-- said of its creation that it is not confirmed, timed out or is still in progress; an accepted
-- creation ends the uncertainty.
pub run_action_uncertain :
    (env : Env) (a : Action) (s : WorkspaceState)
    → ((on_run_action env a s).terminal_account_uncertain ≡ true
        → (s.terminal_account_uncertain ≡ true)
          ⊎ ((name : String) × (status : ℕ) × (code : Json) × (message : String) × (a
                ≡ create_account name)
              × (env.serve (call_of env a) ≡ thrown (client_error status code message))
              × (any (is_text code) uncertain_codes ≡ true)))
      × ((name : String)
          → a ≡ create_account name
          → Accepted env a
          → (on_run_action env a s).terminal_account_uncertain ≡ false)
unfolding on_run_action run_action error_uncertain
run_action_uncertain env (create_account n) s = ground arith
run_action_uncertain env _ s = ground arith
