-- ===== src/Enrollments/Workspace.antt =====
-- `runAction` of pages/Enrollments.tsx: an action of the operator, the calls that it makes one after
-- the other, and what is shown for each answer.
pub mod Messages
pub mod Laws
use adms_server.Common.{
  ℕ, zero, suc, ◌+◌, String, Bool, true, false, Option, none, some, List, [], ◌∷◌, ◌++◌,
  if◌then◌else◌, get_or,
}
use adms_server.Api.Calls.Enrollments.{
  EnrollmentCall, create_terminal_account, start_fingerprint_enrollment,
  confirm_fingerprint_enrolled, start_controlled_scan, confirm_controlled_scan,
  mark_ready_for_mapping, cancel_enrollment,
}
use adms_server.Api.Request.{JsError, Result, ok, thrown}
use adms_server.I18n.Translations.{Translations}
use adms_server.Enrollments.Workspace.Messages.{
  Action, create_account, start_fingerprint, confirm_fingerprint, start_scan, confirm_scan,
  mark_ready, cancel, Uncertain, set_to, unchanged, error_text, error_uncertain,
}

-- The member of the API's `EnrollmentTransitionResult` that is read.
pub record TransitionResult : Type 0 where
  pub reconciled : Bool

-- The page's state; `reloads` counts the calls of `list.reload` and `nextActions.reload`, which are
-- always made together, and `calls` lists the API calls, the oldest first.
pub record WorkspaceState : Type 0 where
  pub selected_id : Option ℕ
  pub action_error : Option String
  pub action_success : Option String
  pub busy_action : Option Action
  pub terminal_account_uncertain : Bool
  pub reloads : ℕ
  pub calls : List EnrollmentCall

-- `AUTO_NEXT`
abbrev pub auto_next : Action → Option Action
auto_next confirm_fingerprint = some start_scan
auto_next confirm_scan = some mark_ready
auto_next (create_account display_name) = none
auto_next start_fingerprint = none
auto_next start_scan = none
auto_next mark_ready = none
auto_next (cancel notes) = none

-- `selected.enrollment_id` and `me?.username` as `runAction` finds them, the texts, and the server.
pub record Env : Type 0 where
  pub enrollment_id : ℕ
  pub username : Option String
  pub texts : Translations
  pub serve : EnrollmentCall → Result TransitionResult

-- `me?.username ?? "operator"`
abbrev operator_of : Env → String
operator_of env = get_or env.username "operator"

unfoldable pub call_of : Env → Action → EnrollmentCall
call_of env (create_account display_name) =
    create_terminal_account env.enrollment_id display_name (operator_of env)
call_of env start_fingerprint =
    start_fingerprint_enrollment env.enrollment_id (operator_of env) none
call_of env confirm_fingerprint =
    confirm_fingerprint_enrolled env.enrollment_id (operator_of env) none
call_of env start_scan = start_controlled_scan env.enrollment_id (operator_of env) none
call_of env confirm_scan = confirm_controlled_scan env.enrollment_id (operator_of env)
call_of env mark_ready = mark_ready_for_mapping env.enrollment_id (operator_of env) none
call_of env (cancel notes) = cancel_enrollment env.enrollment_id (operator_of env) notes

-- The message of a success.
unfoldable pub success_text : Translations → Action → TransitionResult → String
success_text t (create_account display_name) r =
    if r.reconciled
    then t.enrollment.terminal_reconciled_success
    else t.enrollment.terminal_created_success
success_text t start_fingerprint r = t.enrollment.fingerprint_window_active_message
success_text t confirm_fingerprint r = t.enrollment.fingerprint_confirmed_message
success_text t start_scan r = t.enrollment.scan_window_started_message
success_text t confirm_scan r = t.enrollment.scan_confirmed_message
success_text t mark_ready r = t.enrollment.ready_for_mapping_success_message
success_text t (cancel notes) r = t.enrollment.cancel_success_message

-- `setBusyAction(action)` and the clearing of the messages, and the API call
started : Env → Action → WorkspaceState → WorkspaceState
started env a s = record s {
  busy_action = some a;
  action_error = none;
  action_success = none;
  calls = s.calls ++ call_of env a ∷ [];
}

abbrev after_success : Action → WorkspaceState → WorkspaceState
after_success (create_account display_name) s = record s { terminal_account_uncertain = false }
after_success (cancel notes) s = record s { selected_id = none }
after_success start_fingerprint s = s
after_success confirm_fingerprint s = s
after_success start_scan s = s
after_success confirm_scan s = s
after_success mark_ready s = s

-- The rest of the `try` up to the next action.
succeeded : Env → Action → TransitionResult → WorkspaceState → WorkspaceState
succeeded env a r s =
    let shown = record s { action_success = some (success_text env.texts a r) } in
    let t = after_success a shown in record t { reloads = t.reloads + 1 }

abbrev reloads_on_error : Action → Bool
reloads_on_error (create_account display_name) = true
reloads_on_error (cancel notes) = true
reloads_on_error start_fingerprint = false
reloads_on_error confirm_fingerprint = false
reloads_on_error start_scan = false
reloads_on_error confirm_scan = false
reloads_on_error mark_ready = false

abbrev apply_uncertain : Uncertain → Bool → Bool
apply_uncertain (set_to b) old = b
apply_uncertain unchanged old = old

-- The `catch`.
failed : Env → Action → JsError → WorkspaceState → WorkspaceState
failed env a e s = record s {
  action_error = some (error_text env.texts a e);
  terminal_account_uncertain = apply_uncertain (error_uncertain a e) s.terminal_account_uncertain;
  reloads = if reloads_on_error a then s.reloads + 1 else s.reloads;
}

-- The `finally`.
abbrev idle : WorkspaceState → WorkspaceState
idle s = record s { busy_action = none }

-- `runAction`, which calls itself for the next action; the fuel bounds how deep.
unfoldable pub run_action : ℕ → Env → Action → WorkspaceState → WorkspaceState
unfolding started succeeded failed call_of success_text
run_action zero env a s = s
run_action (suc f) env a s = elim (env.serve (call_of env a)) [
  | ok r ↦ elim (auto_next a) [
    | none ↦ idle (succeeded env a r (started env a s))
    | some next ↦ idle (run_action f env next (succeeded env a r (started env a s)))
  ]
  | thrown e ↦ idle (failed env a e (started env a s))
]

-- At most two actions follow one another.
unfoldable pub on_run_action : Env → Action → WorkspaceState → WorkspaceState
unfolding run_action
on_run_action = run_action 2
