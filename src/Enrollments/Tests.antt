-- ===== src/Enrollments/Tests.antt =====
-- The enrollment page at one enrollment and a server that refuses some calls.
use adms_server.Common.{
  ◌&&◌, ◌||◌, str_eq, ℕ, ◌≤◌, String, true, false, Option, none, some, List, [], ◌∷◌, ◌++◌, ◌≡◌,
  refl, ◌⊎◌, All, any, arith, eq_iff,
}
use adms_server.Api.Json.{Json, str, is_text}
use adms_server.Api.Request.{JsError, client_error, Result, ok, thrown}
use adms_server.Api.Calls.Enrollments.{EnrollmentCall, confirm_controlled_scan}
use adms_server.I18n.English.{en}
use adms_server.I18n.ApiErrors.Laws.{OneOf}
use adms_server.Enrollments.Queue.{Enrollment}
use adms_server.Enrollments.Workspace.{
  TransitionResult, WorkspaceState, Env, auto_next, call_of, on_run_action,
}
use adms_server.Enrollments.Workspace.Laws.{
  Accepted, ShowsOne, uncertain_codes, run_action_settles, run_action_calls, run_action_uncertain,
}
use adms_server.Enrollments.Workspace.Messages.{
  Action, create_account, confirm_scan, cancel, error_text,
}
use adms_server.Enrollments.Workspace.Messages.Laws.{create_texts, error_text_closed}
use adms_server.Enrollments.Transitions.{statuses, validate_status_transition, target}
use adms_server.Enrollments.Inspector.{
  AttendanceEvent, View, name_start, scan_start, on_last_event, auto_confirm, offered,
  cancel_offered,
}
use adms_server.Enrollments.Inspector.Laws.{
  ScanStep, event, render, confirmations, scans, auto_confirm_once, foreign_scan_confirms,
}
use adms_server.Enrollments.Inspector.Offers.{offered_allowed, cancel_offered_allowed}
use adms_server.Enrollments.Forms.{ReserveForm, NoteForm}

error_text_closed_example :
    OneOf
      (error_text en (cancel "x") (client_error 409 (str "ENROLLMENT_CONFLICT") "a -> CANCELLED"))
      (create_texts en)
error_text_closed_example =
    error_text_closed en (cancel "x")
      (client_error 409 (str "ENROLLMENT_CONFLICT") "a -> CANCELLED")

-- Confirming the scan is accepted, and all other calls time out.
abbrev serve : EnrollmentCall → Result TransitionResult
serve (confirm_controlled_scan id operator) = ok (record { reconciled = false })
serve _ = thrown (client_error 504 (str "DEVICE_COMMAND_TIMEOUT") "late")

abbrev env : Env
env = record { enrollment_id = 4; username = some "ann"; texts = en; serve = serve }

abbrev page : WorkspaceState
page = record {
  selected_id = some 4;
  action_error = none;
  action_success = none;
  busy_action = none;
  terminal_account_uncertain = false;
  reloads = 0;
  calls = [];
}

run_action_settles_example :
    ((on_run_action env confirm_scan page).busy_action ≡ none)
    × ShowsOne (on_run_action env confirm_scan page)
run_action_settles_example = run_action_settles env confirm_scan page

run_action_calls_example :
    ((on_run_action env confirm_scan page).calls ≡ page.calls ++ call_of env confirm_scan ∷ [])
      × (((e : JsError) × (env.serve (call_of env confirm_scan) ≡ thrown e))
          ⊎ (auto_next confirm_scan ≡ none))
    ⊎ ((next : Action) × (auto_next confirm_scan ≡ some next)
        × Accepted env confirm_scan
        × ((on_run_action env confirm_scan page).calls
            ≡ page.calls ++ call_of env confirm_scan ∷ call_of env next ∷ []))
run_action_calls_example = run_action_calls env confirm_scan page

run_action_uncertain_example :
    ((on_run_action env (create_account "Ann") page).terminal_account_uncertain ≡ true
      → (page.terminal_account_uncertain ≡ true)
        ⊎ ((name : String) × (status : ℕ) × (code : Json) × (message : String) × (create_account
                "Ann"
              ≡ create_account name)
            × (env.serve (call_of env (create_account "Ann"))
                ≡ thrown (client_error status code message))
            × (any (is_text code) uncertain_codes ≡ true)))
    × ((name : String)
        → create_account "Ann" ≡ create_account name
        → Accepted env (create_account "Ann")
        → (on_run_action env (create_account "Ann") page).terminal_account_uncertain ≡ false)
run_action_uncertain_example = run_action_uncertain env (create_account "Ann") page

abbrev enrollment_of : String → String → Option String → Enrollment
enrollment_of status user english = record {
  enrollment_id = 4;
  employee_id = "e";
  employee_name = none;
  english_name = english;
  rank_metadata = none;
  status = status;
  lifecycle_state = "IN_PROGRESS";
  reserved_device_user_id = user;
}

abbrev reserved : Enrollment
reserved = enrollment_of "RESERVED" "12" (some "Ann")

abbrev view : View
view = record { can_mutate = true; is_admin = false; busy_action = none }

abbrev unnamed : Enrollment
unnamed = enrollment_of "RESERVED" "12" none

abbrev scan_of : String → AttendanceEvent
scan_of user = record { event_type = "ATTENDANCE_SCAN"; user_id = user; scan_time = "08:00" }

abbrev pending_scan : Enrollment
pending_scan = enrollment_of "CONTROLLED_SCAN_PENDING" "13" none

abbrev scan_steps : List ScanStep
scan_steps =
    event (scan_of "13") pending_scan ∷ render pending_scan view ∷ render pending_scan view ∷ []

auto_confirm_once_example : confirmations scan_steps scan_start ≤ scans scan_steps
auto_confirm_once_example = auto_confirm_once scan_steps

foreign_scan_confirms_example :
    (auto_confirm pending_scan view (
      on_last_event
        (some (scan_of "12"))
        pending_scan
        (auto_confirm reserved view (on_last_event (some (scan_of "12")) reserved scan_start)).0)).1
    ≡ confirm_scan ∷ []
foreign_scan_confirms_example =
    foreign_scan_confirms reserved pending_scan view view (scan_of "12") refl refl
      (ground (arith, eq_iff "12" "13")) refl
      (ground (arith, eq_iff reserved.status "CONTROLLED_SCAN_PENDING")) refl refl refl

offered_allowed_example :
    All
      (λ a. validate_status_transition pending_scan.status (target a) ≡ true)
      (offered pending_scan view (name_start pending_scan))
offered_allowed_example = offered_allowed pending_scan view (name_start pending_scan)

cancel_offered_allowed_example :
    All
      (λ status. cancel_offered (record reserved { status = status }) view ≡ (
        view.can_mutate
        && (validate_status_transition status (target (cancel "x"))
            || str_eq status "READY_FOR_MAPPING")))
      statuses
    × (validate_status_transition "READY_FOR_MAPPING" (target (cancel "x")) ≡ false)
cancel_offered_allowed_example = cancel_offered_allowed reserved view "x"

abbrev reserve_form : ReserveForm
reserve_form = record {
  employee_id = "e";
  device_id = some 2;
  operator = " ann ";
  busy = false;
  error = none;
}

abbrev note_form : NoteForm
note_form = record { note = " seen "; busy = false; error = none }

abbrev cancelled : Enrollment
cancelled = record (enrollment_of "CANCELLED" "14" none) { lifecycle_state = "CANCELLED" }

abbrev listed : List Enrollment
listed = cancelled ∷ pending_scan ∷ []
