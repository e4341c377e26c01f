-- ===== src/Enrollments/Workspace/Messages.antt =====
-- The actions of the enrollment workspace, and what its `catch` says of an error.
pub mod Laws
use adms_server.Common.{String, Bool, true, false, ◌||◌, if◌then◌else◌}
use adms_server.Common.Text.{includes, ◌+++◌}
use adms_server.Api.Json.{Json, is_text}
use adms_server.Api.Request.{JsError, client_error, unauthorized, other}
use adms_server.I18n.Translations.{Translations}
use adms_server.I18n.ApiErrors.{friendly_api_error}

-- The seven actions that the page runs, with their payloads.
pub data Action : Type 0 where
  create_account : String → Action
  start_fingerprint confirm_fingerprint start_scan confirm_scan mark_ready : Action
  cancel : String → Action

pub data Uncertain : Type 0 where
  set_to : Bool → Uncertain
  unchanged : Uncertain

-- A conflict of the enrollment's state, by the words of its message.
unfoldable pub conflict_text : Translations → String → String
conflict_text t message =
    if includes message "-> CANCELLED" || includes message "CANCELLED ->"
    then t.enrollment.already_cancelled_body
    else if includes message "no matching attendance scan found"
    then t.enrollment.scan_not_found_yet_body
    else t.enrollment.enrollment_conflict_body

-- What every action but the creation of the account says of an error.
unfoldable pub common_text : Translations → JsError → String
unfolding conflict_text friendly_api_error
common_text t (client_error status code message) =
    if is_text code "WRITE_SESSION_EXPIRED"
    then t.enrollment.write_session_expired_mid_workflow
    else if is_text code "WRITE_SESSION_REQUIRED" || is_text code "WRITE_DISABLED"
    then t.enrollment.write_session_locked_body
    else if is_text code "ENROLLMENT_CONFLICT"
    then conflict_text t message
    else friendly_api_error (client_error status code message) t
common_text t unauthorized = friendly_api_error unauthorized t
common_text t (other message) = friendly_api_error (other message) t

-- No device write was attempted.
abbrev is_unavailable : Json → Bool
is_unavailable code =
    is_text code "DEVICE_UNAVAILABLE"
    || is_text code "COLLECTOR_UNAVAILABLE"
    || is_text code "DEVICE_COMMAND_QUEUE_FULL"
    || is_text code "DEVICE_OWNER_TIMEOUT"
    || is_text code "DEVICE_COMMAND_CANCELLED"

-- What the creation of the terminal account says of an error.
unfoldable pub create_text : Translations → JsError → String
unfolding common_text
create_text t (client_error status code message) =
    if is_text code "TERMINAL_ACCOUNT_CONFLICT"
    then t.enrollment.terminal_conflict_title +++ ". " +++ t.enrollment.terminal_conflict_body
    else if is_text code "TERMINAL_ACCOUNT_UNCONFIRMED"
    then t.enrollment.terminal_unconfirmed_title +++ ". " +++ t.enrollment.terminal_unconfirmed_body
    else if is_text code "DEVICE_COMMAND_TIMEOUT"
    then t.enrollment.terminal_unconfirmed_body
    else if is_text code "DEVICE_COMMAND_IN_PROGRESS"
    then t.enrollment.terminal_in_progress_body
    else if is_unavailable code
    then t.enrollment.terminal_unavailable_title +++ ". " +++ t.enrollment.terminal_unavailable_body
    else common_text t (client_error status code message)
create_text t unauthorized = common_text t unauthorized
create_text t (other message) = common_text t (other message)

unfoldable pub error_text : Translations → Action → JsError → String
unfolding create_text
error_text t (create_account display_name) e = create_text t e
error_text t start_fingerprint e = common_text t e
error_text t confirm_fingerprint e = common_text t e
error_text t start_scan e = common_text t e
error_text t confirm_scan e = common_text t e
error_text t mark_ready e = common_text t e
error_text t (cancel notes) e = common_text t e

abbrev create_uncertain : JsError → Uncertain
create_uncertain (client_error status code message) =
    if is_text code "TERMINAL_ACCOUNT_CONFLICT"
    then set_to false
    else if is_text code "TERMINAL_ACCOUNT_UNCONFIRMED"
        || is_text code "DEVICE_COMMAND_TIMEOUT"
        || is_text code "DEVICE_COMMAND_IN_PROGRESS"
    then set_to true
    else if is_unavailable code
    then set_to false
    else unchanged
create_uncertain unauthorized = unchanged
create_uncertain (other message) = unchanged

-- What the error says of the account on the terminal.
unfoldable pub error_uncertain : Action → JsError → Uncertain
error_uncertain (create_account display_name) e = create_uncertain e
error_uncertain start_fingerprint e = unchanged
error_uncertain confirm_fingerprint e = unchanged
error_uncertain start_scan e = unchanged
error_uncertain confirm_scan e = unchanged
error_uncertain mark_ready e = unchanged
error_uncertain (cancel notes) e = unchanged
