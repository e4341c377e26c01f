-- ===== src/Enrollments/Inspector.antt =====
-- `ActiveEnrollmentInspector` of pages/Enrollments.tsx: the terminal name's field, the two effects that
-- run an action without a click, and the buttons that the panes offer.
pub mod Laws
pub mod Offers
use adms_server.Common.{
  ℕ, String, Bool, true, false, not, ◌&&◌, ◌||◌, Option, none, some, List, [], ◌∷◌, ◌++◌,
  if◌then◌else◌, is_some, truthy, str_eq, ◌==◌,
}
use adms_server.Common.Text.{trim}
use adms_server.TerminalName.{TerminalNamePreview, compute_terminal_name_preview}
use adms_server.Enrollments.Queue.{Enrollment}
use adms_server.Enrollments.Workspace.Messages.{
  Action, create_account, start_fingerprint, confirm_fingerprint, start_scan, confirm_scan,
  mark_ready, cancel,
}

-- What the terminal name's field keeps.
pub record NameField : Type 0 where
  pub display_name : String
  pub display_name_touched : Bool
  pub last_synced_enrollment_id : ℕ

abbrev pub preview_value : Enrollment → String
preview_value e = (compute_terminal_name_preview e.english_name e.rank_metadata).value

-- The `useState` initialisers.
unfoldable pub name_start : Enrollment → NameField
name_start e = record {
  display_name = preview_value e;
  display_name_touched = false;
  last_synced_enrollment_id = e.enrollment_id;
}

-- What a render with an enrollment does to the field.
unfoldable pub sync_name : Enrollment → NameField → NameField
sync_name e field =
    if not (e.enrollment_id == field.last_synced_enrollment_id)
    then record {
      display_name = preview_value e;
      display_name_touched = false;
      last_synced_enrollment_id = e.enrollment_id;
    }
    else if not field.display_name_touched && not (str_eq field.display_name (preview_value e))
    then record field { display_name = preview_value e }
    else field

-- The operator types into the field.
unfoldable pub type_name : String → NameField → NameField
type_name value field = record field { display_name = value; display_name_touched = true }

-- The text that the pane of a reserved enrollment shows as the name: with an English name on file,
-- the suggestion; without one, for all but an administrator, the input.
unfoldable pub name_shown : Enrollment → Bool → NameField → Option String
name_shown e is_admin field =
    if elim e.english_name [ none ↦ false | some name ↦ truthy name ]
    then some (preview_value e)
    else if is_admin
    then none
    else some field.display_name

-- The attendance event of the stream, with `user_id` as text.
pub record AttendanceEvent : Type 0 where
  pub event_type : String
  pub user_id : String
  pub scan_time : String

-- `detectedScan` and `autoConfirmedFor`.
pub record ScanState : Type 0 where
  pub detected_scan : Option String
  pub auto_confirmed_for : Option String

abbrev pub scan_start : ScanState
scan_start = record { detected_scan = none; auto_confirmed_for = none }

-- The effect that takes note of a scan.
unfoldable pub on_last_event : Option AttendanceEvent → Enrollment → ScanState → ScanState
on_last_event none e s = s
on_last_event (some event) e s =
    if str_eq event.event_type "ATTENDANCE_SCAN" && str_eq event.user_id e.reserved_device_user_id
    then record s { detected_scan = some event.scan_time }
    else s

-- What the inspector is given, besides the enrollment.
pub record View : Type 0 where
  pub can_mutate : Bool
  pub is_admin : Bool
  pub busy_action : Option Action

abbrev pub same_scan : String → Option String → Bool
same_scan scan none = false
same_scan scan (some other) = str_eq scan other

-- The effect that confirms a scan: the state after it and the actions that it runs.
unfoldable pub auto_confirm : Enrollment → View → ScanState → ScanState × List Action
auto_confirm e v s = elim s.detected_scan [
  | none ↦ (s, [])
  | some scan ↦
      if truthy scan
        && not (same_scan scan s.auto_confirmed_for)
        && str_eq e.status "CONTROLLED_SCAN_PENDING"
        && v.can_mutate
        && not (is_some v.busy_action)
      then (record s { auto_confirmed_for = some scan }, confirm_scan ∷ [])
      else (s, [])
]

-- The effect that creates the account after the reservation: whether `autoCreate` is set after it, and
-- the actions that it runs.
unfoldable pub auto_create : Enrollment → View → Bool → Bool × List Action
auto_create e v wanted = if not wanted || not (str_eq e.status "RESERVED") then (wanted, []) else (
  false,
  if v.can_mutate
        && elim e.english_name [ none ↦ false | some name ↦ truthy name ]
        && truthy (trim (preview_value e))
      then create_account (trim (preview_value e)) ∷ []
      else [],
)

-- Whether a value of `busyAction` is the name of an action, whatever its payload.
abbrev busy_with : Option Action → Action → Bool
busy_with none a = false
busy_with (some (create_account n)) (create_account m) = true
busy_with (some start_fingerprint) start_fingerprint = true
busy_with (some confirm_fingerprint) confirm_fingerprint = true
busy_with (some start_scan) start_scan = true
busy_with (some confirm_scan) confirm_scan = true
busy_with (some mark_ready) mark_ready = true
busy_with (some (cancel n)) (cancel m) = true
busy_with (some b) a = false

-- An action as a button that is disabled while it runs.
abbrev button : View → Action → List Action
button v a = if not v.can_mutate || busy_with v.busy_action a then [] else a ∷ []

-- What the enabled buttons of the pane for the enrollment's status run.
unfoldable pub offered : Enrollment → View → NameField → List Action
offered e v field =
    if str_eq e.status "RESERVED"
    then if truthy (trim field.display_name)
      then button v (create_account (trim field.display_name))
      else []
    else if str_eq e.status "TERMINAL_ACCOUNT_CREATED"
        || str_eq e.status "FINGERPRINT_ENROLLMENT_PENDING"
    then button v confirm_fingerprint
    else if str_eq e.status "FINGERPRINT_ENROLLED"
    then button v start_scan
    else if str_eq e.status "CONTROLLED_SCAN_PENDING"
    then button v start_scan ++ button v confirm_scan
    else if str_eq e.status "CONTROLLED_SCAN_CONFIRMED"
    then button v mark_ready
    else []

-- Whether the link that opens the cancellation is there.
unfoldable pub cancel_offered : Enrollment → View → Bool
cancel_offered e v =
    v.can_mutate && not (str_eq e.status "RETIRED") && not (str_eq e.status "CANCELLED")

-- The cancellation's button with a reason: the value of `cancelError` and the actions that it runs.
unfoldable pub confirm_cancel : View → String → Bool → Bool × List Action
confirm_cancel v notes error =
    if not v.can_mutate || busy_with v.busy_action (cancel notes)
    then (error, [])
    else if truthy (trim notes)
    then (error, cancel (trim notes) ∷ [])
    else (true, [])
