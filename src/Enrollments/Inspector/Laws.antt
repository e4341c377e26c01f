-- ===== src/Enrollments/Inspector/Laws.antt =====
-- The name's field over the renders, and the automatic confirmation over the scans.
use adms_server.Common.{
  ℕ, ◌+◌, ◌≤◌, String, true, false, ◌&&◌, Option-cases, none, some, List, [], ◌∷◌, ◌≡◌, ◌≢◌, ◌⊎◌,
  inl, inr, arith, eq_iff, if◌then◌else◌, str_eq, truthy,
}
use adms_server.Common.Text.{trim}
use adms_server.Enrollments.Queue.{Enrollment}
use adms_server.Enrollments.Workspace.Messages.{Action, create_account, confirm_scan}
use adms_server.Enrollments.Inspector.{
  NameField, AttendanceEvent, ScanState, View, preview_value, sync_name, type_name, name_shown,
  same_scan, scan_start, on_last_event, auto_confirm, offered,
}

-- One render brings the field to rest: rendering the same enrollment again changes nothing. After it
-- the field belongs to that enrollment, and it holds the suggestion for it, or an edit that the
-- operator made for the same enrollment, which is kept as it was.
sync_name_settles :
    (e : Enrollment) (field : NameField)
    → (sync_name e (sync_name e field) ≡ sync_name e field)
      × ((sync_name e field).last_synced_enrollment_id ≡ e.enrollment_id)
      × (((sync_name e field).display_name ≡ preview_value e)
            × ((sync_name e field).display_name_touched ≡ false)
          ⊎ (sync_name e field ≡ field) × (field.display_name_touched ≡ true))
unfolding sync_name
sync_name_settles e field =
    ground (
      arith,
      eq_iff field.display_name (preview_value e),
      eq_iff (preview_value e) (preview_value e),
    )

-- When the operator typed a name for an enrollment and an English name arrives for it afterwards, the
-- pane shows the suggestion, but its button creates the account with the typed name.
typed_name_sent :
    (e : Enrollment) (v : View) (field : NameField) (value name : String)
    → field.last_synced_enrollment_id ≡ e.enrollment_id
    → e.english_name ≡ some name
    → truthy name ≡ true
    → e.status ≡ "RESERVED"
    → v.can_mutate ≡ true
    → v.busy_action ≡ none
    → truthy (trim value) ≡ true
    → (name_shown e v.is_admin (sync_name e (type_name value field)) ≡ some (preview_value e))
      × (offered e v (sync_name e (type_name value field)) ≡ create_account (trim value) ∷ [])
unfolding sync_name type_name name_shown offered
typed_name_sent e v field value name same english full reserved may idle typed =
    ground (arith, eq_iff e.status "RESERVED", same, english, full, reserved)

-- What happens to the inspector's scans: an event of the stream, or a run of the confirming effect.
pub data ScanStep : Type 0 where
  event : AttendanceEvent → Enrollment → ScanStep
  render : Enrollment → View → ScanStep

abbrev count_of : List Action → ℕ
count_of [] = 0
count_of (a ∷ rest) = 1 + count_of rest

-- The number of confirmations that the effect runs on its own.
unfoldable pub confirmations : List ScanStep → ScanState → ℕ
unfolding on_last_event auto_confirm
confirmations [] s = 0
confirmations (event a e ∷ steps) s = confirmations steps (on_last_event (some a) e s)
confirmations (render e v ∷ steps) s =
    count_of (auto_confirm e v s).1 + confirmations steps (auto_confirm e v s).0

-- The events that are scans of the enrollment that is shown.
abbrev pub scans : List ScanStep → ℕ
scans [] = 0
scans (event a e ∷ steps) =
    let rest = scans steps in
    if str_eq a.event_type "ATTENDANCE_SCAN" && str_eq a.user_id e.reserved_device_user_id
    then 1 + rest
    else rest
scans (render e v ∷ steps) = scans steps

-- Whether a scan waits for its confirmation.
unfoldable pending : ScanState → ℕ
pending s = elim s.detected_scan [
  | none ↦ 0
  | some scan ↦ if same_scan scan s.auto_confirmed_for then 0 else 1
]

render-pending :
    (e : Enrollment) (v : View) (s : ScanState)
    → count_of (auto_confirm e v s).1 + pending (auto_confirm e v s).0 ≤ pending s
unfolding pending auto_confirm
render-pending e v s = elim (Option-cases s.detected_scan) [
  | inl h ↦ ground arith
  | inr (scan, h) ↦ ground (arith, eq_iff scan scan)
]

event-pending :
    (a : AttendanceEvent) (e : Enrollment) (s : ScanState)
    → pending (on_last_event (some a) e s) ≤ pending s + scans (event a e ∷ [])
unfolding pending on_last_event
event-pending a e s = ground arith

confirmations-pending :
    (steps : List ScanStep) (s : ScanState) → confirmations steps s ≤ pending s + scans steps
unfolding confirmations
confirmations-pending [] s = ground arith
confirmations-pending (event a e ∷ steps) s =
    ground (arith, confirmations-pending steps (on_last_event (some a) e s), event-pending a e s)
confirmations-pending (render e v ∷ steps) s =
    ground (arith, confirmations-pending steps (auto_confirm e v s).0, render-pending e v s)

-- Over any sequence of events and of runs of the effect, whichever enrollments are shown, the effect
-- confirms at most once for each scan of the enrollment that is shown.
pub auto_confirm_once : (steps : List ScanStep) → confirmations steps scan_start ≤ scans steps
unfolding pending
auto_confirm_once steps = ground (arith, confirmations-pending steps scan_start)

-- A scan of the person shown, whose enrollment does not wait for a test scan, is kept by the effects'
-- runs when another enrollment is selected: if that one waits for its test scan, the effect confirms it
-- with the first one's scan.
pub foreign_scan_confirms :
    (a b : Enrollment) (v w : View) (x : AttendanceEvent)
    → x.event_type ≡ "ATTENDANCE_SCAN"
    → x.user_id ≡ a.reserved_device_user_id
    → x.user_id ≢ b.reserved_device_user_id
    → truthy x.scan_time ≡ true
    → a.status ≢ "CONTROLLED_SCAN_PENDING"
    → b.status ≡ "CONTROLLED_SCAN_PENDING"
    → w.can_mutate ≡ true
    → w.busy_action ≡ none
    → (auto_confirm b w
        (on_last_event (some x) b (auto_confirm a v (on_last_event (some x) a scan_start)).0)).1
      ≡ confirm_scan ∷ []
unfolding auto_confirm on_last_event
foreign_scan_confirms a b v w x kind mine other full done waits may idle = ground (
  arith,
  eq_iff x.event_type "ATTENDANCE_SCAN",
  eq_iff a.status "CONTROLLED_SCAN_PENDING",
  eq_iff b.status "CONTROLLED_SCAN_PENDING",
  eq_iff x.user_id a.reserved_device_user_id,
  eq_iff x.user_id b.reserved_device_user_id,
)
