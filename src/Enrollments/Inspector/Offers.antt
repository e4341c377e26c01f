-- ===== src/Enrollments/Inspector/Offers.antt =====
-- What the inspector offers, against the server's table of transitions.
use adms_server.Common.{
  ℕ, String, false, ◌≤◌, get_or, some, ◌≡◌, refl, All, arith, str_eq, ◌&&◌, ◌||◌, true,
}
use adms_server.Enrollments.Queue.{Enrollment, get_step_index}
use adms_server.Enrollments.Workspace.Messages.{
  Action, confirm_fingerprint, start_scan, confirm_scan, mark_ready, cancel,
}
use adms_server.Enrollments.Workspace.{auto_next}
use adms_server.Enrollments.Transitions.{statuses, validate_status_transition, target}
use adms_server.Enrollments.Inspector.{NameField, View, offered, cancel_offered}

-- Every button that a pane enables runs an action that the server's table allows in the enrollment's
-- status.
pub offered_allowed :
    (e : Enrollment) (v : View) (field : NameField)
    → All (λ a. validate_status_transition e.status (target a) ≡ true) (offered e v field)
unfolding offered validate_status_transition target
offered_allowed e v field = ground arith

-- An action that follows another without a click is allowed in the status that the other one asks for.
auto_next_allowed :
    (a next : Action)
    → auto_next a ≡ some next
    → validate_status_transition (target a) (target next) ≡ true
unfolding validate_status_transition target
auto_next_allowed confirm_fingerprint start_scan h = refl
auto_next_allowed confirm_scan mark_ready h = refl
auto_next_allowed _ _ h = ground arith

-- In every status of the server's table, those who may change things are offered the cancellation exactly
-- where the server allows it, and in READY_FOR_MAPPING besides, where the server refuses it; nobody else
-- is offered it.
pub cancel_offered_allowed :
    (e : Enrollment) (v : View) (notes : String)
    → All
        (λ status. cancel_offered (record e { status = status }) v ≡ (
          v.can_mutate
          && (validate_status_transition status (target (cancel notes))
              || str_eq status "READY_FOR_MAPPING")))
        statuses
      × (validate_status_transition "READY_FOR_MAPPING" (target (cancel notes)) ≡ false)
unfolding cancel_offered validate_status_transition target
cancel_offered_allowed e v notes = (ground arith, refl)

-- The index of the progress bar, with the cancelled enrollment at its start.
abbrev step_of : String → ℕ
step_of status = get_or (get_step_index status) 0

-- No enabled button takes the progress bar back: the status that its action asks for, and the one that
-- the action after it asks for, stand at the same step or a later one.
offered_forward :
    (e : Enrollment) (v : View) (field : NameField)
    → All
        (λ a.
          (step_of e.status ≤ step_of (target a))
          × (step_of (target a) ≤ step_of (target (get_or (auto_next a) a))))
        (offered e v field)
unfolding offered target get_step_index
offered_forward e v field = ground arith
