-- ===== src/Enrollments/Transitions.antt =====
-- The server's table of the changes of an enrollment's status (`ALLOWED_TRANSITIONS` of
-- app/enrollment.py) and the status that each action asks for (`ENROLLMENT_ACTIONS` there).
use adms_server.Common.{String, Bool, List, [], ◌∷◌, if◌then◌else◌, any, str_eq}
use adms_server.Enrollments.Workspace.Messages.{
  Action, create_account, start_fingerprint, confirm_fingerprint, start_scan, confirm_scan,
  mark_ready, cancel,
}

unfoldable pub allowed_transitions : String → List String
allowed_transitions status =
    if str_eq status "RESERVED"
    then "TERMINAL_ACCOUNT_CREATED" ∷ "CANCELLED" ∷ []
    else if str_eq status "TERMINAL_ACCOUNT_CREATED"
    then "FINGERPRINT_ENROLLMENT_PENDING" ∷ "FINGERPRINT_ENROLLED" ∷ "CANCELLED" ∷ []
    else if str_eq status "FINGERPRINT_ENROLLMENT_PENDING"
    then "FINGERPRINT_ENROLLED" ∷ "CANCELLED" ∷ []
    else if str_eq status "FINGERPRINT_ENROLLED"
    then "CONTROLLED_SCAN_PENDING" ∷ "CANCELLED" ∷ []
    else if str_eq status "CONTROLLED_SCAN_PENDING"
    then "CONTROLLED_SCAN_PENDING" ∷ "CONTROLLED_SCAN_CONFIRMED" ∷ "CANCELLED" ∷ []
    else if str_eq status "CONTROLLED_SCAN_CONFIRMED"
    then "READY_FOR_MAPPING" ∷ "CANCELLED" ∷ "RETIRED" ∷ []
    else if str_eq status "READY_FOR_MAPPING"
    then "RETIRED" ∷ []
    else []

-- The keys of the table.
abbrev pub statuses : List String
statuses =
    "RESERVED" ∷ "TERMINAL_ACCOUNT_CREATED" ∷ "FINGERPRINT_ENROLLMENT_PENDING"
    ∷ "FINGERPRINT_ENROLLED" ∷ "CONTROLLED_SCAN_PENDING" ∷ "CONTROLLED_SCAN_CONFIRMED"
    ∷ "READY_FOR_MAPPING" ∷ "CANCELLED" ∷ "RETIRED" ∷ []

-- `validate_status_transition`
unfoldable pub validate_status_transition : String → String → Bool
unfolding allowed_transitions
validate_status_transition current target = any (str_eq target) (allowed_transitions current)

-- The status that an action asks for.
unfoldable pub target : Action → String
target (create_account display_name) = "TERMINAL_ACCOUNT_CREATED"
target start_fingerprint = "FINGERPRINT_ENROLLMENT_PENDING"
target confirm_fingerprint = "FINGERPRINT_ENROLLED"
target start_scan = "CONTROLLED_SCAN_PENDING"
target confirm_scan = "CONTROLLED_SCAN_CONFIRMED"
target mark_ready = "READY_FOR_MAPPING"
target (cancel notes) = "CANCELLED"
