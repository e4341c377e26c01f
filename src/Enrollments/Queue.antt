-- ===== src/Enrollments/Queue.antt =====
-- The list of enrollments, its split into active and past ones, and the selection.
pub mod Laws
use adms_server.Common.{
  ℕ, String, Bool, not, Option, none, some, List, [], ◌∷◌, filter, find, if◌then◌else◌, str_eq,
  ◌==◌, ◌||◌,
}
use adms_server.TerminalName.{RankMetadata}

-- The members of the API's `Enrollment` that the page reads.
pub record Enrollment : Type 0 where
  pub enrollment_id : ℕ
  pub employee_id : String
  pub employee_name : Option String
  pub english_name : Option String
  pub rank_metadata : Option RankMetadata
  pub status : String
  pub lifecycle_state : String
  pub reserved_device_user_id : String

-- `getStepIndex`; `none` is -1.
unfoldable pub get_step_index : String → Option ℕ
get_step_index status =
    if str_eq status "RESERVED"
    then some 0
    else if str_eq status "TERMINAL_ACCOUNT_CREATED"
        || str_eq status "FINGERPRINT_ENROLLMENT_PENDING"
    then some 1
    else if str_eq status "FINGERPRINT_ENROLLED"
        || str_eq status "CONTROLLED_SCAN_PENDING"
        || str_eq status "CONTROLLED_SCAN_CONFIRMED"
    then some 2
    else if str_eq status "READY_FOR_MAPPING"
    then some 3
    else if str_eq status "RETIRED"
    then some 4
    else if str_eq status "CANCELLED"
    then none
    else some 0

abbrev pub is_in_progress : Enrollment → Bool
is_in_progress e = str_eq e.lifecycle_state "IN_PROGRESS"

unfoldable pub active_items : List Enrollment → List Enrollment
active_items = filter is_in_progress

unfoldable pub history_items : List Enrollment → List Enrollment
history_items = filter (λ e. not (is_in_progress e))

abbrev first_id : List Enrollment → Option ℕ
first_id [] = none
first_id (e ∷ es) = some e.enrollment_id

-- The effect that selects the first active enrollment when none is selected.
unfoldable pub auto_select : List Enrollment → Option ℕ → Option ℕ
unfolding active_items
auto_select items none = first_id (active_items items)
auto_select items (some id) = some id

-- The enrollment that the inspector shows.
abbrev pub shown : List Enrollment → Option ℕ → Option Enrollment
shown items none = none
shown items (some id) = find (λ e. e.enrollment_id == id) items

unfoldable pub selected : List Enrollment → Option ℕ → Option Enrollment
selected items id = shown items id
