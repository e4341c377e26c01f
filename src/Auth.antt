-- ===== src/Auth.antt =====
-- auth.tsx of the frontend: who is logged in and what the interface lets them do. The functions of
-- the context that change nothing here (`reload`) are not among the fields.
pub mod Laws
pub mod Provider
mod Tests
use adms_server.Common.{
  String, Bool, true, false, not, ◌&&◌, ◌||◌, Option, none, some, List, [], ◌∷◌, any, str_eq,
}

-- The members of the API's `WriteSessionStatus` that the frontend reads.
pub record WriteSessionStatus : Type 0 where
  pub active : Bool
  pub expires_at : Option String
  pub opened_by_name : Option String
  pub reason : Option String

pub record MeResponse : Type 0 where
  pub username : String
  pub display_name : String
  pub role : String
  pub work_session_required : Bool
  pub write_enabled : Bool
  pub write_session : Option WriteSessionStatus

pub record AuthState : Type 0 where
  pub me : Option MeResponse
  pub loading : Bool
  pub auth_error : Bool
  pub can_write : Bool
  pub server_write_enabled : Bool
  pub write_session : Option WriteSessionStatus
  pub write_session_active : Bool
  pub work_session_required : Bool
  pub can_mutate : Bool
  pub is_admin : Bool
  pub can_open_work_session : Bool
  pub can_record_absence : Bool
  pub can_edit_roster : Bool
  pub can_enroll : Bool
  pub can_verify_identity : Bool
  pub can_manage_personnel : Bool
  pub can_manage_terminal : Bool
  pub can_manage_operators : Bool

-- `WRITE_CAPABLE_ROLES.has(role)`
abbrev pub has : String → List String → Bool
has role roles = any (λ r. str_eq r role) roles

abbrev pub write_capable_roles : List String
write_capable_roles = "ENROLLMENT_OPERATOR" ∷ "OPERATOR" ∷ "ADMIN" ∷ []

-- `me?.write_session ?? null`
abbrev pub session_of : Option MeResponse → Option WriteSessionStatus
session_of none = none
session_of (some me) = me.write_session

-- `writeSession?.active ?? false`
abbrev pub is_active : Option WriteSessionStatus → Bool
is_active none = false
is_active (some w) = w.active

-- `me?.role ?? ""`
abbrev pub role_of : Option MeResponse → String
role_of none = ""
role_of (some me) = me.role

-- `me?.write_enabled ?? false`
abbrev write_enabled_of : Option MeResponse → Bool
write_enabled_of none = false
write_enabled_of (some me) = me.write_enabled

-- `me?.work_session_required ?? true`
abbrev session_required_of : Option MeResponse → Bool
session_required_of none = true
session_required_of (some me) = me.work_session_required

-- The context's value, from the provider's state.
unfoldable pub auth_state : Option MeResponse → Bool → Bool → AuthState
auth_state me loading auth_error =
    let role = role_of me in
    let can_write = has role write_capable_roles in
    let server_write_enabled = write_enabled_of me in
    let write_session_active = is_active (session_of me) in
    let work_session_required = session_required_of me in
    let is_admin = str_eq role "ADMIN" in
    let is_operator_or_admin = str_eq role "OPERATOR" || str_eq role "ADMIN" in
    record {
      me = me;
      loading = loading;
      auth_error = auth_error;
      can_write = can_write;
      server_write_enabled = server_write_enabled;
      write_session = session_of me;
      write_session_active = write_session_active;
      work_session_required = work_session_required;
      can_mutate =
          can_write && server_write_enabled && (write_session_active || not work_session_required);
      is_admin = is_admin;
      can_open_work_session = is_operator_or_admin;
      can_record_absence = is_operator_or_admin;
      can_edit_roster = can_write && server_write_enabled;
      can_enroll = can_write;
      can_verify_identity = is_admin;
      can_manage_personnel = is_operator_or_admin;
      can_manage_terminal = is_admin;
      can_manage_operators = is_admin;
    }
