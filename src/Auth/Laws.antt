-- ===== src/Auth/Laws.antt =====
-- What each role may do in the interface.
use adms_server.Common.{String, Bool, true, false, none, ◌≡◌, refl, ◌↔◌, ◌⊎◌}
use adms_server.Auth.{MeResponse, AuthState, is_active, auth_state}

-- The roles that app/api/auth.py lists in ROLES_ENROLLMENT_MUTATE, ROLES_OPERATOR_PLUS and
-- ROLES_ADMIN_ONLY.
abbrev IsWriter : String → Type 0
IsWriter role = (role ≡ "ENROLLMENT_OPERATOR") ⊎ (role ≡ "OPERATOR") ⊎ (role ≡ "ADMIN")

abbrev IsManager : String → Type 0
IsManager role = (role ≡ "OPERATOR") ⊎ (role ≡ "ADMIN")

-- What a known user may do.
pub record Grants (s : AuthState) (m : MeResponse) : Type 0 where
  pub mutate : (s.can_mutate ≡ true) ↔ (
      IsWriter m.role
      × (m.write_enabled ≡ true)
      × ((is_active m.write_session ≡ true) ⊎ (m.work_session_required ≡ false)))
  pub edit_roster : (s.can_edit_roster ≡ true) ↔ (IsWriter m.role × (m.write_enabled ≡ true))
  -- the roles that the server's list for the roster leaves out
  pub edit_beyond :
      ((s.can_edit_roster ≡ true) × (IsManager m.role → ⊥))
      ↔ ((m.role ≡ "ENROLLMENT_OPERATOR") × (m.write_enabled ≡ true))
  pub enroll : (s.can_enroll ≡ true) ↔ IsWriter m.role
  pub open_session : (s.can_open_work_session ≡ true) ↔ IsManager m.role
  pub record_absence : (s.can_record_absence ≡ true) ↔ IsManager m.role
  pub manage_personnel : (s.can_manage_personnel ≡ true) ↔ IsManager m.role
  pub verify_identity : (s.can_verify_identity ≡ true) ↔ (m.role ≡ "ADMIN")
  pub manage_terminal : (s.can_manage_terminal ≡ true) ↔ (m.role ≡ "ADMIN")
  pub manage_operators : (s.can_manage_operators ≡ true) ↔ (m.role ≡ "ADMIN")

-- The capabilities that an interface with no known user must not offer.
pub record GrantsNone (s : AuthState) : Type 0 where
  pub mutate : s.can_mutate ≡ false
  pub edit_roster : s.can_edit_roster ≡ false
  pub enroll : s.can_enroll ≡ false
  pub open_session : s.can_open_work_session ≡ false
  pub record_absence : s.can_record_absence ≡ false
  pub manage_personnel : s.can_manage_personnel ≡ false
  pub verify_identity : s.can_verify_identity ≡ false
  pub manage_terminal : s.can_manage_terminal ≡ false
  pub manage_operators : s.can_manage_operators ≡ false

-- While the user is unknown, nothing is offered.
auth_state-GrantsNone :
    (loading auth_error : Bool) → GrantsNone (auth_state none loading auth_error)
unfolding auth_state
auth_state-GrantsNone loading auth_error = record {
  mutate = refl;
  edit_roster = refl;
  enroll = refl;
  open_session = refl;
  record_absence = refl;
  manage_personnel = refl;
  verify_identity = refl;
  manage_terminal = refl;
  manage_operators = refl;
}
