-- ===== src/Api/Calls/Enrollments.antt =====
-- The calls of api/client.ts about enrollments.
use adms_server.Common.{ℕ, String, Option, none, some, [], ◌∷◌}
use adms_server.Common.Text.{of_ℕ, ◌+++◌}
use adms_server.Api.Json.{Json, str, object}
use adms_server.Api.Query.{Params, qs}
use adms_server.Api.Calls.Base.{Endpoint, Platform, get, send_json}

pub data EnrollmentCall : Type 0 where
  enrollments : Params → EnrollmentCall
  enrollment enrollment_next_actions : ℕ → EnrollmentCall
  reserve_enrollment : Json → EnrollmentCall
  create_terminal_account : ℕ → String → String → EnrollmentCall
  start_fingerprint_enrollment : ℕ → String → Option String → EnrollmentCall
  confirm_fingerprint_enrolled : ℕ → String → Option String → EnrollmentCall
  start_controlled_scan : ℕ → String → Option String → EnrollmentCall
  confirm_controlled_scan : ℕ → String → EnrollmentCall
  mark_ready_for_mapping : ℕ → String → Option String → EnrollmentCall
  cancel_enrollment : ℕ → String → String → EnrollmentCall

abbrev optional : Option String → Option Json
optional none = none
optional (some s) = some (str s)

abbrev enrollment_path : ℕ → String → String
enrollment_path id action = "/api/v1/enrollments/" +++ of_ℕ id +++ "/" +++ action

-- `enrollmentTransition(id, action, operator, notes)`
abbrev enrollment_transition : ℕ → String → String → Option String → Endpoint
enrollment_transition id action operator notes =
    send_json "POST" (enrollment_path id action)
      (object (("operator", some (str operator)) ∷ ("notes", optional notes) ∷ []))

unfoldable pub enrollment_endpoint : Platform → EnrollmentCall → Endpoint
enrollment_endpoint p (enrollments params) = get ("/api/v1/enrollments" +++ qs p.encode params)
enrollment_endpoint p (enrollment id) = get ("/api/v1/enrollments/" +++ of_ℕ id)
enrollment_endpoint p (enrollment_next_actions id) = get (enrollment_path id "next-actions")
enrollment_endpoint p (reserve_enrollment payload) =
    send_json "POST" "/api/v1/enrollments/reserve" payload
enrollment_endpoint p (create_terminal_account id display_name operator) =
    send_json "POST" (enrollment_path id "create-terminal-account")
      (object (("display_name", some (str display_name)) ∷ ("operator", some (str operator)) ∷ []))
enrollment_endpoint p (start_fingerprint_enrollment id operator notes) =
    enrollment_transition id "start-fingerprint-enrollment" operator notes
enrollment_endpoint p (confirm_fingerprint_enrolled id operator notes) =
    enrollment_transition id "confirm-fingerprint" operator notes
enrollment_endpoint p (start_controlled_scan id operator notes) =
    enrollment_transition id "start-controlled-scan" operator notes
enrollment_endpoint p (confirm_controlled_scan id operator) =
    send_json "POST" (enrollment_path id "confirm-controlled-scan")
      (object (("operator", some (str operator)) ∷ []))
enrollment_endpoint p (mark_ready_for_mapping id operator notes) =
    enrollment_transition id "mark-ready-for-mapping" operator notes
enrollment_endpoint p (cancel_enrollment id operator notes) =
    send_json "POST" (enrollment_path id "cancel")
      (object (("operator", some (str operator)) ∷ ("notes", some (str notes)) ∷ []))
