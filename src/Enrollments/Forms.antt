-- ===== src/Enrollments/Forms.antt =====
-- The three forms of pages/Enrollments.tsx that make a call of their own: the reservation, the
-- administrator's verification and the English name.
use adms_server.Common.{
  ℕ, String, Bool, false, not, ◌&&◌, ◌||◌, Option, none, some, List, [], ◌∷◌, if◌then◌else◌,
  is_some, truthy,
}
use adms_server.Common.Text.{includes, trim}
use adms_server.Api.Json.{Json, is_text}
use adms_server.Api.Request.{JsError, client_error, unauthorized, other, Result, ok, thrown}
use adms_server.I18n.Translations.{Translations}
use adms_server.I18n.ApiErrors.{friendly_api_error}
use adms_server.Enrollments.Queue.{Enrollment}
pub mod Laws

-- A submission's outcome: the form after it, the calls made, and the answer, where the page is told
-- of a success.
pub record Submitted (F C A : Type 0) : Type 0 where
  pub form : F
  pub calls : List C
  pub told : Option A

-- `ReserveCard`; the chosen device is the number that the select's value stands for.
pub record ReserveForm : Type 0 where
  pub employee_id : String
  pub device_id : Option ℕ
  pub operator : String
  pub busy : Bool
  pub error : Option String

-- The payload of `reserveEnrollment`.
pub record Reservation : Type 0 where
  pub employee_id : String
  pub device_id : ℕ
  pub operator : String

-- The effect that chooses the first device of the list when none is chosen.
unfoldable pub choose_device : List ℕ → ReserveForm → ReserveForm
choose_device [] form = form
choose_device (d ∷ ds) form =
    if is_some form.device_id then form else record form { device_id = some d }

-- What the card says of an error; `to_lower_case` is the platform's.
unfoldable pub reserve_text : (String → String) → Translations → JsError → String
reserve_text to_lower_case t (client_error status code message) =
    if is_text code "WRITE_DISABLED" || is_text code "WRITE_SESSION_REQUIRED"
    then t.enrollment.write_session_locked_body
    else if is_text code "WRITE_SESSION_EXPIRED"
    then t.enrollment.write_session_expired_mid_workflow
    else if is_text code "ENROLLMENT_CONFLICT"
        && includes (to_lower_case message) "already has an active enrollment"
    then t.enrollment.active_enrollment_exists_body
    else friendly_api_error (client_error status code message) t
reserve_text to_lower_case t unauthorized = friendly_api_error unauthorized t
reserve_text to_lower_case t (other message) = friendly_api_error (other message) t

-- `submit`, up to the end of its promise; `serve` answers the call with the new enrollment's id.
abbrev reserve_with :
    (String → String)
    → Translations
    → (Reservation → Result ℕ)
    → ℕ
    → ReserveForm
    → Submitted ReserveForm Reservation ℕ
reserve_with to_lower_case t serve device form =
    let call : Reservation = record {
      employee_id = form.employee_id;
      device_id = device;
      operator = trim form.operator;
    } in
    elim (serve call) [
      | ok id ↦ record {
        form = record form { employee_id = ""; busy = false; error = none };
        calls = call ∷ [];
        told = some id;
      }
      | thrown e ↦ record {
        form = record form { busy = false; error = some (reserve_text to_lower_case t e) };
        calls = call ∷ [];
        told = none;
      }
    ]

abbrev refused_form : Translations → ReserveForm → Submitted ReserveForm Reservation ℕ
refused_form t form = record {
  form = record form { error = some t.enrollment.select_person_device_operator_required };
  calls = [];
  told = none;
}

unfoldable pub submit_reservation :
    (String → String)
    → Translations
    → (Reservation → Result ℕ)
    → ReserveForm
    → Submitted ReserveForm Reservation ℕ
submit_reservation to_lower_case t serve form = elim form.device_id [
  | none ↦ refused_form t form
  | some device ↦
      if not (truthy form.employee_id) || not (truthy (trim form.operator))
      then refused_form t form
      else reserve_with to_lower_case t serve device form
]

-- `InlineVerifyPane` and `EnglishNameQuickSave`: one text, and whether the call is under way.
pub record NoteForm : Type 0 where
  pub note : String
  pub busy : Bool
  pub error : Option String

-- The payload of `createMapping`.
pub record Verification : Type 0 where
  pub enrollment_id : ℕ
  pub verified_by : String
  pub verification_note : String

-- The two forms' `try`, `catch` and `finally`.
abbrev send_note :
    {C : Type 0} → Translations → (C → Result Json) → C → NoteForm → Submitted NoteForm C Json
send_note t serve call form = elim (serve call) [
  | ok r ↦ record {
    form = record form { busy = false; error = none };
    calls = call ∷ [];
    told = some r;
  }
  | thrown e ↦ record {
    form = record form { busy = false; error = some (friendly_api_error e t) };
    calls = call ∷ [];
    told = none;
  }
]

-- `verify`, with `t.workflow.exemptReasonRequired`
unfoldable pub verify :
    String
    → Translations
    → (Verification → Result Json)
    → Enrollment
    → String
    → NoteForm
    → Submitted NoteForm Verification Json
verify exempt_reason_required t serve e operator_name form =
    if not (truthy (trim form.note))
    then record {
      form = record form { error = some exempt_reason_required };
      calls = [];
      told = none;
    }
    else send_note t serve
        (record {
          enrollment_id = e.enrollment_id;
          verified_by = operator_name;
          verification_note = trim form.note;
        })
        form

-- `save`: the call is the person and the name.
unfoldable pub save_english_name :
    Translations
    → (String × String → Result Json)
    → String
    → NoteForm
    → Submitted NoteForm (String × String) Json
save_english_name t serve employee_id form =
    if not (truthy (trim form.note))
    then record { form = form; calls = []; told = none }
    else send_note t serve (employee_id, trim form.note) form
