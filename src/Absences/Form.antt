-- ===== src/Absences/Form.antt =====
-- `AbsenceForm` of pages/Absences.tsx, and what `absenceError` says of an error. A date is a text
-- YYYY-MM-DD, empty for none.
pub mod Laws
use Prim.Native.String.{compare}
use text.Mathlib.Text.{is_lt}
use adms_server.Common.{
  ℕ, String, Bool, true, false, not, ◌&&◌, ◌||◌, Option, none, some, List, [], ◌∷◌, if◌then◌else◌,
  find, str_eq, truthy, or_none,
}
use adms_server.Common.Text.{trim}
use adms_server.Api.Json.{Json, is_text}
use adms_server.Api.Request.{JsError, client_error, unauthorized, other, Result, ok, thrown}
use adms_server.I18n.Translations.{Translations}
use adms_server.I18n.ApiErrors.{friendly_api_error}
use adms_server.Handlers.{Message}

unfoldable pub absence_error : JsError → Translations → String
absence_error (client_error status code message) t =
    if is_text code "ABSENCE_OVERLAP"
    then t.leave.overlap
    else if is_text code "WRITE_DISABLED"
        || is_text code "WRITE_SESSION_REQUIRED"
        || is_text code "WRITE_SESSION_EXPIRED"
    then t.personnel.writes_disabled_notice
    else friendly_api_error (client_error status code message) t
absence_error unauthorized t = friendly_api_error unauthorized t
absence_error (other message) t = friendly_api_error (other message) t

-- `a < b` of two texts; on the digits and hyphens of dates the order of code points is JavaScript's.
abbrev pub before : String → String → Bool
before a b = is_lt (compare a b)

pub record AbsenceType : Type 0 where
  pub code : String
  pub counts_as : String
  pub requires_order_ref : Bool

pub record AbsenceForm : Type 0 where
  pub employee_id : String
  pub type_code : String
  pub start_date : String
  pub end_date : String
  pub order_ref : String
  pub destination : String
  pub note : String
  pub busy : Bool
  pub msg : Option Message

-- The payload of `createAbsence`.
pub record Absence : Type 0 where
  pub employee_id : String
  pub type_code : String
  pub start_date : String
  pub end_date : String
  pub order_ref : Option String
  pub destination : Option String
  pub note : Option String

-- Choosing the first day moves the last day with it.
unfoldable pub set_start : String → AbsenceForm → AbsenceForm
set_start day form = record form {
  start_date = day;
  end_date = if before form.end_date day then day else form.end_date;
}

abbrev pub selected_type : List AbsenceType → AbsenceForm → Option AbsenceType
selected_type types form = find (λ x. str_eq x.code form.type_code) types

abbrev pub requires_order : Option AbsenceType → Bool
requires_order none = false
requires_order (some x) = x.requires_order_ref

abbrev pub is_duty : Option AbsenceType → Bool
is_duty none = false
is_duty (some x) = str_eq x.counts_as "DUTY"

-- The payload that a form is sent with.
abbrev pub absence_of : Option AbsenceType → AbsenceForm → Absence
absence_of chosen form = record {
  employee_id = form.employee_id;
  type_code = form.type_code;
  start_date = form.start_date;
  end_date = form.end_date;
  order_ref = or_none (trim form.order_ref);
  destination = if is_duty chosen then or_none (trim form.destination) else none;
  note = or_none (trim form.note);
}

-- A submission: the form after it, the payloads sent, and how often `onSaved` is called.
pub record Saved : Type 0 where
  pub form : AbsenceForm
  pub sent : List Absence
  pub saved : ℕ

abbrev not_sent : String → AbsenceForm → Saved
not_sent reason form = record {
  form = record form { msg = some (record { is_ok = false; words = reason }) };
  sent = [];
  saved = 0;
}

abbrev pub settled : Translations → Absence → AbsenceForm → Result Json → Saved
settled t a form (ok r) = record {
  form = record form {
    employee_id = "";
    order_ref = "";
    destination = "";
    note = "";
    busy = false;
    msg = some (record { is_ok = true; words = t.leave.saved });
  };
  sent = a ∷ [];
  saved = 1;
}
settled t a form (thrown e) = record {
  form = record form {
    busy = false;
    msg = some (record { is_ok = false; words = absence_error e t });
  };
  sent = a ∷ [];
  saved = 0;
}

-- The two tests of `submit`.
abbrev pub incomplete : AbsenceForm → Bool
incomplete form =
    not (truthy form.employee_id)
    || not (truthy form.start_date)
    || not (truthy form.end_date)
    || before form.end_date form.start_date

abbrev pub lacks_order : Option AbsenceType → AbsenceForm → Bool
lacks_order chosen form = requires_order chosen && not (truthy (trim form.order_ref))

unfoldable pub submit_absence :
    Translations → (Absence → Result Json) → List AbsenceType → AbsenceForm → Saved
submit_absence t serve types form =
    let chosen = selected_type types form in
    if incomplete form
    then not_sent t.leave.select_person_required form
    else if lacks_order chosen form
    then not_sent t.leave.order_ref_required form
    else settled t (absence_of chosen form) form (serve (absence_of chosen form))
