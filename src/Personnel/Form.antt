-- ===== src/Personnel/Form.antt =====
-- components/PersonnelFormModal.tsx: the form that adds a person and edits one.
pub mod Laws
use adms_server.Common.{
  String, Bool, true, false, not, Option, none, some, List, [], ◌∷◌, if◌then◌else◌, get_or, truthy,
  or_none,
}
use adms_server.Common.Text.{trim}
use adms_server.Api.Json.{Json, str, object, nullable, is_text}
use adms_server.Api.Request.{JsError, client_error, unauthorized, other, Result, ok, thrown}
use adms_server.Api.Calls.Login.{HumanCall, create_human, update_human}
use adms_server.I18n.Translations.{Translations}
use adms_server.Handlers.{write_error}
use adms_server.Personnel.Roster.{Human}

-- `mode`, and the person that an edit is given.
pub data Mode : Type 0 where
  create : Mode
  edit : Option Human → Mode

pub record PersonnelForm : Type 0 where
  pub display_name : String
  pub rank : String
  pub english_name : String
  pub personnel_id : String
  pub branch : String
  pub category : String
  pub position : String
  pub busy : Bool
  pub error : Option String
  pub just_created : Option Human

abbrev form_of : (Human → Option String) → Option Human → String
form_of field none = ""
form_of field (some h) = get_or (field h) ""

-- The form as it opens.
unfoldable pub form_start : Option Human → PersonnelForm
form_start human = record {
  display_name = form_of (λ h. some h.display_name) human;
  rank = form_of (λ h. h.rank) human;
  english_name = form_of (λ h. h.english_name) human;
  personnel_id = form_of (λ h. h.personnel_id) human;
  branch = form_of (λ h. h.branch) human;
  category = form_of (λ h. h.category) human;
  position = form_of (λ h. h.position) human;
  busy = false;
  error = none;
  just_created = none;
}

abbrev as_text : Option String → Option Json
as_text none = none
as_text (some s) = some (str s)

-- `s || undefined`
abbrev pub or_undefined : String → Option Json
or_undefined s = as_text (or_none s)

-- `s || null`
abbrev pub or_null : String → Option Json
or_null s = some (nullable (or_none s))

-- The seven members of both payloads; `optional` says what is sent for a field.
abbrev pub payload_members : (String → Option Json) → PersonnelForm → List (String × Option Json)
payload_members optional form =
    ("display_name", some (str (trim form.display_name)))
    ∷ ("rank", optional form.rank)
    ∷ ("english_name", optional (trim form.english_name))
    ∷ ("personnel_id", optional (trim form.personnel_id))
    ∷ ("branch", optional (trim form.branch))
    ∷ ("category", optional (trim form.category))
    ∷ ("position", optional (trim form.position))
    ∷ []

unfoldable pub personnel_error : Translations → JsError → String
personnel_error t (client_error status code message) =
    if is_text code "PERSONNEL_DUPLICATE"
    then t.personnel.duplicate_personnel_id_body
    else write_error (client_error status code message) t
personnel_error t unauthorized = write_error unauthorized t
personnel_error t (other message) = write_error (other message) t

-- A submission: the form, the calls, the person given to `onSaved`, and whether `onClose` is called.
pub record Submission : Type 0 where
  pub form : PersonnelForm
  pub calls : List HumanCall
  pub saved : Option Human
  pub closes : Bool

-- The call that a form is sent with.
unfoldable pub call_of_form : Mode → PersonnelForm → Option HumanCall
call_of_form create form = some (create_human (object (payload_members or_undefined form)))
call_of_form (edit none) form = none
call_of_form (edit (some h)) form =
    some (update_human h.employee_id (object (payload_members or_null form)))

-- What a mode does with the answer.
abbrev pub accepted : Mode → HumanCall → PersonnelForm → Human → Submission
accepted create call form h = record {
  form = record form { busy = false; error = none; just_created = some h };
  calls = call ∷ [];
  saved = some h;
  closes = false;
}
accepted (edit who) call form h = record {
  form = record form { busy = false; error = none };
  calls = call ∷ [];
  saved = some h;
  closes = true;
}

abbrev pub settled : Translations → Mode → PersonnelForm → HumanCall → Result Human → Submission
settled t mode form call (ok h) = accepted mode call form h
settled t mode form call (thrown e) = record {
  form = record form { busy = false; error = some (personnel_error t e) };
  calls = call ∷ [];
  saved = none;
  closes = false;
}

-- `submit`
unfoldable pub submit_person :
    Translations → (HumanCall → Result Human) → Mode → PersonnelForm → Submission
unfolding call_of_form
submit_person t serve mode form =
    if not (truthy (trim form.display_name))
    then record {
      form = record form { error = some t.personnel.display_name_required };
      calls = [];
      saved = none;
      closes = false;
    }
    else elim (call_of_form mode form) [
      | none ↦ record {
        form = record form { busy = false; error = none };
        calls = [];
        saved = none;
        closes = false;
      }
      | some call ↦ settled t mode form call (serve call)
    ]
