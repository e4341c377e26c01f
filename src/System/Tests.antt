-- ===== src/System/Tests.antt =====
-- The cards of the system page.
use adms_server.Common.{
  truthy, ℕ, String, ◌≡◌, refl, ◌⊎◌, true, false, ◌&&◌, none, some, List, [], ◌∷◌,
}
use adms_server.Common.Text.{trim}
use adms_server.Api.Json.{Json, null}
use adms_server.Api.Request.{JsError, Result, ok, thrown}
use adms_server.Api.Calls.Login.{LoginCall, change_password}
use adms_server.Api.Calls.Roster.{RosterCall, set_departments}
use adms_server.Auth.{MeResponse, WriteSessionStatus, auth_state}
use adms_server.Handlers.{Message}
use adms_server.I18n.English.{en}
use adms_server.I18n.Locale.{Locale}
use adms_server.I18n.Language.{translations_map}
use adms_server.System.WriteSession.{write_session_badge}
use adms_server.System.WriteSession.Laws.{says_active, badge-can_mutate}
use adms_server.System.Password.{PasswordForm, IsSound, submit_password, submit_password_lem}
use adms_server.System.Departments.{
  Departments, DepartmentEvent, up, remove, add, save, load, department_step,
}
use adms_server.System.Departments.Laws.{
  AllSaveDistinct, departments_distinct, departments_overwritten,
}

abbrev until : String
until = "2026-01-05T11:00:00Z"

abbrev session : WriteSessionStatus
session = record { active = true; expires_at = some until; opened_by_name = none; reason = none }

abbrev ann : MeResponse
ann = record {
  username = "ann";
  display_name = "Ann";
  role = "OPERATOR";
  work_session_required = true;
  write_enabled = true;
  write_session = some session;
}

abbrev time : String → ℕ
time s = 90000

badge-can_mutate_example : (auth_state (some ann) false false).can_mutate ≡ (
    (auth_state (some ann) false false).can_write
    && says_active (write_session_badge time 30000 (auth_state (some ann) false false)))
unfolding auth_state
badge-can_mutate_example = badge-can_mutate time 30000 (some ann) false false until refl refl refl

abbrev form : PasswordForm
form = record { current = "old"; next = "correct horse battery"; busy = false; msg = none }

abbrev change : LoginCall → Result ℕ
change c = ok 2

submit_password_lem_example :
    (IsSound form
      × ((submit_password (translations_map Locale.en) change form).calls
          ≡ change_password form.current form.next ∷ [])
      × (((n : ℕ) × (change (change_password form.current form.next) ≡ ok n)
            × ((submit_password (translations_map Locale.en) change form).state.current ≡ "")
            × ((submit_password (translations_map Locale.en) change form).state.next ≡ ""))
          ⊎ ((e : JsError) × (change (change_password form.current form.next) ≡ thrown e)
              × ((submit_password (translations_map Locale.en) change form).state.current
                  ≡ form.current)
              × ((submit_password (translations_map Locale.en) change form).state.next
                  ≡ form.next))))
    ⊎ ((IsSound form → ⊥)
        × ((submit_password (translations_map Locale.en) change form).calls ≡ [])
        × ((submit_password (translations_map Locale.en) change form).state.current ≡ form.current)
        × ((submit_password (translations_map Locale.en) change form).state.next ≡ form.next)
        × ((m : Message) × ((submit_password (translations_map Locale.en) change form).state.msg
              ≡ some m)
            × (m.is_ok ≡ false)
            × (truthy m.words ≡ true)))
submit_password_lem_example = submit_password_lem Locale.en change form

abbrev accept : RosterCall → Result Json
accept c = ok null

abbrev card : Departments
card = record {
  list = some ("HQ" ∷ "Supply" ∷ []);
  draft = none;
  new_name = "Signals";
  busy = false;
  msg = none;
}

abbrev edits : List DepartmentEvent
edits = add ∷ up 2 ∷ remove "HQ" ∷ save ∷ load ("Signals" ∷ "Supply" ∷ []) ∷ []

departments_distinct_example : AllSaveDistinct en accept card edits
departments_distinct_example =
    departments_distinct en accept card edits (refl, refl) (tt, (tt, (tt, (tt, (refl, tt)))))

abbrev unloaded : Departments
unloaded = record card { list = none }

departments_overwritten_example :
    (department_step en accept (department_step en accept unloaded add).state save).calls
    ≡ set_departments (trim unloaded.new_name ∷ []) ∷ []
unfolding trim
departments_overwritten_example = departments_overwritten en accept unloaded refl refl refl
