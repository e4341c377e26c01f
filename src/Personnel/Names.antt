-- ===== src/Personnel/Names.antt =====
-- A person's names on the scanner: `TerminalNameCard` of components/PersonnelLifecycle.tsx, and
-- `NameMismatchBar` and the English name's form of `HumanDetail` in pages/Personnel.tsx.
use adms_server.Common.{
  ℕ, String, ◌≡◌, refl, ◌⊎◌, Bool, true, false, not, ◌||◌, Option, none, some, List, [], ◌∷◌, arith,
  str_eq, ◌==◌, if◌then◌else◌, get_or, truthy, or_none, any, is_empty,
}
use adms_server.Common.Text.{trim, replace, of_ℕ}
use adms_server.Api.Json.{Json, is_text}
use adms_server.Api.Request.{JsError, client_error, unauthorized, other, Result, ok, thrown}
use adms_server.Api.Calls.Roster.{RosterCall, sync_terminal_name, sync_all_terminal_names}
use adms_server.Api.Calls.Absences.{AbsenceCall, update_human_english_name}
use adms_server.I18n.Translations.{Translations}
use adms_server.I18n.ApiErrors.{friendly_api_error}
use adms_server.Handlers.{Message, Ran, only, write_error}

-- An account of a person on a scanner.
pub record Account : Type 0 where
  pub device_user_id : String
  pub device_display_name : Option String
  pub expected_name : Option String

-- `expected`: the first account's expected name.
abbrev expected : List Account → String
expected [] = ""
expected (a ∷ more) = get_or a.expected_name ""

-- `mismatch`
unfoldable pub mismatch : List Account → Bool
mismatch accounts =
    any (λ a. not (str_eq (get_or a.device_display_name "") (expected accounts))) accounts

pub record NameCard : Type 0 where
  pub busy : Bool
  pub msg : Option Message

-- Whether the button that synchronises is enabled.
unfoldable pub sync_enabled : Bool → NameCard → List Account → Bool
sync_enabled can_mutate s accounts =
    not (not can_mutate || s.busy || not (truthy (expected accounts)))

abbrev sync_error : Translations → JsError → String
sync_error t (client_error status code message) =
    if is_text code "ENGLISH_NAME_REQUIRED"
    then t.workflow.terminal_name_needs_english
    else friendly_api_error (client_error status code message) t
sync_error t unauthorized = friendly_api_error unauthorized t
sync_error t (other message) = friendly_api_error (other message) t

-- `sync`
unfoldable pub sync_name :
    Translations → (RosterCall → Result Json) → String → NameCard → Ran NameCard RosterCall
sync_name t serve employee_id s = elim (serve (sync_terminal_name employee_id)) [
  | ok r ↦ record {
    state = record {
      busy = false;
      msg = some (record { is_ok = true; words = t.workflow.terminal_name_synced });
    };
    calls = sync_terminal_name employee_id ∷ [];
    reloads = 1;
    told = 0;
  }
  | thrown e ↦ record {
    state = record { busy = false; msg = some (record { is_ok = false; words = sync_error t e }) };
    calls = sync_terminal_name employee_id ∷ [];
    reloads = 0;
    told = 0;
  }
]

-- The answer of `syncAllTerminalNames`.
pub record Synced : Type 0 where
  pub renamed : ℕ
  pub failed : ℕ

abbrev synced_text : Translations → Synced → String
synced_text t r =
    replace (replace t.workflow.names_synced_result "{renamed}" (of_ℕ r.renamed)) "{failed}"
      (of_ℕ r.failed)

-- `syncAll`
unfoldable pub sync_all :
    Translations → (RosterCall → Result Synced) → NameCard → Ran NameCard RosterCall
sync_all t serve s = elim (serve sync_all_terminal_names) [
  | ok r ↦ record {
    state = record {
      busy = false;
      msg = some (record { is_ok = r.failed == 0; words = synced_text t r });
    };
    calls = sync_all_terminal_names ∷ [];
    reloads = 1;
    told = 0;
  }
  | thrown e ↦ record {
    state = record {
      busy = false;
      msg = some (record { is_ok = false; words = friendly_api_error e t });
    };
    calls = sync_all_terminal_names ∷ [];
    reloads = 0;
    told = 0;
  }
]

-- The English name's form of `HumanDetail`.
pub record EnglishForm : Type 0 where
  pub editing_english : Bool
  pub english_input : String
  pub save_busy : Bool
  pub save_error : Option String
  pub save_success : Bool

-- `startEdit`, at the person's name
unfoldable pub start_edit : Option String → EnglishForm → EnglishForm
start_edit english_name s = record s {
  english_input = get_or english_name "";
  editing_english = true;
  save_error = none;
  save_success = false;
}

-- `handleSaveEnglish`; an empty path gives no person.
unfoldable pub handle_save_english :
    Translations → (AbsenceCall → Result Json) → String → EnglishForm → Ran EnglishForm AbsenceCall
handle_save_english t serve employee_id s =
    let call = update_human_english_name employee_id (or_none (trim s.english_input)) in
    if not (truthy employee_id) then only s else elim (serve call) [
      | ok r ↦ record {
        state = record s {
          save_busy = false;
          save_error = none;
          save_success = true;
          editing_english = false;
        };
        calls = call ∷ [];
        reloads = 1;
        told = 0;
      }
      | thrown e ↦ record {
        state = record s { save_busy = false; save_error = some (write_error e t) };
        calls = call ∷ [];
        reloads = 0;
        told = 0;
      }
    ]

-- A mismatch is reported only where the person has an account.
mismatch_no_account :
    (accounts : List Account) → mismatch accounts ≡ true → is_empty accounts ≡ false
unfolding mismatch
mismatch_no_account [] h = cc
mismatch_no_account (a ∷ more) h = refl

-- Editing an English name and saving it as it is sends the person's name again, trimmed, or none; the
-- form stays open with its text exactly if the server refuses it.
save_english_lem :
    (t : Translations) (serve : AbsenceCall → Result Json) (id : String) (name : Option String)
    (s : EnglishForm)
    → truthy id ≡ true
    → let out = handle_save_english t serve id (start_edit name s) in
      (out.calls ≡ update_human_english_name id (or_none (trim (get_or name ""))) ∷ [])
      × (out.state.save_busy ≡ false)
      × (((out.reloads ≡ 1) × (out.state.editing_english ≡ false) × (out.state.save_success ≡ true))
          ⊎ ((out.reloads ≡ 0)
              × (out.state.editing_english ≡ true)
              × (out.state.save_success ≡ false)))
unfolding handle_save_english start_edit
save_english_lem t serve id name s there = ground arith
