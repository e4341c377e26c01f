-- ===== src/Personnel/Offboard.antt =====
-- `OffboardPanel` of components/PersonnelLifecycle.tsx: someone leaves the unit, or comes back.
pub mod Laws
use adms_server.Common.{
  ℕ, String, Bool, true, false, not, Option, none, some, List, [], ◌∷◌, if◌then◌else◌, get_or,
  truthy, is_empty,
}
use adms_server.Common.Text.{trim}
use adms_server.Api.Request.{Result, ok, thrown}
use adms_server.Api.Calls.Roster.{
  RosterCall, deactivate_human, remove_from_scanner, reactivate_human,
}
use adms_server.I18n.Translations.{Translations}
use adms_server.Handlers.{Message, Ran, only, write_error}
use adms_server.Personnel.Roster.{RosterServer}

-- `accounts` is `accounts.data`: a device and a person's number on it, or `none` while the list is
-- not loaded and after it failed to load.
pub record OffboardPanel : Type 0 where
  pub accounts : Option (List (ℕ × String))
  pub is_open : Bool
  pub reason : String
  pub reason_error : Bool
  pub busy : Bool
  pub result : Option Message

-- `accountList`
abbrev pub account_list : OffboardPanel → List (ℕ × String)
account_list s = get_or s.accounts []

abbrev pub none_failed : Result (List String) → Bool
none_failed (ok failed) = is_empty failed
none_failed (thrown e) = false

-- `removeAccounts`: what it resolves to, and its calls.
unfoldable pub remove_accounts : RosterServer → String → OffboardPanel → Bool × List RosterCall
remove_accounts server employee_id s = if is_empty (account_list s) then (true, []) else (
  none_failed (server.remove_from_scanner employee_id),
  remove_from_scanner employee_id ∷ [],
)

-- `removed ? t.workflow.offboardDone : t.workflow.offboardPartial`
abbrev pub removal_message : Translations → Bool → Message
removal_message t removed = record {
  is_ok = removed;
  words = if removed then t.workflow.offboard_done else t.workflow.offboard_partial;
}

-- `handleOffboard`
unfoldable pub handle_offboard :
    Translations → RosterServer → String → OffboardPanel → Ran OffboardPanel RosterCall
unfolding remove_accounts
handle_offboard t server employee_id s =
    if not (truthy (trim s.reason))
    then only (record s { reason_error = true })
    else elim (server.deactivate_human employee_id (trim s.reason)) [
      | thrown e ↦ record {
        state = record s {
          busy = false;
          is_open = false;
          result = some (record { is_ok = false; words = write_error e t });
        };
        calls = deactivate_human employee_id (trim s.reason) ∷ [];
        reloads = 0;
        told = 0;
      }
      | ok r ↦ record {
        state = record s {
          result = some (removal_message t (remove_accounts server employee_id s).0);
          busy = false;
          is_open = false;
          reason = "";
        };
        calls =
            deactivate_human employee_id (trim s.reason) ∷ (remove_accounts server employee_id s).1;
        reloads = 1;
        told = 1;
      }
    ]

-- `handleRetryRemove`
unfoldable pub handle_retry_remove :
    Translations → RosterServer → String → OffboardPanel → Ran OffboardPanel RosterCall
unfolding remove_accounts
handle_retry_remove t server employee_id s =
    let removal = remove_accounts server employee_id s in
    record {
      state = record s { result = some (removal_message t removal.0); busy = false };
      calls = removal.1;
      reloads = 1;
      told = 1;
    }

-- `handleReactivate`
unfoldable pub handle_reactivate :
    Translations → RosterServer → String → OffboardPanel → Ran OffboardPanel RosterCall
handle_reactivate t server employee_id s = elim (server.reactivate_human employee_id) [
  | ok r ↦ record {
    state = record s {
      busy = false;
      result = some (record { is_ok = true; words = t.personnel.reactivate_success });
    };
    calls = reactivate_human employee_id none ∷ [];
    reloads = 0;
    told = 1;
  }
  | thrown e ↦ record {
    state = record s {
      busy = false;
      result = some (record { is_ok = false; words = write_error e t });
    };
    calls = reactivate_human employee_id none ∷ [];
    reloads = 0;
    told = 0;
  }
]

-- The buttons of the panel that are there and enabled.
pub data OffboardButton : Type 0 where
  offboard retry_remove reactivate : OffboardButton

unfoldable pub offboard_buttons : Bool → Bool → OffboardPanel → List OffboardButton
offboard_buttons active can_edit_roster s =
    if not can_edit_roster
    then []
    else if s.busy
    then []
    else if active
    then offboard ∷ []
    else if is_empty (account_list s)
    then reactivate ∷ []
    else retry_remove ∷ reactivate ∷ []
