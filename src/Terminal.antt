-- ===== src/Terminal.antt =====
-- pages/TerminalManagement.tsx: the terminal's accounts and fingerprints, with the three dialogs, and
-- the poll that follows a re-enrollment.
pub mod Page
pub mod Laws
pub mod Dialogs
mod Tests
unfoldable pub use Page.*
use adms_server.Common.{
  filter, ℕ, suc, String, Bool, true, false, not, ◌&&◌, ◌||◌, none, some, List, [], ◌∷◌, str_eq,
  ◌==◌, if◌then◌else◌, get_or,
}
use adms_server.Api.Json.{Json, is_text}
use adms_server.Api.Request.{JsError, client_error, unauthorized, other, Result, ok, thrown}
use adms_server.Api.Calls.Admin.{
  TerminalCall, remove_terminal_fingerprint, remove_terminal_account, start_fingerprint_reenroll,
  fingerprint_reenroll_status,
}
use adms_server.I18n.Translations.{Translations}
use adms_server.I18n.ApiErrors.{friendly_api_error}

abbrev device_id : ℕ
device_id = 1

-- `friendlyError`
unfoldable pub terminal_error : Translations → JsError → String
terminal_error t (client_error status code message) =
    if is_text code "DEVICE_UNAVAILABLE"
    then t.terminal_management.device_unreachable
    else if is_text code "ACTIVE_HUMAN_PROTECTION"
    then t.terminal_management.remove_account_active_warning
    else if is_text code "WRITE_SESSION_REQUIRED" || is_text code "WRITE_DISABLED"
    then t.enrollment.write_session_locked_body
    else if is_text code "WRITE_SESSION_EXPIRED"
    then t.enrollment.write_session_expired_mid_workflow
    else friendly_api_error (client_error status code message) t
terminal_error t unauthorized = friendly_api_error unauthorized t
terminal_error t (other message) = friendly_api_error (other message) t

-- What the server answers to a removal: whether the thing was already absent.
pub record TerminalServer : Type 0 where
  pub remove_fingerprint : String → String → Result Bool
  pub remove_account : String → String → Bool → Result Bool

abbrev quiet : TerminalPage → TerminalRan
quiet s = record { page = s; calls = [] }

abbrev removed_text : Bool → String → String → String
removed_text already_absent absent success = if already_absent then absent else success

abbrev fingerprint_removed : Translations → TerminalPage → Result Bool → TerminalPage
fingerprint_removed t s (ok already_absent) = record s {
  action_error = none;
  action_success = some (
      removed_text already_absent t.terminal_management.already_absent_notice
        t.terminal_management.fingerprint_remove_success);
  fp_item = none;
  busy_item = none;
  reloads = suc s.reloads;
}
fingerprint_removed t s (thrown e) = record s {
  action_error = some (terminal_error t e);
  fp_item = none;
  busy_item = none;
}

-- `handleRemoveFingerprint`
unfoldable pub handle_remove_fingerprint :
    Translations → TerminalServer → String → TerminalPage → TerminalRan
unfolding terminal_error
handle_remove_fingerprint t server operator s = elim s.fp_item [
  | none ↦ quiet s
  | some i ↦ record {
    page = fingerprint_removed t s (server.remove_fingerprint i.device_user_id operator);
    calls = remove_terminal_fingerprint device_id i.device_user_id operator none ∷ [];
  }
]

-- Whether an error is the protection of an active person.
abbrev pub is_protection : JsError → Bool
is_protection (client_error status code message) = is_text code "ACTIVE_HUMAN_PROTECTION"
is_protection unauthorized = false
is_protection (other message) = false

abbrev account_removed : Translations → TerminalPage → Result Bool → TerminalPage
account_removed t s (ok already_absent) = record s {
  action_error = none;
  action_success = some (
      removed_text already_absent t.terminal_management.already_absent_notice
        t.terminal_management.account_remove_success);
  acct_item = none;
  acknowledge = false;
  busy_item = none;
  reloads = suc s.reloads;
}
account_removed t s (thrown e) = record s {
  action_error = some (terminal_error t e);
  acct_item = if is_protection e then s.acct_item else none;
  busy_item = none;
}

-- `handleRemoveAccount`
unfoldable pub handle_remove_account :
    Translations → TerminalServer → String → TerminalPage → TerminalRan
unfolding terminal_error
handle_remove_account t server operator s = elim s.acct_item [
  | none ↦ quiet s
  | some i ↦ record {
    page = account_removed t s (server.remove_account i.device_user_id operator s.acknowledge);
    calls = remove_terminal_account device_id i.device_user_id operator s.acknowledge ∷ [];
  }
]

-- `handleStartReenroll` up to its call
unfoldable pub handle_start_reenroll : String → TerminalPage → TerminalRan
handle_start_reenroll operator s = elim s.reenroll_item [
  | none ↦ quiet s
  | some i ↦ record {
    page = record s {
      busy_item = some i.device_user_id;
      action_error = none;
      reenroll_status = pending;
    };
    calls = start_fingerprint_reenroll i.device_user_id operator ∷ [];
  }
]

-- The rest of `handleStartReenroll`, after the answer.
unfoldable pub on_start_answer : Translations → String → Result Json → TerminalPage → TerminalPage
unfolding terminal_error
on_start_answer t id (ok r) s = record s {
  intervals = (s.timers, id) ∷ s.intervals;
  timers = suc s.timers;
  poll_ref = some s.timers;
}
on_start_answer t id (thrown e) s = record s {
  action_error = some (terminal_error t e);
  reenroll_status = idle;
  busy_item = none;
  reenroll_item = none;
}

-- `if (pollRef.current) window.clearInterval(pollRef.current)`
abbrev pub cleared : TerminalPage → List (ℕ × String)
cleared s = elim s.poll_ref [
  | none ↦ s.intervals
  | some n ↦ filter (λ x. not (x.0 == n)) s.intervals
]

-- The interval's callback after its answer.
unfoldable pub on_poll_answer : Translations → Result String → TerminalPage → TerminalPage
on_poll_answer t (thrown e) s = s
on_poll_answer t (ok state) s =
    if str_eq state "confirmed"
    then record s {
      intervals = cleared s;
      reenroll_status = confirmed;
      busy_item = none;
      action_success = some t.terminal_management.reenroll_success;
      reloads = suc s.reloads;
    }
    else if str_eq state "failed"
    then record s {
      intervals = cleared s;
      reenroll_status = failed;
      busy_item = none;
      action_success = none;
      action_error = some t.terminal_management.reenroll_failed;
      reloads = suc s.reloads;
    }
    else s

-- The call of an interval that fires, if it is set.
abbrev poll_calls : ℕ → List (ℕ × String) → List TerminalCall
poll_calls n [] = []
poll_calls n ((m, id) ∷ xs) =
    let rest = poll_calls n xs in if m == n then fingerprint_reenroll_status id ∷ [] else rest

abbrev is_idle : ReenrollStatus → Bool
is_idle idle = true
is_idle pending = false
is_idle confirmed = false
is_idle failed = false

-- An event; `operator` is `me?.username ?? "operator"`.
unfoldable pub terminal_step :
    Translations → TerminalServer → String → TerminalPage → TerminalEvent → TerminalRan
unfolding handle_remove_fingerprint handle_remove_account handle_start_reenroll on_start_answer
    on_poll_answer
terminal_step t server operator s (open_fingerprint i) = quiet (record s { fp_item = some i })
terminal_step t server operator s (open_account i) =
    quiet (record s { acct_item = some i; acknowledge = false })
terminal_step t server operator s (open_reenroll i) =
    quiet (record s { reenroll_item = some i; reenroll_status = idle })
terminal_step t server operator s cancel_fingerprint = quiet (record s { fp_item = none })
terminal_step t server operator s cancel_account =
    quiet (record s { acct_item = none; acknowledge = false })
terminal_step t server operator s cancel_reenroll =
    quiet (if is_idle s.reenroll_status then record s { reenroll_item = none } else s)
terminal_step t server operator s (tick v) = quiet (record s { acknowledge = v })
terminal_step t server operator s remove_fingerprint = handle_remove_fingerprint t server operator s
terminal_step t server operator s remove_account = handle_remove_account t server operator s
terminal_step t server operator s start_reenroll = handle_start_reenroll operator s
terminal_step t server operator s (start_answer id r) = quiet (on_start_answer t id r s)
terminal_step t server operator s (poll n) = record { page = s; calls = poll_calls n s.intervals }
terminal_step t server operator s (poll_answer r) = quiet (on_poll_answer t r s)
terminal_step t server operator s leave = quiet (record s { intervals = cleared s })

unfoldable pub terminal_run :
    Translations → TerminalServer → String → TerminalPage → List TerminalEvent → TerminalPage
terminal_run t server operator s [] = s
terminal_run t server operator s (e ∷ es) =
    terminal_run t server operator (terminal_step t server operator s e).page es

-- `busyItem === id`
abbrev is_busy : TerminalPage → String → Bool
is_busy s id = elim s.busy_item [ none ↦ false | some b ↦ str_eq b id ]

-- The three buttons of a row: whether the re-enrollment and the removal of the account, and whether
-- the removal of the fingerprint, are enabled.
unfoldable pub row_enabled : Bool → TerminalPage → InventoryItem → Bool
row_enabled can_mutate s i = can_mutate && not (is_busy s i.device_user_id)

unfoldable pub fingerprint_enabled : Bool → TerminalPage → InventoryItem → Bool
unfolding row_enabled
fingerprint_enabled can_mutate s i =
    row_enabled can_mutate s i && not (get_or i.fingerprint_count 1 == 0)
