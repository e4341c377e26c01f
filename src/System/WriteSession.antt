-- ===== src/System/WriteSession.antt =====
-- components/WriteSessionControl.tsx: the badge in the header, and the card that opens and closes the
-- write session. A time is a number of milliseconds; `new Date(…).getTime()` is the parameter `time`.
pub mod Laws
use adms_server.Common.{
  ℕ, ◌-◌, ◌/◌, ◌%◌, String, Bool, false, not, ◌&&◌, Option, none, some, [], ◌∷◌, ltb, leb,
  if◌then◌else◌, truthy,
}
use adms_server.Common.Text.{trim, of_ℕ, ◌+++◌}
use adms_server.Api.Json.{Json, is_text}
use adms_server.Api.Request.{JsError, client_error, unauthorized, other, Result, ok, thrown}
use adms_server.Api.Calls.Admin.{AdminCall, open_write_session, close_write_session}
use adms_server.Auth.{AuthState, WriteSessionStatus}
use adms_server.I18n.Translations.{Translations}
use adms_server.Handlers.{Ran, only}

-- `n.toString().padStart(2, "0")`
abbrev pad2 : ℕ → String
pad2 n = if ltb n 10 then "0" +++ of_ℕ n else of_ℕ n

-- `formatRemaining`
unfoldable pub format_remaining : (String → ℕ) → String → ℕ → String
format_remaining time expires_at now =
    if leb (time expires_at) now
    then "00:00"
    else let total_seconds = (time expires_at - now) / 1000 in
      pad2 (total_seconds / 60) +++ ":" +++ pad2 (total_seconds % 60)

-- What the badge shows: nothing, or that changes are enabled and for how long, or that they are not.
pub data Badge : Type 0 where
  no_badge locked : Badge
  active : String → Badge

-- `writeSession?.expires_at`
abbrev pub expires_at_of : Option WriteSessionStatus → Option String
expires_at_of none = none
expires_at_of (some w) = w.expires_at

abbrev active_badge : (String → ℕ) → ℕ → Option String → Badge
active_badge time now none = locked
active_badge time now (some at) =
    if truthy at then active (format_remaining time at now) else locked

unfoldable pub write_session_badge : (String → ℕ) → ℕ → AuthState → Badge
unfolding format_remaining
write_session_badge time now a =
    if not a.work_session_required
    then no_badge
    else if a.server_write_enabled && a.write_session_active
    then active_badge time now (expires_at_of a.write_session)
    else locked

-- The card; `told` of a handler counts the calls of the session's `reload`.
pub record SessionCard : Type 0 where
  pub reason : String
  pub busy : Bool
  pub error : Option String

-- `err?.code` and `err?.message`: an `UnauthorizedError` has no code.
unfoldable pub open_error : Translations → JsError → String
open_error t (client_error status code message) =
    if is_text code "WRITE_SESSION_ALREADY_ACTIVE"
    then t.write_session.already_active
    else if is_text code "WRITE_DISABLED"
    then t.personnel.writes_disabled_notice
    else t.write_session.open_failed +++ ": " +++ message
open_error t unauthorized = t.write_session.open_failed +++ ": " +++ "unauthorized"
open_error t (other message) = t.write_session.open_failed +++ ": " +++ message

abbrev message_of : JsError → String
message_of (client_error status code message) = message
message_of unauthorized = "unauthorized"
message_of (other message) = message

abbrev opened : Translations → AdminCall → SessionCard → Result Json → Ran SessionCard AdminCall
opened t call s (ok r) = record {
  state = record { reason = ""; busy = false; error = none };
  calls = call ∷ [];
  reloads = 0;
  told = 1;
}
opened t call s (thrown e) = record {
  state = record s { busy = false; error = some (open_error t e) };
  calls = call ∷ [];
  reloads = 0;
  told = 0;
}

-- `handleOpen`
unfoldable pub handle_open :
    Translations → (AdminCall → Result Json) → SessionCard → Ran SessionCard AdminCall
handle_open t serve s =
    let call = open_write_session (trim s.reason) in
    if not (truthy (trim s.reason)) then only s else opened t call s (serve call)

abbrev closed : SessionCard → Result Json → Ran SessionCard AdminCall
closed s (ok r) = record {
  state = record s { busy = false; error = none };
  calls = close_write_session ∷ [];
  reloads = 0;
  told = 1;
}
closed s (thrown e) = record {
  state = record s { busy = false; error = some (message_of e) };
  calls = close_write_session ∷ [];
  reloads = 0;
  told = 0;
}

-- `handleClose`
unfoldable pub handle_close : (AdminCall → Result Json) → SessionCard → Ran SessionCard AdminCall
handle_close serve s = closed s (serve close_write_session)
