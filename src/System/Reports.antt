-- ===== src/System/Reports.antt =====
-- `TelegramReportCard` and `TrackingModeCard` of pages/System.tsx.
use adms_server.Common.{
  String, ◌≡◌, inl, inr, Bool, true, false, not, ◌&&◌, ◌||◌, Option, none, some, [], ◌∷◌, arith,
  str_eq, if◌then◌else◌, Bool-cases, get_or, truthy, or_none, or_none-truthy,
}
use adms_server.Common.Text.{◌+++◌}
use adms_server.Api.Json.{Json, is_text}
use adms_server.Api.Request.{JsError, client_error, unauthorized, other, Result, ok, thrown}
use adms_server.Api.Calls.Roster.{RosterCall, telegram_preview, telegram_send, set_tracking}
use adms_server.I18n.Translations.{Translations}
use adms_server.I18n.ApiErrors.{friendly_api_error}
use adms_server.Handlers.{Message, Ran}

-- `explain`
unfoldable pub explain : Translations → JsError → String
explain t (client_error status code message) =
    if is_text code "TELEGRAM_NOT_CONFIGURED"
    then t.leave.tg_not_configured
    else if is_text code "TELEGRAM_SEND_FAILED"
    then t.leave.tg_failed +++ ": " +++ message
    else friendly_api_error (client_error status code message) t
explain t unauthorized = friendly_api_error unauthorized t
explain t (other message) = friendly_api_error (other message) t

-- `report` is the state `text`.
pub record TelegramCard : Type 0 where
  pub report : Option String
  pub msg : Option Message
  pub busy : Bool

abbrev telegram_failed :
    Translations → RosterCall → TelegramCard → JsError → Ran TelegramCard RosterCall
telegram_failed t call s e = record {
  state = record s { busy = false; msg = some (record { is_ok = false; words = explain t e }) };
  calls = call ∷ [];
  reloads = 0;
  told = 0;
}

-- `preview`; the server answers a text, or none for a day without work.
unfoldable pub preview_report :
    Translations
    → (RosterCall → Result (Option String))
    → TelegramCard
    → Ran TelegramCard RosterCall
unfolding explain
preview_report t serve s = elim (serve telegram_preview) [
  | ok r ↦ record {
    state = record { report = some (get_or r t.leave.tg_non_workday); msg = none; busy = false };
    calls = telegram_preview ∷ [];
    reloads = 0;
    told = 0;
  }
  | thrown e ↦ telegram_failed t telegram_preview s e
]

-- `send`
unfoldable pub send_report :
    Translations
    → (RosterCall → Result (Option String))
    → TelegramCard
    → Ran TelegramCard RosterCall
unfolding explain
send_report t serve s = elim (serve telegram_send) [
  | ok r ↦ record {
    state = record {
      report = r;
      msg = some (record { is_ok = true; words = t.leave.tg_sent });
      busy = false;
    };
    calls = telegram_send ∷ [];
    reloads = 0;
    told = 0;
  }
  | thrown e ↦ telegram_failed t telegram_send s e
]

-- `counting_from` is `tr.data?.counting_from`.
pub record TrackingCard : Type 0 where
  pub counting_from : Option String
  pub start_date : String
  pub busy : Bool
  pub error : Option String

-- `startDate || tr.data?.counting_from || undefined`
abbrev chosen_date : TrackingCard → Option String
chosen_date s =
    if truthy s.start_date then some s.start_date else or_none (get_or s.counting_from "")

-- The call of `choose`.
abbrev tracking_call : String → TrackingCard → RosterCall
tracking_call mode s = set_tracking mode (if str_eq mode "date" then chosen_date s else none)

abbrev chosen : Translations → RosterCall → TrackingCard → Result Json → Ran TrackingCard RosterCall
chosen t call s (ok r) = record {
  state = record s { busy = false; error = none };
  calls = call ∷ [];
  reloads = 1;
  told = 0;
}
chosen t call s (thrown e) = record {
  state = record s { busy = false; error = some (friendly_api_error e t) };
  calls = call ∷ [];
  reloads = 0;
  told = 0;
}

-- `choose`
unfoldable pub choose_tracking :
    Translations → (RosterCall → Result Json) → String → TrackingCard → Ran TrackingCard RosterCall
choose_tracking t serve mode s = chosen t (tracking_call mode s) s (serve (tracking_call mode s))

-- Whether the button for a date is enabled.
unfoldable pub date_enabled : Bool → TrackingCard → Bool
date_enabled can_edit_roster s =
    not s.busy && can_edit_roster && (truthy s.start_date || truthy (get_or s.counting_from ""))

-- The button for a date sends one, which is the typed day if there is one.
choose_date_lem :
    (t : Translations) (serve : RosterCall → Result Json) (can_edit : Bool) (s : TrackingCard)
    → date_enabled can_edit s ≡ true
    → (day : String) × (chosen_date s ≡ some day)
      × (truthy day ≡ true)
      × ((choose_tracking t serve "date" s).calls ≡ set_tracking "date" (some day) ∷ [])
unfolding choose_tracking date_enabled
choose_date_lem t serve can_edit s h = elim (Bool-cases (truthy s.start_date)) [
  | inl typed ↦ (s.start_date, ground arith, typed, ground arith)
  | inr empty ↦
      let there : truthy (get_or s.counting_from "") ≡ true = ground arith in
      let day : or_none (get_or s.counting_from "") ≡ some (get_or s.counting_from "") =
        or_none-truthy (get_or s.counting_from "") there in
      (get_or s.counting_from "", ground arith, there, ground arith)
]
