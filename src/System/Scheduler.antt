-- ===== src/System/Scheduler.antt =====
-- components/SchedulerControl.tsx: the badge and the switch of the scheduled write window.
use adms_server.Common.{
  String, ◌≡◌, refl, Bool, true, false, ◌&&◌, Option, none, some, [], ◌∷◌, arith, if◌then◌else◌,
  get_or, truthy,
}
use adms_server.Api.Json.{Json}
use adms_server.Api.Request.{Result, ok, thrown}
use adms_server.Api.Calls.Admin.{AdminCall, update_schedule_settings}
use adms_server.I18n.Translations.{Translations}
use adms_server.I18n.ApiErrors.{friendly_api_error}
use adms_server.Handlers.{Message, Ran}

-- What the badge reads: `settings`, and whether a write session is active.
pub record ScheduleView : Type 0 where
  pub loading : Bool
  pub error : Option String
  pub enabled : Option Bool
  pub window_active : Option Bool
  pub write_session_active : Bool

pub data Tone : Type 0 where
  green amber neutral : Tone

unfoldable pub schedule_badge : Translations → ScheduleView → Tone × String
schedule_badge t v =
    if v.loading
    then (neutral, t.common.loading)
    else if truthy (get_or v.error "")
    then (neutral, t.system.scheduler_load_error)
    else if get_or v.enabled false && get_or v.window_active false
    then (green, t.system.scheduler_active_window_badge)
    else if get_or v.enabled false
    then (amber, t.system.scheduler_enabled_badge)
    else if v.write_session_active
    then (amber, t.system.scheduler_manual_badge)
    else (neutral, t.system.scheduler_locked_badge)

pub record ScheduleCard : Type 0 where
  pub busy : Bool
  pub msg : Option Message

-- `s || d`
abbrev or_else : String → String → String
or_else s d = if truthy s then s else d

-- `handleToggle`
unfoldable pub handle_schedule_toggle :
    Translations → (AdminCall → Result Json) → Bool → ScheduleCard → Ran ScheduleCard AdminCall
handle_schedule_toggle t serve next s = elim (serve (update_schedule_settings next)) [
  | ok r ↦ record {
    state = record {
      busy = false;
      msg = some (record { is_ok = true; words = t.system.scheduler_update_success });
    };
    calls = update_schedule_settings next ∷ [];
    reloads = 1;
    told = 0;
  }
  | thrown e ↦ record {
    state = record {
      busy = false;
      msg = some (record {
        is_ok = false;
        words = or_else (friendly_api_error e t) t.system.scheduler_update_failed;
      });
    };
    calls = update_schedule_settings next ∷ [];
    reloads = 0;
    told = 0;
  }
]

-- The badge is green only while the schedule has the window open, and says that changes are locked
-- only where nothing has enabled them.
schedule_badge_lem :
    (t : Translations) (v : ScheduleView)
    → ((schedule_badge t v).0 ≡ green → (v.enabled ≡ some true) × (v.window_active ≡ some true))
      × (v.loading ≡ false
          → v.error ≡ none
          → v.enabled ≡ some false
          → schedule_badge t v ≡ (
              if v.write_session_active
              then (amber, t.system.scheduler_manual_badge)
              else (neutral, t.system.scheduler_locked_badge)))
unfolding schedule_badge
schedule_badge_lem t v = (λ g. ground arith, λ l e n. rw (l, e, n, schedule_badge) refl)
