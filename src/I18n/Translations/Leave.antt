-- ===== src/I18n/Translations/Leave.antt =====
-- i18n/types.ts: the members of `Translations` for leave, holidays and the daily roster.
use adms_server.Common.{String, List, [], ◌∷◌}

pub record LeaveTexts : Type 0 where
  pub trial_body_date : String
  pub track_date_label : String
  pub track_date_button : String
  pub track_date_active : String
  pub trial_title : String
  pub trial_body : String
  pub trial_absent : String
  pub readiness_away : String
  pub track_title : String
  pub track_auto : String
  pub track_on : String
  pub track_off : String
  pub track_live : String
  pub track_trial : String
  pub st_not_enrolled : String
  pub readiness_title : String
  pub readiness_hint : String
  pub readiness_required : String
  pub readiness_enrolled : String
  pub readiness_missing : String
  pub tg_title : String
  pub tg_hint : String
  pub tg_preview : String
  pub tg_send : String
  pub tg_sent : String
  pub tg_not_configured : String
  pub tg_failed : String
  pub tg_non_workday : String
  pub nav_monthly : String
  pub monthly_title : String
  pub monthly_subtitle : String
  pub export_excel : String
  pub legend : String
  pub device_live : String
  pub device_offline : String
  pub device_unknown : String
  pub device_last_seen : String
  pub nav_leave : String
  pub nav_daily : String
  pub title : String
  pub subtitle : String
  pub form_title : String
  pub person : String
  pub type : String
  pub start_date : String
  pub end_date : String
  pub order_ref : String
  pub order_ref_required : String
  pub destination : String
  pub note : String
  pub save_button : String
  pub saved : String
  pub select_person_required : String
  pub overlap : String
  pub days : String
  pub list_title : String
  pub filter_current : String
  pub filter_all : String
  pub show_cancelled : String
  pub cancel_button : String
  pub cancel_title : String
  pub cancel_reason : String
  pub cancel_reason_placeholder : String
  pub cancelled : String
  pub no_records : String
  pub recorded_by : String
  pub history_title : String
  pub add_for_person : String
  pub holidays_title : String
  pub holiday_name : String
  pub holiday_add : String
  pub holiday_hint : String
  pub daily_title : String
  pub daily_subtitle : String
  pub holiday_badge : String
  pub total_label : String
  pub by_branch : String
  pub branch : String
  pub first_scan : String
  pub st_present : String
  pub st_late : String
  pub st_leave : String
  pub st_duty : String
  pub st_exempt : String
  pub st_not_yet : String
  pub st_absent : String
  pub st_off : String
  pub today : String
  pub all_statuses : String

abbrev pub leave_texts : LeaveTexts → List String
leave_texts t =
    t.trial_body_date ∷ t.track_date_label ∷ t.track_date_button ∷ t.track_date_active
    ∷ t.trial_title ∷ t.trial_body ∷ t.trial_absent ∷ t.readiness_away ∷ t.track_title
    ∷ t.track_auto ∷ t.track_on ∷ t.track_off ∷ t.track_live ∷ t.track_trial ∷ t.st_not_enrolled
    ∷ t.readiness_title ∷ t.readiness_hint ∷ t.readiness_required ∷ t.readiness_enrolled
    ∷ t.readiness_missing ∷ t.tg_title ∷ t.tg_hint ∷ t.tg_preview ∷ t.tg_send ∷ t.tg_sent
    ∷ t.tg_not_configured ∷ t.tg_failed ∷ t.tg_non_workday ∷ t.nav_monthly ∷ t.monthly_title
    ∷ t.monthly_subtitle ∷ t.export_excel ∷ t.legend ∷ t.device_live ∷ t.device_offline
    ∷ t.device_unknown ∷ t.device_last_seen ∷ t.nav_leave ∷ t.nav_daily ∷ t.title ∷ t.subtitle
    ∷ t.form_title ∷ t.person ∷ t.type ∷ t.start_date ∷ t.end_date ∷ t.order_ref
    ∷ t.order_ref_required ∷ t.destination ∷ t.note ∷ t.save_button ∷ t.saved
    ∷ t.select_person_required ∷ t.overlap ∷ t.days ∷ t.list_title ∷ t.filter_current ∷ t.filter_all
    ∷ t.show_cancelled ∷ t.cancel_button ∷ t.cancel_title ∷ t.cancel_reason
    ∷ t.cancel_reason_placeholder ∷ t.cancelled ∷ t.no_records ∷ t.recorded_by ∷ t.history_title
    ∷ t.add_for_person ∷ t.holidays_title ∷ t.holiday_name ∷ t.holiday_add ∷ t.holiday_hint
    ∷ t.daily_title ∷ t.daily_subtitle ∷ t.holiday_badge ∷ t.total_label ∷ t.by_branch ∷ t.branch
    ∷ t.first_scan ∷ t.st_present ∷ t.st_late ∷ t.st_leave ∷ t.st_duty ∷ t.st_exempt ∷ t.st_not_yet
    ∷ t.st_absent ∷ t.st_off ∷ t.today ∷ t.all_statuses ∷ []
