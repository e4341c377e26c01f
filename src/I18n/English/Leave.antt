-- ===== src/I18n/English/Leave.antt =====
-- i18n/en.ts: the English texts of leave, holidays and the daily roster.
use adms_server.I18n.Translations.Leave.{LeaveTexts}

abbrev pub leave_en : LeaveTexts
leave_en = record {
  trial_body_date =
      "Real counting and reports start on {date} — people not yet enrolled are never counted absent";
  track_date_label = "Go-live date";
  track_date_button = "Set go-live date";
  track_date_active =
      "Counting for real from {date} — earlier days are trial, not counted and not reported · people not yet enrolled are never counted absent";
  trial_title = "Trial mode — absences are not real yet";
  trial_body =
      "Real counting and the Telegram report start once everyone who must scan is enrolled (now {done}/{req}) — excluding scan-exempt, people on duty/secondment, and conscripts";
  trial_absent = "Absent (trial)";
  readiness_away = "On duty";
  track_title = "Go-live: real absences & report";
  track_auto = "Auto — start when enrollment is complete";
  track_on = "Force on";
  track_off = "Force off (trial)";
  track_live = "Live";
  track_trial = "Trial";
  st_not_enrolled = "Not enrolled (not counted)";
  readiness_title = "Fingerprint readiness";
  readiness_hint =
      "People not yet enrolled are not counted present/late/absent — counting starts the day after enrollment";
  readiness_required = "Must scan";
  readiness_enrolled = "Enrolled";
  readiness_missing = "Missing";
  tg_title = "Telegram absence report";
  tg_hint = "Sent automatically Mon–Fri 11:05 (after the scan window), absent people only";
  tg_preview = "Preview today's message";
  tg_send = "Send test now";
  tg_sent = "Sent";
  tg_not_configured =
      "Bot not configured — set TELEGRAM_BOT_TOKEN and TELEGRAM_CHAT_ID in .env and redeploy";
  tg_failed = "Send failed";
  tg_non_workday = "Non-working day — no report";
  nav_monthly = "Monthly report";
  monthly_title = "Monthly attendance report";
  monthly_subtitle = "{n} working days · scans count {window} · after {time} is late";
  export_excel = "Export Excel (CSV)";
  legend = "Legend";
  device_live = "Scanner connected";
  device_offline = "Scanner not connected";
  device_unknown = "Scanner status unknown";
  device_last_seen = "Last connected";
  nav_leave = "Leave / duty";
  nav_daily = "Daily roster";
  title = "Leave, official duty & secondment";
  subtitle =
      "Record leave already signed by the commander — people on leave are never counted absent";
  form_title = "New record";
  person = "Person";
  type = "Type";
  start_date = "From";
  end_date = "To";
  order_ref = "Order / document no.";
  order_ref_required = "An order number is required for this type";
  destination = "Destination / unit";
  note = "Note";
  save_button = "Save";
  saved = "Saved";
  select_person_required = "Select a person and dates";
  overlap = "This person already has a record covering these dates";
  days = "days";
  list_title = "Records";
  filter_current = "Current & upcoming";
  filter_all = "All";
  show_cancelled = "Show cancelled";
  cancel_button = "Cancel";
  cancel_title = "Cancel this record";
  cancel_reason = "Reason";
  cancel_reason_placeholder = "e.g. wrong dates, leave withdrawn";
  cancelled = "Cancelled";
  no_records = "No records";
  recorded_by = "Recorded by";
  history_title = "Leave & duty history";
  add_for_person = "Record leave / duty";
  holidays_title = "Public holidays";
  holiday_name = "Holiday name";
  holiday_add = "Add holiday";
  holiday_hint = "Weekends are already non-working days";
  daily_title = "Daily roster";
  daily_subtitle = "Scans count {window} · after {time} is late";
  holiday_badge = "Holiday";
  total_label = "Total";
  by_branch = "By section";
  branch = "Section";
  first_scan = "First scan";
  st_present = "Present";
  st_late = "Late";
  st_leave = "Leave";
  st_duty = "Duty / secondment";
  st_exempt = "Exempt";
  st_not_yet = "Not yet";
  st_absent = "Absent";
  st_off = "Off";
  today = "Today";
  all_statuses = "All statuses";
}
