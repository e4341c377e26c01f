-- ===== src/I18n/English/Admin.antt =====
-- i18n/en.ts: the English texts of the system page, the live connection and the write session.
use adms_server.I18n.Translations.Admin.{SystemTexts, StreamTexts, WriteSessionTexts}

abbrev pub system_en : SystemTexts
system_en = record {
  title = "System Health & Config";
  subtitle = "Service telemetry, operator account administration, and rank references";
  health_title = "Core Service Telemetry";
  api_service = "Web API";
  api_reachable = "Reachable";
  database_service = "Database";
  mqtt_service = "Live Event Service";
  mqtt_hint = "Delivers realtime updates to the browser";
  collector_service = "Fingerprint Terminal Collector";
  last_updated_label = "Last Updated";
  change_password_title = "Change Your Operator Password";
  current_password = "Current Password";
  new_password = "New Password (min 12 characters)";
  confirm_password = "Confirm New Password";
  change_password_button = "Change Password";
  password_changed_success = "Your password has been changed successfully.";
  rank_reference_title = "Royal Thai Navy (RTN) Military Ranks";
  operators_title = "Operator Account Management";
  operators_subtitle = "Create and manage operator roles for ADMS Console (Admin only)";
  create_operator_button = "Create New Account";
  username = "Username";
  display_name = "Display Name";
  role = "Role";
  initial_password = "Initial Password";
  create_account = "Create Operator Account";
  toggle_active = "Toggle Active";
  deactivate = "Deactivate";
  activate = "Activate";
  password_form_subtitle =
      "Changing your password signs out all other active sessions (this session stays authenticated).";
  password_validation_error =
      "Enter your current password and a new password of at least 12 characters.";
  operator_validation_error =
      "Username, Display Name, and Password (at least 12 characters) are required.";
  operator_create_success_prefix = "Operator account";
  operator_create_success_suffix = "created successfully.";
  created_column = "Created";
  admin_only_badge = "ADMIN ONLY";
  current_session_label = "(Current Session)";
  rank_table_hint = "Canonical Display Metadata";
  rank_th_full_column = "Thai Full Rank";
  rank_th_abbr_column = "Thai Abbreviation";
  rank_en_column = "English Rank";
  rank_en_abbr_column = "English Abbr";
  rank_category_column = "Rank Category";
  scheduler_title = "Scheduled Business Hours";
  scheduler_last_run = "Last run";
  scheduler_never_run = "Never run";
  scheduler_stale_warning =
      "The timer has not reached the API in over 3 days — check the adms-auto-session service on the host.";
  scheduler_subtitle = "Automated write window Mon–Fri 09:00–18:00 Asia/Bangkok (ADMIN toggle)";
  scheduler_toggle_label = "Scheduled Business Hours (Mon–Fri 09:00–18:00)";
  scheduler_toggle_hint =
      "When enabled, the system automatically opens at 09:00 and closes at 18:00 on business days. Outside this window the system stays write-locked unless manually opened.";
  scheduler_enabled_badge = "Auto Schedule: ON";
  scheduler_disabled_badge = "Auto Schedule: OFF";
  scheduler_active_window_badge = "Active Window (Auto)";
  scheduler_manual_badge = "Manual Mode";
  scheduler_locked_badge = "Write-Locked";
  scheduler_admin_only_hint =
      "Only Administrator (ADMIN) can toggle the schedule. Operators will see the status but cannot change it.";
  scheduler_load_error = "Could not load schedule settings";
  scheduler_update_success = "Schedule updated successfully";
  scheduler_update_failed = "Could not update schedule";
  scheduler_toggle_on = "Enable auto schedule";
  scheduler_toggle_off = "Disable auto schedule";
}

abbrev pub stream_en : StreamTexts
stream_en = record {
  connected = "Live connection active";
  connecting = "Connecting...";
  disconnected = "Live connection lost — you can retry";
  retry = "Reconnect now";
}

abbrev pub write_session_en : WriteSessionTexts
write_session_en = record {
  title = "Production Changes";
  locked_title = "Changes are currently locked";
  locked_body = "To enroll personnel or change mappings, open a temporary work session.";
  active_title = "Changes enabled";
  opened_by_label = "Opened by";
  remaining_label = "Remaining";
  reason_label = "Reason";
  reason_placeholder = "e.g. Enrollment session — Bldg 3";
  open_button = "Open work session";
  close_button = "Close session now";
  opening = "Opening...";
  closing = "Closing...";
  open_failed = "Could not open a work session";
  already_active = "A work session is already open";
  admin_only_hint = "Only an Operator or Administrator can open or close a work session.";
  badge_locked = "🔒 Changes locked";
  badge_active = "🟢 Changes enabled";
}
