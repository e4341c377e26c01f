-- ===== src/I18n/English/Overview.antt =====
-- i18n/en.ts: the English texts of the login and the pages that only show data.
use adms_server.I18n.Translations.Overview.{
  LoginTexts, DashboardTexts, AttendanceTexts, DeviceTexts, AuditTexts,
}

abbrev pub login_en : LoginTexts
login_en = record {
  title = "ADMS Production Console";
  subtitle = "Sign in with your operator credentials";
  environment = "Production Server";
  username_label = "Username";
  username_placeholder = "Enter your username";
  password_label = "Password";
  password_placeholder = "Enter your password";
  sign_in_button = "Sign In";
  signing_in = "Signing in...";
  failed = "Invalid username or password";
}

abbrev pub dashboard_en : DashboardTexts
dashboard_en = record {
  title = "Operational Overview";
  subtitle = "Realtime telemetry, enrollment queue metrics, and attendance activity";
  system_operational = "System Fully Operational";
  system_degraded = "System Operation Degraded";
  kpi_personnel_total = "Personnel Master Total";
  kpi_personnel_eligible = "Production Eligible";
  kpi_personnel_excluded = "Excluded from Scope";
  kpi_attendance_today = "Attendance Scans Today";
  kpi_attendance_total = "Total Historical Logs";
  kpi_unattributed = "Unattributed Scans";
  kpi_devices_active = "Active Terminals";
  kpi_devices_total = "Registered Fleet";
  kpi_mappings_active = "Verified Mappings";
  kpi_mappings_total = "All Historical Mappings";
  kpi_unmapped_users = "Unmapped Device Accounts";
  enrollment_status_title = "Enrollment Lifecycle Breakdown";
  enrollment_active_count_label = "Enrollments Needing Action";
  enrollment_active_count_hint = "genuinely unfinished work only";
  lifecycle_in_progress = "In progress";
  lifecycle_completed = "Completed";
  lifecycle_removed = "Removed from terminal";
  lifecycle_cancelled = "Cancelled";
  mappings_historical_hint = "total incl. history";
}

abbrev pub attendance_en : AttendanceTexts
attendance_en = record {
  title = "Attendance Monitor";
  subtitle = "Realtime attendance ingestion stream and historical verification log";
  live_stream_badge = "LIVE STREAM ACTIVE";
  time_column = "Scan Time";
  time_column_suffix = "Thailand time";
  person_column = "Person / Identity";
  rank_column = "Rank";
  terminal_id_column = "Terminal User ID";
  device_column = "Device Endpoint";
  punch_column = "Punch Type";
  status_column = "Attribution Status";
  on_time = "ON TIME";
  late = "LATE";
  unknown = "UNKNOWN";
  reconciliation_title = "Unattributed Attendance Diagnostics";
  reconciliation_desc = "Attendance logs without an active temporal mapping resolution";
  log_id_column = "Log ID";
  device_user_pk_column = "Device User PK (system)";
  unmapped_user_label = "(Identity not confirmed)";
  no_unattributed_rows = "No unattributed attendance rows found in this range.";
  terminal_user_column = "Terminal User";
  temporal_classification_column = "Classification";
  diagnostic_detail_column = "Diagnostic Detail";
}

abbrev pub devices_en : DeviceTexts
devices_en = record {
  title = "Terminal Devices";
  subtitle = "Registered biometric hardware fleet and discovered terminal accounts";
  device_ip = "Device IP Address";
  serial = "Serial Number";
  platform = "Platform Architecture";
  firmware = "Firmware Version";
  last_seen = "Last Seen";
  discovered_users = "Discovered Device Users Roster";
  discovered_users_historical_hint = "seen historically (incl. removed)";
  current_terminal_accounts = "Accounts On Scanner Now";
  device_user_pk = "Device User PK";
  privilege = "Privilege Level";
  incarnation = "Account Incarnation";
  terminal_uid_column = "Terminal Reference ID";
  display_name_column = "Terminal Display Name";
  roster_sync_hint = "Synced automatically from the scanner";
  inactive_since_prefix = "Inactive since";
  recycled_label = "Recycled";
}

abbrev pub audit_en : AuditTexts
audit_en = record {
  title = "Security Audit Trail";
  subtitle = "Immutable log of authentication, configuration, and enrollment events";
  event_type_filter = "Event Type Filter";
  timestamp_column = "Timestamp (UTC)";
  event_type_column = "Event Type";
  operator_column = "Operator / Actor";
  details_column = "Payload & Diagnostic Details";
  origin_ip_column = "Origin IP";
}
