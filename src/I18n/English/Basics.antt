-- ===== src/I18n/English/Basics.antt =====
-- i18n/en.ts: the English texts of the shared words, the navigation, and the names of states and roles.
use adms_server.I18n.Translations.Basics.{
  ApiErrorTexts, CommonTexts, NavTexts, StatusTexts, RoleTexts,
}

abbrev api_errors_en : ApiErrorTexts
api_errors_en = record {
  validation_error = "Invalid data. Please check and try again.";
  not_found = "The requested item was not found.";
  rate_limited = "Too many requests. Please wait a moment and try again.";
  internal_error = "A system error occurred. Please try again.";
  generic_error_prefix = "An error occurred. Please try again.";
}

abbrev pub common_en : CommonTexts
common_en = record {
  system_title = "Attendance Device Management";
  system_subtitle = "ADMS Console";
  loading = "Loading data...";
  save = "Save";
  saving = "Saving...";
  cancel = "Cancel";
  close = "Close";
  edit = "Edit";
  delete = "Delete";
  active = "Active";
  inactive = "Inactive";
  refresh = "Refresh";
  search = "Search";
  search_placeholder = "Search by name, rank, or personnel ID...";
  clear = "Clear";
  all = "All";
  none = "None";
  status = "Status";
  actions = "Actions";
  details = "Details";
  error = "Error";
  success = "Success";
  warning = "Warning";
  back = "Back";
  next = "Next";
  confirm = "Confirm";
  unauthorized = "Please sign in again";
  forbidden = "Access forbidden";
  page = "Page";
  of = "of";
  items = "items";
  showing = "Showing";
  to = "to";
  results = "results";
  production_environment_label = "Production";
  api_errors = api_errors_en;
}

abbrev pub nav_en : NavTexts
nav_en = record {
  operations = "OPERATIONS";
  dashboard = "Dashboard";
  attendance = "Attendance Monitor";
  enrollment = "Enrollment Workspace";
  identity_people = "IDENTITY & PEOPLE";
  personnel = "Personnel Master";
  mappings = "Identity Mapping Authority";
  infrastructure = "INFRASTRUCTURE";
  devices = "Terminal Devices";
  system = "System Health & Config";
  administration = "ADMINISTRATION";
  audit = "Security Audit Trail";
  operators = "Operator Accounts";
  my_account = "My Account";
  change_password = "Change Password";
  sign_out = "Sign Out";
}

abbrev pub status_en : StatusTexts
status_en = record {
  writes_locked = "🔒 View-only mode (safe)";
  writes_active = "⚠\u{fe0f} Changes enabled (caution)";
  collector_live = "Collector LIVE";
  collector_offline = "Collector OFFLINE";
  collector_connecting = "Collector CONNECTING";
  device_connected = "Terminal CONNECTED";
  device_disconnected = "Terminal DISCONNECTED";
  db_healthy = "Database HEALTHY";
  db_degraded = "Database DEGRADED";
  mqtt_healthy = "MQTT HEALTHY";
  mqtt_unreachable = "MQTT UNREACHABLE";
  live_stream_active = "Live Stream ACTIVE";
}

abbrev pub roles_en : RoleTexts
roles_en = record {
  viewer = "Viewer (VIEWER)";
  enrollment_operator = "Enrollment Operator (ENROLLMENT)";
  operator = "Operator (OPERATOR)";
  admin = "Administrator (ADMIN)";
  viewer_desc = "Can view data and reports, but cannot make changes.";
  enrollment_operator_desc =
      "Can enroll personnel and fingerprints while a work session is open. Cannot open a work session or manage the system.";
  operator_desc =
      "Can open and close work sessions and oversee daily operations. Cannot manage user accounts or critical system settings.";
  admin_desc = "Full authority — system, accounts, personnel, terminals, and permissions.";
  loading_account = "Loading account permissions...";
  session_error_title = "Couldn't verify your session";
  session_error_body = "We couldn't confirm your account permissions. Please sign in again.";
  relogin_button = "Sign in again";
}
