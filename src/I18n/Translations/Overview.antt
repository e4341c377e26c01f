-- ===== src/I18n/Translations/Overview.antt =====
-- i18n/types.ts: the members of `Translations` for the login and the pages that only show data.
use adms_server.Common.{String, List, [], ◌∷◌}

pub record LoginTexts : Type 0 where
  pub title : String
  pub subtitle : String
  pub environment : String
  pub username_label : String
  pub username_placeholder : String
  pub password_label : String
  pub password_placeholder : String
  pub sign_in_button : String
  pub signing_in : String
  pub failed : String

abbrev pub login_texts : LoginTexts → List String
login_texts t =
    t.title ∷ t.subtitle ∷ t.environment ∷ t.username_label ∷ t.username_placeholder
    ∷ t.password_label ∷ t.password_placeholder ∷ t.sign_in_button ∷ t.signing_in ∷ t.failed ∷ []

pub record DashboardTexts : Type 0 where
  pub title : String
  pub subtitle : String
  pub system_operational : String
  pub system_degraded : String
  pub kpi_personnel_total : String
  pub kpi_personnel_eligible : String
  pub kpi_personnel_excluded : String
  pub kpi_attendance_today : String
  pub kpi_attendance_total : String
  pub kpi_unattributed : String
  pub kpi_devices_active : String
  pub kpi_devices_total : String
  pub kpi_mappings_active : String
  pub kpi_mappings_total : String
  pub kpi_unmapped_users : String
  pub enrollment_status_title : String
  pub enrollment_active_count_label : String
  pub enrollment_active_count_hint : String
  pub lifecycle_in_progress : String
  pub lifecycle_completed : String
  pub lifecycle_removed : String
  pub lifecycle_cancelled : String
  pub mappings_historical_hint : String

abbrev pub dashboard_texts : DashboardTexts → List String
dashboard_texts t =
    t.title ∷ t.subtitle ∷ t.system_operational ∷ t.system_degraded ∷ t.kpi_personnel_total
    ∷ t.kpi_personnel_eligible ∷ t.kpi_personnel_excluded ∷ t.kpi_attendance_today
    ∷ t.kpi_attendance_total ∷ t.kpi_unattributed ∷ t.kpi_devices_active ∷ t.kpi_devices_total
    ∷ t.kpi_mappings_active ∷ t.kpi_mappings_total ∷ t.kpi_unmapped_users
    ∷ t.enrollment_status_title ∷ t.enrollment_active_count_label ∷ t.enrollment_active_count_hint
    ∷ t.lifecycle_in_progress ∷ t.lifecycle_completed ∷ t.lifecycle_removed ∷ t.lifecycle_cancelled
    ∷ t.mappings_historical_hint ∷ []

pub record AttendanceTexts : Type 0 where
  pub title : String
  pub subtitle : String
  pub live_stream_badge : String
  pub time_column : String
  pub time_column_suffix : String
  pub person_column : String
  pub rank_column : String
  pub terminal_id_column : String
  pub device_column : String
  pub punch_column : String
  pub status_column : String
  pub on_time : String
  pub late : String
  pub unknown : String
  pub reconciliation_title : String
  pub reconciliation_desc : String
  pub log_id_column : String
  pub device_user_pk_column : String
  pub unmapped_user_label : String
  pub no_unattributed_rows : String
  pub terminal_user_column : String
  pub temporal_classification_column : String
  pub diagnostic_detail_column : String

abbrev pub attendance_texts : AttendanceTexts → List String
attendance_texts t =
    t.title ∷ t.subtitle ∷ t.live_stream_badge ∷ t.time_column ∷ t.time_column_suffix
    ∷ t.person_column ∷ t.rank_column ∷ t.terminal_id_column ∷ t.device_column ∷ t.punch_column
    ∷ t.status_column ∷ t.on_time ∷ t.late ∷ t.unknown ∷ t.reconciliation_title
    ∷ t.reconciliation_desc ∷ t.log_id_column ∷ t.device_user_pk_column ∷ t.unmapped_user_label
    ∷ t.no_unattributed_rows ∷ t.terminal_user_column ∷ t.temporal_classification_column
    ∷ t.diagnostic_detail_column ∷ []

pub record DeviceTexts : Type 0 where
  pub title : String
  pub subtitle : String
  pub device_ip : String
  pub serial : String
  pub platform : String
  pub firmware : String
  pub last_seen : String
  pub discovered_users : String
  pub discovered_users_historical_hint : String
  pub current_terminal_accounts : String
  pub device_user_pk : String
  pub privilege : String
  pub incarnation : String
  pub terminal_uid_column : String
  pub display_name_column : String
  pub roster_sync_hint : String
  pub inactive_since_prefix : String
  pub recycled_label : String

abbrev pub devices_texts : DeviceTexts → List String
devices_texts t =
    t.title ∷ t.subtitle ∷ t.device_ip ∷ t.serial ∷ t.platform ∷ t.firmware ∷ t.last_seen
    ∷ t.discovered_users ∷ t.discovered_users_historical_hint ∷ t.current_terminal_accounts
    ∷ t.device_user_pk ∷ t.privilege ∷ t.incarnation ∷ t.terminal_uid_column ∷ t.display_name_column
    ∷ t.roster_sync_hint ∷ t.inactive_since_prefix ∷ t.recycled_label ∷ []

pub record AuditTexts : Type 0 where
  pub title : String
  pub subtitle : String
  pub event_type_filter : String
  pub timestamp_column : String
  pub event_type_column : String
  pub operator_column : String
  pub details_column : String
  pub origin_ip_column : String

abbrev pub audit_texts : AuditTexts → List String
audit_texts t =
    t.title ∷ t.subtitle ∷ t.event_type_filter ∷ t.timestamp_column ∷ t.event_type_column
    ∷ t.operator_column ∷ t.details_column ∷ t.origin_ip_column ∷ []
