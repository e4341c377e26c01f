-- ===== src/I18n/Translations/Admin.antt =====
-- i18n/types.ts: the members of `Translations` for the system page, the live connection and the write session.
use adms_server.Common.{String, List, [], ◌∷◌}

pub record SystemTexts : Type 0 where
  pub title : String
  pub subtitle : String
  pub health_title : String
  pub api_service : String
  pub api_reachable : String
  pub database_service : String
  pub mqtt_service : String
  pub mqtt_hint : String
  pub collector_service : String
  pub last_updated_label : String
  pub change_password_title : String
  pub current_password : String
  pub new_password : String
  pub confirm_password : String
  pub change_password_button : String
  pub password_changed_success : String
  pub rank_reference_title : String
  pub operators_title : String
  pub operators_subtitle : String
  pub create_operator_button : String
  pub username : String
  pub display_name : String
  pub role : String
  pub initial_password : String
  pub create_account : String
  pub toggle_active : String
  pub deactivate : String
  pub activate : String
  pub password_form_subtitle : String
  pub password_validation_error : String
  pub operator_validation_error : String
  pub operator_create_success_prefix : String
  pub operator_create_success_suffix : String
  pub created_column : String
  pub admin_only_badge : String
  pub current_session_label : String
  pub rank_table_hint : String
  pub rank_th_full_column : String
  pub rank_th_abbr_column : String
  pub rank_en_column : String
  pub rank_en_abbr_column : String
  pub rank_category_column : String
  pub scheduler_title : String
  pub scheduler_last_run : String
  pub scheduler_never_run : String
  pub scheduler_stale_warning : String
  pub scheduler_subtitle : String
  pub scheduler_toggle_label : String
  pub scheduler_toggle_hint : String
  pub scheduler_enabled_badge : String
  pub scheduler_disabled_badge : String
  pub scheduler_active_window_badge : String
  pub scheduler_manual_badge : String
  pub scheduler_locked_badge : String
  pub scheduler_admin_only_hint : String
  pub scheduler_load_error : String
  pub scheduler_update_success : String
  pub scheduler_update_failed : String
  pub scheduler_toggle_on : String
  pub scheduler_toggle_off : String

abbrev pub system_texts : SystemTexts → List String
system_texts t =
    t.title ∷ t.subtitle ∷ t.health_title ∷ t.api_service ∷ t.api_reachable ∷ t.database_service
    ∷ t.mqtt_service ∷ t.mqtt_hint ∷ t.collector_service ∷ t.last_updated_label
    ∷ t.change_password_title ∷ t.current_password ∷ t.new_password ∷ t.confirm_password
    ∷ t.change_password_button ∷ t.password_changed_success ∷ t.rank_reference_title
    ∷ t.operators_title ∷ t.operators_subtitle ∷ t.create_operator_button ∷ t.username
    ∷ t.display_name ∷ t.role ∷ t.initial_password ∷ t.create_account ∷ t.toggle_active
    ∷ t.deactivate ∷ t.activate ∷ t.password_form_subtitle ∷ t.password_validation_error
    ∷ t.operator_validation_error ∷ t.operator_create_success_prefix
    ∷ t.operator_create_success_suffix ∷ t.created_column ∷ t.admin_only_badge
    ∷ t.current_session_label ∷ t.rank_table_hint ∷ t.rank_th_full_column ∷ t.rank_th_abbr_column
    ∷ t.rank_en_column ∷ t.rank_en_abbr_column ∷ t.rank_category_column ∷ t.scheduler_title
    ∷ t.scheduler_last_run ∷ t.scheduler_never_run ∷ t.scheduler_stale_warning
    ∷ t.scheduler_subtitle ∷ t.scheduler_toggle_label ∷ t.scheduler_toggle_hint
    ∷ t.scheduler_enabled_badge ∷ t.scheduler_disabled_badge ∷ t.scheduler_active_window_badge
    ∷ t.scheduler_manual_badge ∷ t.scheduler_locked_badge ∷ t.scheduler_admin_only_hint
    ∷ t.scheduler_load_error ∷ t.scheduler_update_success ∷ t.scheduler_update_failed
    ∷ t.scheduler_toggle_on ∷ t.scheduler_toggle_off ∷ []

pub record StreamTexts : Type 0 where
  pub connected : String
  pub connecting : String
  pub disconnected : String
  pub retry : String

abbrev pub stream_texts : StreamTexts → List String
stream_texts t = t.connected ∷ t.connecting ∷ t.disconnected ∷ t.retry ∷ []

pub record WriteSessionTexts : Type 0 where
  pub title : String
  pub locked_title : String
  pub locked_body : String
  pub active_title : String
  pub opened_by_label : String
  pub remaining_label : String
  pub reason_label : String
  pub reason_placeholder : String
  pub open_button : String
  pub close_button : String
  pub opening : String
  pub closing : String
  pub open_failed : String
  pub already_active : String
  pub admin_only_hint : String
  pub badge_locked : String
  pub badge_active : String

abbrev pub write_session_texts : WriteSessionTexts → List String
write_session_texts t =
    t.title ∷ t.locked_title ∷ t.locked_body ∷ t.active_title ∷ t.opened_by_label
    ∷ t.remaining_label ∷ t.reason_label ∷ t.reason_placeholder ∷ t.open_button ∷ t.close_button
    ∷ t.opening ∷ t.closing ∷ t.open_failed ∷ t.already_active ∷ t.admin_only_hint ∷ t.badge_locked
    ∷ t.badge_active ∷ []
