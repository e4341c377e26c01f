-- ===== src/I18n/Translations/Workflow.antt =====
-- i18n/types.ts: the members of `Translations` for the personnel workflows.
use adms_server.Common.{String, List, [], ◌∷◌}

pub record WorkflowTexts : Type 0 where
  pub scan_window_expired : String
  pub scan_window_reopen : String
  pub names_synced_result : String
  pub names_mismatch_title : String
  pub names_sync_all_button : String
  pub terminal_name_auto : String
  pub save_english_name : String
  pub save_english_name_hint : String
  pub terminal_name_title : String
  pub terminal_name_on_device : String
  pub terminal_name_expected : String
  pub terminal_name_mismatch : String
  pub terminal_name_sync_button : String
  pub terminal_name_synced : String
  pub terminal_name_needs_english : String
  pub open_policy_title : String
  pub open_policy_body : String
  pub outside_window : String
  pub offboard_deferred : String
  pub fingerprint_window_needed : String
  pub pw_current_wrong : String
  pub pw_same : String
  pub pw_too_short : String
  pub pw_current_missing : String
  pub pw_too_long : String
  pub pw_session_expired : String
  pub reason_finance : String
  pub reason_command_office : String
  pub reason_other : String
  pub quick_required : String
  pub quick_exempt_prefix : String
  pub selected_count : String
  pub bulk_exempt : String
  pub bulk_require : String
  pub bulk_done : String
  pub clear_selection : String
  pub all_branches : String
  pub select_page : String
  pub position_col : String
  pub wiz_step1 : String
  pub wiz_step2 : String
  pub wiz_step3 : String
  pub wiz_step4 : String
  pub wiz_step_of : String
  pub auto_scan_hint : String
  pub verify_inline_title : String
  pub verify_note_label : String
  pub verify_note_placeholder : String
  pub verify_button : String
  pub waiting_admin_verify : String
  pub verified_done : String
  pub nav_attendance_group : String
  pub nav_personnel_group : String
  pub nav_fingerprint_group : String
  pub nav_admin_group : String
  pub write_closed_banner : String
  pub write_closed_hint : String
  pub write_open_banner : String
  pub hub_title : String
  pub import_title : String
  pub import_desc : String
  pub join_title : String
  pub join_desc : String
  pub leave_title : String
  pub leave_desc : String
  pub exempt_title : String
  pub exempt_desc : String
  pub count_active : String
  pub count_needs_enroll : String
  pub count_exempt : String
  pub count_left_with_account : String
  pub filter_scan_all : String
  pub scan_enrolled : String
  pub scan_needs : String
  pub scan_exempt : String
  pub scan_left_with_account : String
  pub col_scan : String
  pub enroll_button : String
  pub scan_policy_title : String
  pub scan_required : String
  pub scan_exempt_label : String
  pub exempt_reason_label : String
  pub exempt_reason_placeholder : String
  pub exempt_reason_required : String
  pub set_exempt_button : String
  pub clear_exempt_button : String
  pub saved_ok : String
  pub offboard_button : String
  pub offboard_title : String
  pub offboard_body : String
  pub offboard_accounts : String
  pub offboard_no_accounts : String
  pub offboard_reason_placeholder : String
  pub offboard_done : String
  pub offboard_partial : String
  pub retry_remove_button : String
  pub rejoin_hint : String
  pub needs_write_window : String

abbrev pub workflow_texts : WorkflowTexts → List String
workflow_texts t =
    t.scan_window_expired ∷ t.scan_window_reopen ∷ t.names_synced_result ∷ t.names_mismatch_title
    ∷ t.names_sync_all_button ∷ t.terminal_name_auto ∷ t.save_english_name
    ∷ t.save_english_name_hint ∷ t.terminal_name_title ∷ t.terminal_name_on_device
    ∷ t.terminal_name_expected ∷ t.terminal_name_mismatch ∷ t.terminal_name_sync_button
    ∷ t.terminal_name_synced ∷ t.terminal_name_needs_english ∷ t.open_policy_title
    ∷ t.open_policy_body ∷ t.outside_window ∷ t.offboard_deferred ∷ t.fingerprint_window_needed
    ∷ t.pw_current_wrong ∷ t.pw_same ∷ t.pw_too_short ∷ t.pw_current_missing ∷ t.pw_too_long
    ∷ t.pw_session_expired ∷ t.reason_finance ∷ t.reason_command_office ∷ t.reason_other
    ∷ t.quick_required ∷ t.quick_exempt_prefix ∷ t.selected_count ∷ t.bulk_exempt ∷ t.bulk_require
    ∷ t.bulk_done ∷ t.clear_selection ∷ t.all_branches ∷ t.select_page ∷ t.position_col
    ∷ t.wiz_step1 ∷ t.wiz_step2 ∷ t.wiz_step3 ∷ t.wiz_step4 ∷ t.wiz_step_of ∷ t.auto_scan_hint
    ∷ t.verify_inline_title ∷ t.verify_note_label ∷ t.verify_note_placeholder ∷ t.verify_button
    ∷ t.waiting_admin_verify ∷ t.verified_done ∷ t.nav_attendance_group ∷ t.nav_personnel_group
    ∷ t.nav_fingerprint_group ∷ t.nav_admin_group ∷ t.write_closed_banner ∷ t.write_closed_hint
    ∷ t.write_open_banner ∷ t.hub_title ∷ t.import_title ∷ t.import_desc ∷ t.join_title
    ∷ t.join_desc ∷ t.leave_title ∷ t.leave_desc ∷ t.exempt_title ∷ t.exempt_desc ∷ t.count_active
    ∷ t.count_needs_enroll ∷ t.count_exempt ∷ t.count_left_with_account ∷ t.filter_scan_all
    ∷ t.scan_enrolled ∷ t.scan_needs ∷ t.scan_exempt ∷ t.scan_left_with_account ∷ t.col_scan
    ∷ t.enroll_button ∷ t.scan_policy_title ∷ t.scan_required ∷ t.scan_exempt_label
    ∷ t.exempt_reason_label ∷ t.exempt_reason_placeholder ∷ t.exempt_reason_required
    ∷ t.set_exempt_button ∷ t.clear_exempt_button ∷ t.saved_ok ∷ t.offboard_button
    ∷ t.offboard_title ∷ t.offboard_body ∷ t.offboard_accounts ∷ t.offboard_no_accounts
    ∷ t.offboard_reason_placeholder ∷ t.offboard_done ∷ t.offboard_partial ∷ t.retry_remove_button
    ∷ t.rejoin_hint ∷ t.needs_write_window ∷ []
