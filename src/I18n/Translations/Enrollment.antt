-- ===== src/I18n/Translations/Enrollment.antt =====
-- i18n/types.ts: the members of `Translations` for the enrollment page.
use adms_server.Common.{String, List, [], ◌∷◌}

pub record EnrollmentTexts : Type 0 where
  pub title : String
  pub subtitle : String
  pub start_new : String
  pub active_queue : String
  pub no_active_sessions : String
  pub step1_title : String
  pub step1_desc : String
  pub step1_button : String
  pub step2_title : String
  pub step2_desc : String
  pub step2_button : String
  pub step3_title : String
  pub step3_desc : String
  pub step3_button : String
  pub step4_title : String
  pub step4_desc : String
  pub step4_button : String
  pub step5_title : String
  pub step5_desc : String
  pub step5_button : String
  pub step5_checklist_terminal_account : String
  pub step5_checklist_fingerprint : String
  pub step5_checklist_scan : String
  pub step6_title : String
  pub step6_desc : String
  pub step6_button : String
  pub completed_title : String
  pub completed_desc : String
  pub cancelled_title : String
  pub history_title : String
  pub history_empty : String
  pub removed_from_terminal_label : String
  pub removed_from_terminal_body : String
  pub history_preserved_note : String
  pub select_person : String
  pub select_device : String
  pub select_person_device_operator_required : String
  pub terminal_display_name : String
  pub live_scan_detected : String
  pub waiting_for_scan : String
  pub cancel_session : String
  pub cancel_reason_placeholder : String
  pub cancel_reason_required : String
  pub scan_timestamp_label : String
  pub scan_timestamp_required : String
  pub metadata_inspector : String
  pub write_session_locked_title : String
  pub write_session_locked_body : String
  pub write_session_expired_mid_workflow : String
  pub terminal_name_no_english_hint : String
  pub terminal_name_rank_omitted_hint : String
  pub creating_or_verifying : String
  pub verify_reconcile_button : String
  pub terminal_conflict_title : String
  pub terminal_conflict_body : String
  pub terminal_unconfirmed_title : String
  pub terminal_unconfirmed_body : String
  pub terminal_in_progress_body : String
  pub terminal_unavailable_title : String
  pub terminal_unavailable_body : String
  pub terminal_reconciled_success : String
  pub terminal_created_success : String
  pub enrollment_conflict_body : String
  pub already_cancelled_body : String
  pub scan_not_found_yet_body : String
  pub active_enrollment_exists_body : String
  pub cancel_success_message : String
  pub reserve_success_message : String
  pub fingerprint_window_active_message : String
  pub fingerprint_confirmed_message : String
  pub scan_window_started_message : String
  pub scan_confirmed_message : String
  pub ready_for_mapping_success_message : String
  pub start_scan_window_button : String
  pub badge_browser_action : String
  pub badge_physical_action : String
  pub badge_admin_action : String
  pub technical_details_toggle : String
  pub meta_employee_id_label : String
  pub meta_terminal_uid_label : String
  pub meta_reserved_at_label : String
  pub meta_account_created_label : String
  pub meta_fp_confirmed_at_label : String
  pub meta_scan_confirmed_at_label : String
  pub session_header_prefix : String
  pub target_terminal_label : String
  pub reserved_id_label : String
  pub reserved_by_prefix : String
  pub step_of_label : String
  pub search_person_placeholder : String
  pub no_person_match_found : String
  pub fix_english_name_link : String

abbrev pub enrollment_texts : EnrollmentTexts → List String
enrollment_texts t =
    t.title ∷ t.subtitle ∷ t.start_new ∷ t.active_queue ∷ t.no_active_sessions ∷ t.step1_title
    ∷ t.step1_desc ∷ t.step1_button ∷ t.step2_title ∷ t.step2_desc ∷ t.step2_button ∷ t.step3_title
    ∷ t.step3_desc ∷ t.step3_button ∷ t.step4_title ∷ t.step4_desc ∷ t.step4_button ∷ t.step5_title
    ∷ t.step5_desc ∷ t.step5_button ∷ t.step5_checklist_terminal_account
    ∷ t.step5_checklist_fingerprint ∷ t.step5_checklist_scan ∷ t.step6_title ∷ t.step6_desc
    ∷ t.step6_button ∷ t.completed_title ∷ t.completed_desc ∷ t.cancelled_title ∷ t.history_title
    ∷ t.history_empty ∷ t.removed_from_terminal_label ∷ t.removed_from_terminal_body
    ∷ t.history_preserved_note ∷ t.select_person ∷ t.select_device
    ∷ t.select_person_device_operator_required ∷ t.terminal_display_name ∷ t.live_scan_detected
    ∷ t.waiting_for_scan ∷ t.cancel_session ∷ t.cancel_reason_placeholder ∷ t.cancel_reason_required
    ∷ t.scan_timestamp_label ∷ t.scan_timestamp_required ∷ t.metadata_inspector
    ∷ t.write_session_locked_title ∷ t.write_session_locked_body
    ∷ t.write_session_expired_mid_workflow ∷ t.terminal_name_no_english_hint
    ∷ t.terminal_name_rank_omitted_hint ∷ t.creating_or_verifying ∷ t.verify_reconcile_button
    ∷ t.terminal_conflict_title ∷ t.terminal_conflict_body ∷ t.terminal_unconfirmed_title
    ∷ t.terminal_unconfirmed_body ∷ t.terminal_in_progress_body ∷ t.terminal_unavailable_title
    ∷ t.terminal_unavailable_body ∷ t.terminal_reconciled_success ∷ t.terminal_created_success
    ∷ t.enrollment_conflict_body ∷ t.already_cancelled_body ∷ t.scan_not_found_yet_body
    ∷ t.active_enrollment_exists_body ∷ t.cancel_success_message ∷ t.reserve_success_message
    ∷ t.fingerprint_window_active_message ∷ t.fingerprint_confirmed_message
    ∷ t.scan_window_started_message ∷ t.scan_confirmed_message ∷ t.ready_for_mapping_success_message
    ∷ t.start_scan_window_button ∷ t.badge_browser_action ∷ t.badge_physical_action
    ∷ t.badge_admin_action ∷ t.technical_details_toggle ∷ t.meta_employee_id_label
    ∷ t.meta_terminal_uid_label ∷ t.meta_reserved_at_label ∷ t.meta_account_created_label
    ∷ t.meta_fp_confirmed_at_label ∷ t.meta_scan_confirmed_at_label ∷ t.session_header_prefix
    ∷ t.target_terminal_label ∷ t.reserved_id_label ∷ t.reserved_by_prefix ∷ t.step_of_label
    ∷ t.search_person_placeholder ∷ t.no_person_match_found ∷ t.fix_english_name_link ∷ []
