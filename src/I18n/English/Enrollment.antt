-- ===== src/I18n/English/Enrollment.antt =====
-- i18n/en.ts: the English texts of the enrollment page.
use adms_server.I18n.Translations.Enrollment.{EnrollmentTexts}

abbrev pub enrollment_en : EnrollmentTexts
enrollment_en = record {
  title = "Guided Enrollment Workspace";
  subtitle = "Step-by-step terminal account setup and fingerprint enrollment";
  start_new = "Start New Enrollment";
  active_queue = "Active Enrollment Queue";
  no_active_sessions = "No active enrollment sessions";
  step1_title = "Step 1: Reserve Terminal ID";
  step1_desc =
      "Select Human and target terminal. System reserves the next available terminal user ID.";
  step1_button = "Reserve Terminal ID";
  step2_title = "Step 2: Create Terminal Account";
  step2_desc = "Dispatches serialized account creation command to ZEM560 terminal.";
  step2_button = "Create Terminal Account";
  step3_title = "Step 3: Fingerprint Enrollment";
  step3_desc =
      "Direct person to ZEM560 keypad. Press Menu -> User Mng -> Enroll FP and place finger 3 times.";
  step3_button = "Confirm Fingerprint Enrolled";
  step4_title = "Step 4: Controlled Scan Verification";
  step4_desc =
      "Direct person to perform one regular attendance scan. The system detects the scan automatically.";
  step4_button = "Confirm Controlled Scan";
  step5_title = "Step 5: Review";
  step5_desc = "This person's information is ready to be confirmed.";
  step5_button = "Send for admin confirmation";
  step5_checklist_terminal_account = "Terminal account created";
  step5_checklist_fingerprint = "Fingerprint enrolled";
  step5_checklist_scan = "Test scan confirmed";
  step6_title = "Step 6: Create VERIFIED Mapping";
  step6_desc =
      "Admin reviews the evidence and confirms this person's identity for the terminal account.";
  step6_button = "Create VERIFIED Mapping";
  completed_title = "Enrollment Completed Successfully";
  completed_desc = "This person's identity and terminal account are now linked and verified.";
  cancelled_title = "Enrollment Session Cancelled";
  history_title = "Enrollment History";
  history_empty = "No completed or removed enrollments yet.";
  removed_from_terminal_label = "Removed from terminal";
  removed_from_terminal_body =
      "This terminal account was later removed from the scanner. History is preserved.";
  history_preserved_note = "Historical record — kept for reference, not editable.";
  select_person = "Select Personnel to Enroll";
  select_device = "Select Target Terminal Device";
  select_person_device_operator_required =
      "Please select a person, a terminal device, and enter the operator name.";
  terminal_display_name = "Terminal Screen Display Name (English letters and numbers only)";
  live_scan_detected = "Controlled attendance scan detected successfully via realtime stream!";
  waiting_for_scan = "Waiting for scan...";
  cancel_session = "Cancel Enrollment Session";
  cancel_reason_placeholder = "Cancellation reason (required)";
  cancel_reason_required = "Enter a cancellation reason.";
  scan_timestamp_label = "Scan Timestamp";
  scan_timestamp_required = "Select a scan timestamp.";
  metadata_inspector = "Technical Session Metadata";
  write_session_locked_title = "Changes are currently locked.";
  write_session_locked_body = "Ask an administrator to open an enrollment work session.";
  write_session_expired_mid_workflow =
      "Your work session expired. Your progress is saved — ask an administrator to reopen a work session to continue.";
  terminal_name_no_english_hint =
      "No English name on file for this person. Ask an administrator to set one in Personnel, or enter one now (English letters and numbers only).";
  terminal_name_rank_omitted_hint =
      "The rank prefix was left out because rank + name would be too long for the scanner. The full name is kept safely in Personnel.";
  creating_or_verifying = "Creating / verifying terminal account...";
  verify_reconcile_button = "Verify / Reconcile";
  terminal_conflict_title = "This terminal ID belongs to someone else";
  terminal_conflict_body =
      "The terminal account already exists but doesn't match this enrollment. Nothing was changed or deleted. Ask an administrator to check the terminal before continuing.";
  terminal_unconfirmed_title = "Could not confirm the terminal account";
  terminal_unconfirmed_body =
      "The system tried to create the account but couldn't confirm it on the terminal yet. It's safe to try again.";
  terminal_in_progress_body =
      "A terminal command for this enrollment is still running. Please wait a moment before trying again.";
  terminal_unavailable_title = "Could not reach the terminal";
  terminal_unavailable_body =
      "No account was created or changed — the system could not read the terminal's account list before attempting anything. It's safe to try again once the terminal is reachable.";
  terminal_reconciled_success =
      "Terminal account verified — it already existed on the device and now matches this enrollment.";
  terminal_created_success = "Terminal account created on device.";
  enrollment_conflict_body =
      "This enrollment has already changed state. Refresh the latest status before trying again.";
  already_cancelled_body = "This enrollment was already cancelled.";
  scan_not_found_yet_body = "No scan detected yet. Please ask the person to scan again.";
  active_enrollment_exists_body =
      "This person already has an enrollment in progress. Please finish the existing enrollment first.";
  cancel_success_message = "Enrollment cancelled.";
  reserve_success_message = "Started successfully.";
  fingerprint_window_active_message = "Ready — go to the scanner now.";
  fingerprint_confirmed_message = "Fingerprint enrollment confirmed.";
  scan_window_started_message = "Waiting for the test scan.";
  scan_confirmed_message = "Test scan confirmed.";
  ready_for_mapping_success_message = "Sent for admin confirmation.";
  start_scan_window_button = "Start test scan";
  badge_browser_action = "Do this on the computer";
  badge_physical_action = "Do this at the scanner";
  badge_admin_action = "Requires an admin";
  technical_details_toggle = "Technical details";
  meta_employee_id_label = "Person ID (system)";
  meta_terminal_uid_label = "Terminal reference ID";
  meta_reserved_at_label = "Reserved at";
  meta_account_created_label = "Terminal account created at";
  meta_fp_confirmed_at_label = "Fingerprint confirmed at";
  meta_scan_confirmed_at_label = "Test scan confirmed at";
  session_header_prefix = "Session";
  target_terminal_label = "Target terminal";
  reserved_id_label = "Reserved ID";
  reserved_by_prefix = "By";
  step_of_label = "Step";
  search_person_placeholder = "Type a name to search...";
  no_person_match_found = "No matching person found";
  fix_english_name_link = "Fix English name →";
}
