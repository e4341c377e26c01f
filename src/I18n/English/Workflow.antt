-- ===== src/I18n/English/Workflow.antt =====
-- i18n/en.ts: the English texts of the personnel workflows.
use adms_server.I18n.Translations.Workflow.{WorkflowTexts}

abbrev pub workflow_en : WorkflowTexts
workflow_en = record {
  scan_window_expired = "The test-scan window has expired — reopen it and scan again";
  scan_window_reopen = "Reopen test-scan window (5 min)";
  names_synced_result = "Updated {renamed} name(s) on the scanner ({failed} failed)";
  names_mismatch_title = "{n} scanner account(s) with a name that differs from the roster";
  names_sync_all_button = "Update all on scanner ({n})";
  terminal_name_auto =
      "Names update on the scanner automatically when rank or English name changes — use this if the scanner was offline at the time";
  save_english_name = "Save English name";
  save_english_name_hint =
      "No English name on file — saving here stores it on the person and the scanner name is built from it (rank + name)";
  terminal_name_title = "Name on the scanner";
  terminal_name_on_device = "On device";
  terminal_name_expected = "Should be (rank + English name)";
  terminal_name_mismatch = "The scanner name does not match the roster";
  terminal_name_sync_button = "Update name on scanner";
  terminal_name_synced = "Updated on the scanner (fingerprints unchanged)";
  terminal_name_needs_english = "Set the English name first";
  open_policy_title = "Editing and fingerprint enrollment: always open";
  open_policy_body =
      "No edit window needed — roster, leave and fingerprint enrollment can be done any time, still limited by role and audited. Attendance scans count only 06:30–11:00 (after 10:00 = late; scans outside are stored but not counted)";
  outside_window = "Scanned outside window";
  offboard_deferred =
      "Closed in roster — remove from the scanner once fingerprint work is open (see 'Left, still on scanner')";
  fingerprint_window_needed = "Fingerprint work must be open (Mon–Fri 09:00–18:00)";
  pw_current_wrong = "Current password is incorrect";
  pw_same = "New password must differ from the current one";
  pw_too_short = "New password needs at least 12 characters (now {n})";
  pw_current_missing = "Enter your current password";
  pw_too_long = "Password is too long (max 256)";
  pw_session_expired = "Session expired, please sign in again";
  reason_finance = "Finance";
  reason_command_office = "Commander's office";
  reason_other = "Other (specify)";
  quick_required = "Must scan";
  quick_exempt_prefix = "Exempt:";
  selected_count = "{n} selected";
  bulk_exempt = "Mark scan-exempt";
  bulk_require = "Require scanning";
  bulk_done = "Updated {n} people";
  clear_selection = "Clear selection";
  all_branches = "Section: all";
  select_page = "Select page";
  position_col = "Position";
  wiz_step1 = "Create scanner account";
  wiz_step2 = "Enroll at scanner";
  wiz_step3 = "Test scan";
  wiz_step4 = "Verify identity";
  wiz_step_of = "Step";
  auto_scan_hint = "Once they scan, the system confirms automatically";
  verify_inline_title = "Confirm this fingerprint belongs to this person";
  verify_note_label = "Verification note";
  verify_note_placeholder = "e.g. checked ID card";
  verify_button = "Verify and finish";
  waiting_admin_verify = "Last step: waiting for an administrator to verify identity";
  verified_done = "Enrollment complete — attendance is now recorded";
  nav_attendance_group = "Attendance";
  nav_personnel_group = "Personnel";
  nav_fingerprint_group = "Fingerprints";
  nav_admin_group = "Administration";
  write_closed_banner = "Fingerprint / scanner work: closed";
  write_closed_hint =
      "Roster, ranks, positions and leave can be edited any time — fingerprint and scanner work opens Mon–Fri 09:00–18:00, or an operator can open it on the System page";
  write_open_banner = "Fingerprint / scanner work open until";
  hub_title = "Personnel tasks";
  import_title = "Update names / ranks from Excel";
  import_desc = "Export → edit in Excel → import; changes are shown for review before saving";
  join_title = "New arrival";
  join_desc = "Add the person, then enroll their fingerprint at the scanner";
  leave_title = "Leaving the unit";
  leave_desc =
      "Open the person and press 'Leave unit' — the name is closed and fingerprints are removed from the scanner";
  exempt_title = "Scan-exempt";
  exempt_desc =
      "e.g. commander's office, finance — no enrollment, never counted absent; set on the person's page";
  count_active = "Current personnel";
  count_needs_enroll = "Not enrolled yet";
  count_exempt = "Scan-exempt";
  count_left_with_account = "Left, still on scanner";
  filter_scan_all = "Fingerprint: all";
  scan_enrolled = "Enrolled";
  scan_needs = "Not enrolled";
  scan_exempt = "Exempt";
  scan_left_with_account = "Remove from scanner";
  col_scan = "Fingerprint";
  enroll_button = "Enroll fingerprint";
  scan_policy_title = "Attendance scanning";
  scan_required = "Must scan in/out";
  scan_exempt_label = "Exempt from scanning";
  exempt_reason_label = "Reason / section";
  exempt_reason_placeholder = "e.g. Commander's office, Finance";
  exempt_reason_required = "Please enter a reason";
  set_exempt_button = "Mark scan-exempt";
  clear_exempt_button = "Remove exemption";
  saved_ok = "Saved";
  offboard_button = "Leave unit";
  offboard_title = "Confirm leaving the unit";
  offboard_body =
      "This will (1) close the person in the roster — attendance history is kept (2) remove their account and fingerprints from the scanner";
  offboard_accounts = "Scanner accounts to remove";
  offboard_no_accounts = "No scanner accounts";
  offboard_reason_placeholder = "e.g. transferred to ..., discharged, retired";
  offboard_done = "Done — closed in roster and removed from scanner";
  offboard_partial = "Closed in roster, but removal from the scanner failed — retry below";
  retry_remove_button = "Remove from scanner";
  rejoin_hint = "If they return, fingerprints must be enrolled again";
  needs_write_window = "Editing must be open first";
}
