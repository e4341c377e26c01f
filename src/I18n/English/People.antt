-- ===== src/I18n/English/People.antt =====
-- i18n/en.ts: the English texts of personnel and mappings.
use adms_server.I18n.Translations.People.{PersonnelTexts, MappingTexts}

abbrev pub personnel_en : PersonnelTexts
personnel_en = record {
  title = "Personnel Master";
  subtitle = "Authoritative Human records imported from Royal Thai Navy roster";
  thai_name = "Thai Full Name";
  english_name = "English Full Name";
  not_set = "— (Not Set)";
  personnel_id = "Personnel / Roster ID";
  rank = "Rank";
  rank_source_managed_hint = "from personnel roster file — not editable here";
  no_terminal_account_title = "No scanner account yet";
  no_terminal_account_body =
      "This person's old terminal account was removed from the scanner. Their history is preserved.";
  start_new_enrollment_button = "Enroll on scanner";
  position = "Position";
  branch = "Branch / Unit";
  category = "Category";
  scope = "Production Scope";
  production_scope = "Production Eligible";
  excluded_scope = "Excluded from Scope";
  all_scopes = "All Personnel";
  edit_english_name = "Edit English Name";
  english_name_placeholder = "e.g. Krittapon Madsen";
  save_english_name = "Save English Name";
  cancel_edit = "Cancel";
  update_success = "English name updated successfully";
  update_failed = "Failed to update English name";
  writes_disabled_notice =
      "Changes are currently locked. Ask an administrator to open a work session.";
  admin_only_notice = "Only Administrator (ADMIN) can edit English names";
  status_label = "Status";
  status_active = "Active";
  status_inactive = "Departed";
  deactivate_button = "Departed / Deactivate";
  reactivate_button = "Return to duty / Reactivate";
  deactivate_confirm_title = "Confirm this person has departed or is no longer in use?";
  deactivate_confirm_body =
      "Attendance history will not be deleted. The system will stop linking this person to new scans going forward.";
  deactivate_reason_label = "Reason";
  deactivate_reason_placeholder = "e.g. transferred, resigned, retired";
  deactivate_reason_required = "Please enter a reason";
  deactivate_success = "Deactivation recorded successfully.";
  reactivate_success = "Reactivated successfully.";
  terminal_cleanup_pending_notice =
      "This person has been deactivated. Terminal/scanner data still exists — please remove it from the terminal.";
  filter_all = "All";
  filter_active_only = "Active only";
  filter_inactive_only = "Departed only";
  add_personnel_button = "Add Personnel";
  add_personnel_title = "Add New Personnel";
  edit_personnel_button = "Edit";
  edit_personnel_title = "Edit Personnel";
  thai_full_name_label = "Full Name (Thai)";
  personnel_id_label = "Personnel ID (optional)";
  display_name_required = "Please enter a full name";
  duplicate_personnel_id_body =
      "This personnel record already exists. Please check the existing entry before adding a new one.";
  create_success_title = "Personnel added successfully";
  go_to_enrollment_button = "Enroll on Terminal";
  english_name_required_for_terminal_hint =
      "Please enter the English name before enrolling on a terminal";
  select_rank_placeholder = "— Select rank —";
  export_csv_button = "Export CSV";
  import_csv_button = "Import CSV";
  import_csv_title = "Import Personnel from CSV";
  download_template_button = "Download New-Personnel Template";
  confirm_import_button = "Confirm Import";
  csv_malformed_body = "Invalid file. Please check the file format and try again.";
  csv_new_label = "New";
  csv_update_label = "Update";
  csv_unchanged_label = "Unchanged";
  csv_error_label = "Error";
  import_committed_message = "Import complete: {created} added, {updated} updated";
}

abbrev pub mappings_en : MappingTexts
mappings_en = record {
  title = "Identity Mapping Authority";
  subtitle = "Verified temporal Human <-> Device User identity bindings";
  verified_mappings = "Verified Identity Mappings";
  valid_from = "Valid From";
  valid_to = "Valid To";
  verified_by = "Verified By";
  verified_at = "Verified At";
  active_mapping = "Active Interval";
  historical_mapping = "Expired Interval";
  admin_authority_title = "Identity Authority Verification (ADMIN Only)";
  admin_authority_desc = "Create canonical VERIFIED temporal mapping with controlled scan evidence";
  create_mapping_button = "Create VERIFIED Mapping";
  temporal_footer_note =
      "Attendance scans are matched to a person only during the period their identity mapping was active.";
  confirm_title = "Confirm identity mapping?";
  confirm_person_label = "Person";
  confirm_terminal_label = "Terminal";
  confirm_scan_label = "Controlled scan at";
  confirm_effective_label = "Takes effect from";
  confirm_warning =
      "This links the person's identity to this terminal account. Double-check the name and scan time before confirming.";
  evidence_incomplete_body =
      "The evidence needed to confirm this person is not complete yet. Please check the previous steps.";
  mapping_conflict_body =
      "This terminal ID has already been confirmed for someone else. Please check before continuing.";
  already_mapped_body = "This has already been confirmed.";
  current_section_title = "Currently Active Confirmations";
  current_section_empty = "No one is currently confirmed on a scanner.";
  history_section_title = "Confirmation History";
  history_section_empty = "No history yet.";
  removed_from_terminal_state = "Removed from terminal";
  ended_state = "Ended";
  started_label = "Started";
  ended_label = "Ended";
  former_terminal_id_label = "Former terminal ID";
  map_id_column = "Mapping ID";
  verification_method_column = "Verification Method";
  eligible_enrollment_label = "Ready for identity confirmation";
  select_eligible_session_placeholder = "— Select a session —";
  verification_note_label = "Verification note";
  verification_note_placeholder = "Reference evidence & physical check";
  no_eligible_enrollments = "No enrollments are ready for identity confirmation right now.";
  select_and_fill_required = "Please select a session and fill in the verifier and note.";
  human_field_label = "Person";
  terminal_account_field_label = "Terminal account";
  controlled_scan_evidence_label = "Controlled scan evidence";
}
