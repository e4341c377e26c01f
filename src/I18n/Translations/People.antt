-- ===== src/I18n/Translations/People.antt =====
-- i18n/types.ts: the members of `Translations` for personnel and mappings.
use adms_server.Common.{String, List, [], ◌∷◌}

pub record PersonnelTexts : Type 0 where
  pub title : String
  pub subtitle : String
  pub thai_name : String
  pub english_name : String
  pub not_set : String
  pub personnel_id : String
  pub rank : String
  pub rank_source_managed_hint : String
  pub no_terminal_account_title : String
  pub no_terminal_account_body : String
  pub start_new_enrollment_button : String
  pub position : String
  pub branch : String
  pub category : String
  pub scope : String
  pub production_scope : String
  pub excluded_scope : String
  pub all_scopes : String
  pub edit_english_name : String
  pub english_name_placeholder : String
  pub save_english_name : String
  pub cancel_edit : String
  pub update_success : String
  pub update_failed : String
  pub writes_disabled_notice : String
  pub admin_only_notice : String
  pub status_label : String
  pub status_active : String
  pub status_inactive : String
  pub deactivate_button : String
  pub reactivate_button : String
  pub deactivate_confirm_title : String
  pub deactivate_confirm_body : String
  pub deactivate_reason_label : String
  pub deactivate_reason_placeholder : String
  pub deactivate_reason_required : String
  pub deactivate_success : String
  pub reactivate_success : String
  pub terminal_cleanup_pending_notice : String
  pub filter_all : String
  pub filter_active_only : String
  pub filter_inactive_only : String
  pub add_personnel_button : String
  pub add_personnel_title : String
  pub edit_personnel_button : String
  pub edit_personnel_title : String
  pub thai_full_name_label : String
  pub personnel_id_label : String
  pub display_name_required : String
  pub duplicate_personnel_id_body : String
  pub create_success_title : String
  pub go_to_enrollment_button : String
  pub english_name_required_for_terminal_hint : String
  pub select_rank_placeholder : String
  pub export_csv_button : String
  pub import_csv_button : String
  pub import_csv_title : String
  pub download_template_button : String
  pub confirm_import_button : String
  pub csv_malformed_body : String
  pub csv_new_label : String
  pub csv_update_label : String
  pub csv_unchanged_label : String
  pub csv_error_label : String
  pub import_committed_message : String

abbrev pub personnel_texts : PersonnelTexts → List String
personnel_texts t =
    t.title ∷ t.subtitle ∷ t.thai_name ∷ t.english_name ∷ t.not_set ∷ t.personnel_id ∷ t.rank
    ∷ t.rank_source_managed_hint ∷ t.no_terminal_account_title ∷ t.no_terminal_account_body
    ∷ t.start_new_enrollment_button ∷ t.position ∷ t.branch ∷ t.category ∷ t.scope
    ∷ t.production_scope ∷ t.excluded_scope ∷ t.all_scopes ∷ t.edit_english_name
    ∷ t.english_name_placeholder ∷ t.save_english_name ∷ t.cancel_edit ∷ t.update_success
    ∷ t.update_failed ∷ t.writes_disabled_notice ∷ t.admin_only_notice ∷ t.status_label
    ∷ t.status_active ∷ t.status_inactive ∷ t.deactivate_button ∷ t.reactivate_button
    ∷ t.deactivate_confirm_title ∷ t.deactivate_confirm_body ∷ t.deactivate_reason_label
    ∷ t.deactivate_reason_placeholder ∷ t.deactivate_reason_required ∷ t.deactivate_success
    ∷ t.reactivate_success ∷ t.terminal_cleanup_pending_notice ∷ t.filter_all ∷ t.filter_active_only
    ∷ t.filter_inactive_only ∷ t.add_personnel_button ∷ t.add_personnel_title
    ∷ t.edit_personnel_button ∷ t.edit_personnel_title ∷ t.thai_full_name_label
    ∷ t.personnel_id_label ∷ t.display_name_required ∷ t.duplicate_personnel_id_body
    ∷ t.create_success_title ∷ t.go_to_enrollment_button ∷ t.english_name_required_for_terminal_hint
    ∷ t.select_rank_placeholder ∷ t.export_csv_button ∷ t.import_csv_button ∷ t.import_csv_title
    ∷ t.download_template_button ∷ t.confirm_import_button ∷ t.csv_malformed_body ∷ t.csv_new_label
    ∷ t.csv_update_label ∷ t.csv_unchanged_label ∷ t.csv_error_label ∷ t.import_committed_message
    ∷ []

pub record MappingTexts : Type 0 where
  pub title : String
  pub subtitle : String
  pub verified_mappings : String
  pub valid_from : String
  pub valid_to : String
  pub verified_by : String
  pub verified_at : String
  pub active_mapping : String
  pub historical_mapping : String
  pub admin_authority_title : String
  pub admin_authority_desc : String
  pub create_mapping_button : String
  pub temporal_footer_note : String
  pub confirm_title : String
  pub confirm_person_label : String
  pub confirm_terminal_label : String
  pub confirm_scan_label : String
  pub confirm_effective_label : String
  pub confirm_warning : String
  pub evidence_incomplete_body : String
  pub mapping_conflict_body : String
  pub already_mapped_body : String
  pub current_section_title : String
  pub current_section_empty : String
  pub history_section_title : String
  pub history_section_empty : String
  pub removed_from_terminal_state : String
  pub ended_state : String
  pub started_label : String
  pub ended_label : String
  pub former_terminal_id_label : String
  pub map_id_column : String
  pub verification_method_column : String
  pub eligible_enrollment_label : String
  pub select_eligible_session_placeholder : String
  pub verification_note_label : String
  pub verification_note_placeholder : String
  pub no_eligible_enrollments : String
  pub select_and_fill_required : String
  pub human_field_label : String
  pub terminal_account_field_label : String
  pub controlled_scan_evidence_label : String

abbrev pub mappings_texts : MappingTexts → List String
mappings_texts t =
    t.title ∷ t.subtitle ∷ t.verified_mappings ∷ t.valid_from ∷ t.valid_to ∷ t.verified_by
    ∷ t.verified_at ∷ t.active_mapping ∷ t.historical_mapping ∷ t.admin_authority_title
    ∷ t.admin_authority_desc ∷ t.create_mapping_button ∷ t.temporal_footer_note ∷ t.confirm_title
    ∷ t.confirm_person_label ∷ t.confirm_terminal_label ∷ t.confirm_scan_label
    ∷ t.confirm_effective_label ∷ t.confirm_warning ∷ t.evidence_incomplete_body
    ∷ t.mapping_conflict_body ∷ t.already_mapped_body ∷ t.current_section_title
    ∷ t.current_section_empty ∷ t.history_section_title ∷ t.history_section_empty
    ∷ t.removed_from_terminal_state ∷ t.ended_state ∷ t.started_label ∷ t.ended_label
    ∷ t.former_terminal_id_label ∷ t.map_id_column ∷ t.verification_method_column
    ∷ t.eligible_enrollment_label ∷ t.select_eligible_session_placeholder
    ∷ t.verification_note_label ∷ t.verification_note_placeholder ∷ t.no_eligible_enrollments
    ∷ t.select_and_fill_required ∷ t.human_field_label ∷ t.terminal_account_field_label
    ∷ t.controlled_scan_evidence_label ∷ []
