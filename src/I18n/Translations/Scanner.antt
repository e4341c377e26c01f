-- ===== src/I18n/Translations/Scanner.antt =====
-- i18n/types.ts: the members of `Translations` for the management of the terminal.
use adms_server.Common.{String, List, [], ◌∷◌}

pub record TerminalTexts : Type 0 where
  pub title : String
  pub subtitle : String
  pub name_column : String
  pub terminal_id_column : String
  pub device_column : String
  pub human_status_column : String
  pub account_status_column : String
  pub fingerprint_status_column : String
  pub mapping_status_column : String
  pub account_present : String
  pub account_absent : String
  pub fingerprint_present : String
  pub fingerprint_absent : String
  pub fingerprint_unknown : String
  pub human_active : String
  pub human_inactive : String
  pub human_unlinked : String
  pub mapping_open : String
  pub mapping_closed : String
  pub mapping_none : String
  pub device_unreachable : String
  pub reenroll_button : String
  pub remove_fingerprint_button : String
  pub remove_account_button : String
  pub refresh_button : String
  pub remove_fingerprint_confirm_title : String
  pub remove_fingerprint_confirm_body : String
  pub remove_account_confirm_title : String
  pub remove_account_confirm_body : String
  pub remove_account_active_warning : String
  pub remove_account_acknowledge_label : String
  pub reenroll_confirm_title : String
  pub reenroll_confirm_body : String
  pub reenroll_cannot_cancel_notice : String
  pub reenroll_in_progress : String
  pub reenroll_success : String
  pub reenroll_failed : String
  pub fingerprint_remove_success : String
  pub account_remove_success : String
  pub already_absent_notice : String
  pub viewer_no_access : String

abbrev pub terminal_management_texts : TerminalTexts → List String
terminal_management_texts t =
    t.title ∷ t.subtitle ∷ t.name_column ∷ t.terminal_id_column ∷ t.device_column
    ∷ t.human_status_column ∷ t.account_status_column ∷ t.fingerprint_status_column
    ∷ t.mapping_status_column ∷ t.account_present ∷ t.account_absent ∷ t.fingerprint_present
    ∷ t.fingerprint_absent ∷ t.fingerprint_unknown ∷ t.human_active ∷ t.human_inactive
    ∷ t.human_unlinked ∷ t.mapping_open ∷ t.mapping_closed ∷ t.mapping_none ∷ t.device_unreachable
    ∷ t.reenroll_button ∷ t.remove_fingerprint_button ∷ t.remove_account_button ∷ t.refresh_button
    ∷ t.remove_fingerprint_confirm_title ∷ t.remove_fingerprint_confirm_body
    ∷ t.remove_account_confirm_title ∷ t.remove_account_confirm_body
    ∷ t.remove_account_active_warning ∷ t.remove_account_acknowledge_label
    ∷ t.reenroll_confirm_title ∷ t.reenroll_confirm_body ∷ t.reenroll_cannot_cancel_notice
    ∷ t.reenroll_in_progress ∷ t.reenroll_success ∷ t.reenroll_failed ∷ t.fingerprint_remove_success
    ∷ t.account_remove_success ∷ t.already_absent_notice ∷ t.viewer_no_access ∷ []
