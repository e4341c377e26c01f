-- ===== src/I18n/English/Scanner.antt =====
-- i18n/en.ts: the English texts of the management of the terminal.
use adms_server.I18n.Translations.Scanner.{TerminalTexts}

abbrev pub terminal_management_en : TerminalTexts
terminal_management_en = record {
  title = "Manage Fingerprint Scanner";
  subtitle = "Check accounts, fingerprints, and remove departed people from the terminal";
  name_column = "Person";
  terminal_id_column = "Terminal ID";
  device_column = "Terminal";
  human_status_column = "Person Status";
  account_status_column = "Account Status";
  fingerprint_status_column = "Fingerprint Status";
  mapping_status_column = "Linked";
  account_present = "Ready";
  account_absent = "Not found on terminal";
  fingerprint_present = "Fingerprint on file";
  fingerprint_absent = "No fingerprint";
  fingerprint_unknown = "Needs check";
  human_active = "Active";
  human_inactive = "Departed";
  human_unlinked = "Not linked to a person";
  mapping_open = "Linked";
  mapping_closed = "Linked (closed)";
  mapping_none = "Not linked";
  device_unreachable = "Cannot reach the terminal";
  reenroll_button = "Re-enroll fingerprint";
  remove_fingerprint_button = "Remove fingerprint";
  remove_account_button = "Remove from terminal";
  refresh_button = "Check again";
  remove_fingerprint_confirm_title = "Remove this fingerprint?";
  remove_fingerprint_confirm_body =
      "The account will stay on the terminal, and existing scan history will not be deleted.";
  remove_account_confirm_title = "Remove from the terminal?";
  remove_account_confirm_body =
      "The person and their scan history will remain in the system, but they will no longer be able to scan using this account.";
  remove_account_active_warning =
      "This person is still active. Removing this account will prevent them from scanning with it.";
  remove_account_acknowledge_label = "I understand, continue";
  reenroll_confirm_title = "Start fingerprint re-enrollment?";
  reenroll_confirm_body =
      "Ask the person to go to the terminal and place their finger as prompted.";
  reenroll_cannot_cancel_notice =
      "Once started, this cannot be cancelled midway. Please wait for it to finish.";
  reenroll_in_progress = "Waiting for the terminal — please have the person place their finger...";
  reenroll_success = "Fingerprint enrolled successfully.";
  reenroll_failed = "Not successful — please try again.";
  fingerprint_remove_success = "Fingerprint removed successfully.";
  account_remove_success = "Account removed from the terminal successfully.";
  already_absent_notice = "This is already absent from the terminal.";
  viewer_no_access = "You do not have permission to perform this action.";
}
