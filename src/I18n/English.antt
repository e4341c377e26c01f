-- ===== src/I18n/English.antt =====
-- i18n/en.ts: the English texts.
pub mod Basics
pub mod Overview
pub mod Leave
pub mod Workflow
pub mod People
pub mod Enrollment
pub mod Scanner
pub mod Admin
use adms_server.I18n.Translations.{Translations}
use Basics.{common_en, nav_en, status_en, roles_en}
use Overview.{login_en, dashboard_en, attendance_en, devices_en, audit_en}
use Leave.{leave_en}
use Workflow.{workflow_en}
use People.{personnel_en, mappings_en}
use Enrollment.{enrollment_en}
use Scanner.{terminal_management_en}
use Admin.{system_en, stream_en, write_session_en}

abbrev pub en : Translations
en = record {
  common = common_en;
  nav = nav_en;
  status = status_en;
  roles = roles_en;
  login = login_en;
  dashboard = dashboard_en;
  leave = leave_en;
  workflow = workflow_en;
  personnel = personnel_en;
  enrollment = enrollment_en;
  attendance = attendance_en;
  devices = devices_en;
  mappings = mappings_en;
  terminal_management = terminal_management_en;
  audit = audit_en;
  system = system_en;
  stream = stream_en;
  write_session = write_session_en;
}
