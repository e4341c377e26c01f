-- ===== src/I18n/Thai.antt =====
-- i18n/th.ts: the Thai texts.
pub mod Basics
pub mod Overview
pub mod Leave
pub mod Workflow
pub mod People
pub mod Enrollment
pub mod Scanner
pub mod Admin
use adms_server.I18n.Translations.{Translations}
use Basics.{common_th, nav_th, status_th, roles_th}
use Overview.{login_th, dashboard_th, attendance_th, devices_th, audit_th}
use Leave.{leave_th}
use Workflow.{workflow_th}
use People.{personnel_th, mappings_th}
use Enrollment.{enrollment_th}
use Scanner.{terminal_management_th}
use Admin.{system_th, stream_th, write_session_th}

abbrev pub th : Translations
th = record {
  common = common_th;
  nav = nav_th;
  status = status_th;
  roles = roles_th;
  login = login_th;
  dashboard = dashboard_th;
  leave = leave_th;
  workflow = workflow_th;
  personnel = personnel_th;
  enrollment = enrollment_th;
  attendance = attendance_th;
  devices = devices_th;
  mappings = mappings_th;
  terminal_management = terminal_management_th;
  audit = audit_th;
  system = system_th;
  stream = stream_th;
  write_session = write_session_th;
}
