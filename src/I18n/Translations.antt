-- ===== src/I18n/Translations.antt =====
-- i18n/types.ts: the type of a language's texts, by the sections of the interface.
pub mod Basics
pub mod Overview
pub mod Leave
pub mod Workflow
pub mod People
pub mod Enrollment
pub mod Scanner
pub mod Admin
use adms_server.Common.{String, List, ◌++◌}
pub use Basics.{ApiErrorTexts, CommonTexts, NavTexts, StatusTexts, RoleTexts}
use Basics.{api_errors_texts, common_texts, nav_texts, status_texts, roles_texts}
pub use Overview.{LoginTexts, DashboardTexts, AttendanceTexts, DeviceTexts, AuditTexts}
use Overview.{login_texts, dashboard_texts, attendance_texts, devices_texts, audit_texts}
pub use Leave.{LeaveTexts}
use Leave.{leave_texts}
pub use Workflow.{WorkflowTexts}
use Workflow.{workflow_texts}
pub use People.{PersonnelTexts, MappingTexts}
use People.{personnel_texts, mappings_texts}
pub use Enrollment.{EnrollmentTexts}
use Enrollment.{enrollment_texts}
pub use Scanner.{TerminalTexts}
use Scanner.{terminal_management_texts}
pub use Admin.{SystemTexts, StreamTexts, WriteSessionTexts}
use Admin.{system_texts, stream_texts, write_session_texts}

pub record Translations : Type 0 where
  pub common : CommonTexts
  pub nav : NavTexts
  pub status : StatusTexts
  pub roles : RoleTexts
  pub login : LoginTexts
  pub dashboard : DashboardTexts
  pub leave : LeaveTexts
  pub workflow : WorkflowTexts
  pub personnel : PersonnelTexts
  pub enrollment : EnrollmentTexts
  pub attendance : AttendanceTexts
  pub devices : DeviceTexts
  pub mappings : MappingTexts
  pub terminal_management : TerminalTexts
  pub audit : AuditTexts
  pub system : SystemTexts
  pub stream : StreamTexts
  pub write_session : WriteSessionTexts

-- All texts of a language.
abbrev pub texts : Translations → List String
texts t =
    common_texts t.common
    ++ api_errors_texts t.common.api_errors
    ++ nav_texts t.nav
    ++ status_texts t.status
    ++ roles_texts t.roles
    ++ login_texts t.login
    ++ dashboard_texts t.dashboard
    ++ leave_texts t.leave
    ++ workflow_texts t.workflow
    ++ personnel_texts t.personnel
    ++ enrollment_texts t.enrollment
    ++ attendance_texts t.attendance
    ++ devices_texts t.devices
    ++ mappings_texts t.mappings
    ++ terminal_management_texts t.terminal_management
    ++ audit_texts t.audit
    ++ system_texts t.system
    ++ stream_texts t.stream
    ++ write_session_texts t.write_session
