-- ===== src/Api/Calls.antt =====
-- All calls of the `api` object in api/client.ts that go through `request` or `requestAuth`, and
-- what making one does to the session's token.
pub mod Base
pub mod Login
pub mod Records
pub mod Enrollments
pub mod Absences
pub mod Roster
pub mod Admin
pub mod Laws
use adms_server.Common.{String, Bool, true, false, Option, if◌then◌else◌}
use adms_server.Api.Request.{
  Fetch, HttpRequest, Result, Reply, authorize, base_headers, request_of, request, request_auth,
}
use adms_server.Api.Calls.Base.{Endpoint, Platform}
use adms_server.Api.Calls.Login.{LoginCall, login_endpoint, HumanCall, human_endpoint}
use adms_server.Api.Calls.Records.{RecordCall, record_endpoint}
use adms_server.Api.Calls.Enrollments.{EnrollmentCall, enrollment_endpoint}
use adms_server.Api.Calls.Absences.{AbsenceCall, absence_endpoint}
use adms_server.Api.Calls.Roster.{RosterCall, roster_endpoint}
use adms_server.Api.Calls.Admin.{TerminalCall, terminal_endpoint, AdminCall, admin_endpoint}

pub data ApiCall : Type 0 where
  login_call : LoginCall → ApiCall
  human_call : HumanCall → ApiCall
  record_call : RecordCall → ApiCall
  enrollment_call : EnrollmentCall → ApiCall
  absence_call : AbsenceCall → ApiCall
  roster_call : RosterCall → ApiCall
  terminal_call : TerminalCall → ApiCall
  admin_call : AdminCall → ApiCall

unfoldable pub endpoint : Platform → ApiCall → Endpoint
endpoint p (login_call c) = login_endpoint c
endpoint p (human_call c) = human_endpoint p c
endpoint p (record_call c) = record_endpoint p c
endpoint p (enrollment_call c) = enrollment_endpoint p c
endpoint p (absence_call c) = absence_endpoint p c
endpoint p (roster_call c) = roster_endpoint c
endpoint p (terminal_call c) = terminal_endpoint p c
endpoint p (admin_call c) = admin_endpoint p c

-- The one request that a call makes.
unfoldable pub outgoing : String → Endpoint → Option String → HttpRequest
outgoing base e token =
    request_of base
      (if e.authenticated then authorize token (base_headers e.init) else base_headers e.init)
      e.path e.init

abbrev dispatch : String → Fetch → Endpoint → Bool → Option String → Option String × Result Reply
dispatch base fetch e true token = request base fetch e.path e.init token
dispatch base fetch e false token = (token, request_auth base fetch e.path e.init)

-- A call at a session's token.
unfoldable pub perform :
    Platform → String → Fetch → ApiCall → Option String → Option String × Result Reply
perform p base fetch c token = dispatch base fetch (endpoint p c) (endpoint p c).authenticated token
