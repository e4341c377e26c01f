-- ===== src/Personnel/Roster.antt =====
-- The members of the API's `Human` that the personnel pages read, and the server's answers to the
-- calls that change a person.
use adms_server.Common.{String, Bool, Option, List}
use adms_server.Api.Json.{Json}
use adms_server.Api.Request.{Result}

pub record Human : Type 0 where
  pub employee_id : String
  pub display_name : String
  pub english_name : Option String
  pub rank : Option String
  pub personnel_id : Option String
  pub branch : Option String
  pub category : Option String
  pub position : Option String
  pub active : Bool
  pub scan_exempt : Bool
  pub scan_exempt_reason : Option String
  pub has_active_terminal_account : Bool

-- What the server answers: a removal names the accounts that it failed to remove.
pub record RosterServer : Type 0 where
  pub deactivate_human : String → String → Result Json
  pub remove_from_scanner : String → Result (List String)
  pub reactivate_human : String → Result Json
  pub set_scan_exempt : String → Bool → Option String → Result Json
