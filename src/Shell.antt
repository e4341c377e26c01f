-- ===== src/Shell.antt =====
-- App.tsx and components/Layout.tsx: the routes with their guards, and the navigation of a role.
pub mod Laws
mod Tests
use adms_server.Common.{
  String, Bool, true, false, Option, none, some, List, [], ◌∷◌, ◌++◌, if◌then◌else◌, str_eq, truthy,
  get_or,
}
use adms_server.Auth.{MeResponse, role_of, has}

-- The pages that App.tsx has routes for, without the two that show one record.
pub data Page : Type 0 where
  login dashboard personnel devices attendance daily absences monthly enrollments mappings : Page
  terminal_management audit system : Page

-- The route of a path, as far as the navigation leads.
unfoldable pub route_of : String → Option Page
route_of path =
    if str_eq path "/login"
    then some login
    else if str_eq path "/"
    then some dashboard
    else if str_eq path "/personnel"
    then some personnel
    else if str_eq path "/devices"
    then some devices
    else if str_eq path "/attendance"
    then some attendance
    else if str_eq path "/daily"
    then some daily
    else if str_eq path "/absences"
    then some absences
    else if str_eq path "/monthly"
    then some monthly
    else if str_eq path "/enrollments"
    then some enrollments
    else if str_eq path "/mappings"
    then some mappings
    else if str_eq path "/terminal-management"
    then some terminal_management
    else if str_eq path "/audit"
    then some audit
    else if str_eq path "/system"
    then some system
    else none

-- What is rendered at a path.
pub data Shown : Type 0 where
  page : Page → Shown
  -- the page's own notice that the role has no access
  refused : Page → Shown
  to_login forbidden nothing : Shown

-- `RequireAuth`
unfoldable pub require_auth : Option String → Shown → Shown
require_auth token inner = if truthy (get_or token "") then inner else to_login

-- `RequireRole`
unfoldable pub require_role : List String → Option MeResponse → Bool → Shown → Shown
require_role roles me true inner = nothing
require_role roles none false inner = forbidden
require_role roles (some me) false inner = if has me.role roles then inner else forbidden

-- The page of the terminals shows a notice to everyone but administrators.
abbrev pub terminal_page : Option MeResponse → Shown
terminal_page me =
    if str_eq (role_of me) "ADMIN" then page terminal_management else refused terminal_management

abbrev guarded : Option String → Option MeResponse → Bool → Option Page → Shown
guarded token me loading none = nothing
guarded token me loading (some login) = page login
guarded token me loading (some audit) =
    require_auth token (require_role ("ADMIN" ∷ []) me loading (page audit))
guarded token me loading (some terminal_management) = require_auth token (terminal_page me)
guarded token me loading (some p) = require_auth token (page p)

-- `App`: a path that has no route shows nothing.
unfoldable pub open_page : Option String → Option MeResponse → Bool → String → Shown
unfolding route_of require_auth require_role
open_page token me loading path = guarded token me loading (route_of path)

pub record NavGroup : Type 0 where
  pub title : String
  pub items : List String

-- `NAV_GROUPS`, with the keys of the titles, and the paths of the items.
unfoldable pub nav_groups : Option MeResponse → List NavGroup
nav_groups me =
    if str_eq (role_of me) "ENROLLMENT_OPERATOR"
    then record { title = "navFingerprintGroup"; items = "/enrollments" ∷ [] } ∷ []
    else record {
      title = "navAttendanceGroup";
      items = "/" ∷ "/daily" ∷ "/absences" ∷ "/monthly" ∷ "/attendance" ∷ [];
    }
      ∷ record { title = "navPersonnelGroup"; items = "/personnel" ∷ [] }
      ∷ record { title = "navFingerprintGroup"; items = "/enrollments" ∷ "/mappings" ∷ [] }
      ∷ record {
        title = "navAdminGroup";
        items =
            "/devices"
            ∷ "/system"
            ∷ (if str_eq (role_of me) "ADMIN" then "/terminal-management" ∷ "/audit" ∷ [] else []);
      }
      ∷ []

abbrev paths_of : List NavGroup → List String
paths_of [] = []
paths_of (g ∷ gs) = g.items ++ paths_of gs

unfoldable pub nav_paths : Option MeResponse → List String
unfolding nav_groups
nav_paths me = paths_of (nav_groups me)
