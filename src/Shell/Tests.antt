-- ===== src/Shell/Tests.antt =====
-- The navigation of an administrator.
use adms_server.Common.{true, false, none, some, ◌≡◌, refl, All}
use adms_server.Auth.{MeResponse}
use adms_server.Shell.{Page, page, open_page, nav_paths}
use adms_server.Shell.Laws.{nav_opens}

abbrev admin : MeResponse
admin = record {
  username = "ann";
  display_name = "Ann";
  role = "ADMIN";
  write_enabled = true;
  work_session_required = false;
  write_session = none;
}

nav_opens_example :
    All
      (λ path. (p : Page) × (open_page (some "t") (some admin) false path ≡ page p))
      (nav_paths (some admin))
nav_opens_example = nav_opens (some "t") admin refl
