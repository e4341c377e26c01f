-- ===== src/Session.antt =====
-- pages/Login.tsx and `logout` of components/Layout.tsx, over the session of auth.tsx: logging in and
-- out, up to the reload of the session and the page that is shown next.
pub mod Laws
mod Tests
use adms_server.Common.{
  String, Bool, false, not, ◌||◌, Option, none, some, List, [], ◌∷◌, if◌then◌else◌, get_or, truthy,
}
use adms_server.Common.Text.{trim}
use adms_server.Api.Json.{Json}
use adms_server.Api.Request.{Result, ok, thrown}
use adms_server.Api.Calls.Login.{LoginCall, login, logout}
use adms_server.Auth.Provider.{ProviderState, provider_step, tick}
use adms_server.I18n.Translations.{Translations}
use adms_server.I18n.ApiErrors.{friendly_api_error}

-- The session and the path that is shown.
pub record App : Type 0 where
  pub provider : ProviderState
  pub path : String

pub record LoginForm : Type 0 where
  pub username : String
  pub password : String
  pub error : Option String
  pub busy : Bool

pub record LoggedIn : Type 0 where
  pub form : LoginForm
  pub app : App
  pub calls : List LoginCall

-- Already authenticated: the page is left at once.
unfoldable pub on_login_page : App → App
on_login_page a = if truthy (get_or a.provider.token "") then record a { path = "/" } else a

abbrev answered : Translations → LoginForm → App → Result String → LoggedIn
answered t form a (ok token) = record {
  form = record form { error = none; busy = false };
  app = record { provider = record a.provider { token = some token }; path = "/" };
  calls = login (trim form.username) form.password ∷ [];
}
answered t form a (thrown e) = record {
  form = record form { error = some (friendly_api_error e t); busy = false };
  app = a;
  calls = login (trim form.username) form.password ∷ [];
}

-- The effect of the `reload` that a login and a logout ask for; it runs after the page is rendered.
abbrev pub reloaded : App → App
reloaded a = record a { provider = provider_step a.provider tick }

-- `submit` up to its effect; the server answers the new token.
unfoldable pub submit_login :
    Translations → (LoginCall → Result String) → LoginForm → App → LoggedIn
submit_login t serve form a =
    if not (truthy (trim form.username)) || not (truthy form.password)
    then record { form = form; app = a; calls = [] }
    else answered t form a (serve (login (trim form.username) form.password))

-- `logout`, whatever its call is answered: `clearToken`, and the login page.
unfoldable pub run_logout : Result Json → App → App
run_logout answer a = record { provider = record a.provider { token = none }; path = "/login" }
