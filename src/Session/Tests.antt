-- ===== src/Session/Tests.antt =====
-- Logging in while someone else's session is still shown.
use adms_server.Common.{String, true, false, none, some, List, [], ◌∷◌}
use adms_server.Api.Request.{Result, ok}
use adms_server.Api.Calls.Login.{LoginCall}
use adms_server.Auth.{MeResponse}
use adms_server.Auth.Provider.{
  ProviderState, ProviderEvent, poll_answer, found, provider_start, provider_run,
}
use adms_server.I18n.English.{en}
use adms_server.Session.{App, LoginForm, reloaded, submit_login}

abbrev user : String → String → MeResponse
user name role = record {
  username = name;
  display_name = name;
  role = role;
  work_session_required = false;
  write_enabled = true;
  write_session = none;
}

abbrev app : App
app = record {
  provider = record (provider_start none) {
    me = some (user "old" "ADMIN");
    loading = false;
    polls = 1;
  };
  path = "/login";
}

abbrev form : LoginForm
form = record { username = " ann "; password = "secret"; error = none; busy = false }

abbrev serve : LoginCall → Result String
serve c = ok "t0k"

abbrev waiting : List ProviderEvent → ProviderState
waiting es = provider_run (reloaded (submit_login en serve form app).app).provider es

abbrev polls : List ProviderEvent
polls = poll_answer (found (user "old" "ADMIN")) ∷ []
