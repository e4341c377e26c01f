-- ===== src/Session/Laws.antt =====
-- Who is logged in after a login and a logout, and what is shown meanwhile.
use adms_server.Common.{◌≡◌, refl, true, false, none, arith}
use adms_server.Api.Json.{Json}
use adms_server.Api.Request.{Result}
use adms_server.Auth.Provider.{ProviderState, ProviderEvent, poll_timer, poll_answer, provider_step}
use adms_server.Shell.{Shown, to_login, require_auth}
use adms_server.I18n.Translations.{Translations}
use adms_server.Session.{App, reloaded, run_logout, on_login_page}

-- An event of the poll for an open write session.
abbrev OfPoll : ProviderEvent → Type 0
OfPoll poll_timer = Unit
OfPoll (poll_answer a) = Unit
OfPoll _ = ⊥

-- One call of an effect is under way.
abbrev Waits : ProviderState → Type 0
Waits s = (s.loads ≡ 1) × (s.loading ≡ true)

-- The page after a logout and its effect.
run_logout-token :
    (answer : Result Json) (a : App)
    → ((reloaded (run_logout answer a)).provider.token ≡ none)
      × ((reloaded (run_logout answer a)).provider.me ≡ none)
      × ((reloaded (run_logout answer a)).provider.loading ≡ false)
unfolding run_logout provider_step
run_logout-token answer a = ground arith

-- A logout forgets the token and the user, whatever its call is answered, and leads to the login page,
-- which stays; every page behind the login then leads there too.
logout_forgets :
    (answer : Result Json) (a : App)
    → ((reloaded (run_logout answer a)).provider.token ≡ none)
      × ((reloaded (run_logout answer a)).provider.me ≡ none)
      × ((reloaded (run_logout answer a)).provider.loading ≡ false)
      × (on_login_page (reloaded (run_logout answer a)) ≡ reloaded (run_logout answer a))
      × ((inner : Shown)
          → require_auth (reloaded (run_logout answer a)).provider.token inner ≡ to_login)
unfolding on_login_page require_auth
logout_forgets answer a =
    let left = run_logout-token answer a in
    (left.0, left.1, left.2, rw (left.0, on_login_page) refl, λ inner. rw left.0 refl)
