-- ===== src/Auth/Tests.antt =====
-- Roles and the provider at concrete states.
use adms_server.Common.{true, false, none, some, ◌≡◌, refl, List, [], ◌∷◌, arith}
use adms_server.Auth.{WriteSessionStatus, MeResponse, auth_state}
use adms_server.Auth.Provider.{
  ProviderState, ProviderEvent, tick, load_answer, poll_timer, poll_answer, set_token, found,
  refused, provider_start, provider_step, provider_run,
}
use adms_server.Auth.Provider.Laws.{Inv, provider-Inv, poll_after_logout}

abbrev open_session : WriteSessionStatus
open_session = record {
  active = true;
  expires_at = some "2026-09-03T10:00:00Z";
  opened_by_name = some "ann";
  reason = some "enrolment day";
}

abbrev enroller : MeResponse
enroller = record {
  username = "eo";
  display_name = "Enroller";
  role = "ENROLLMENT_OPERATOR";
  work_session_required = true;
  write_enabled = true;
  write_session = some open_session;
}

enroller_mutates : (auth_state (some enroller) false false).can_mutate ≡ true
unfolding auth_state
enroller_mutates = refl

abbrev morning : List ProviderEvent
morning = load_answer (found enroller) ∷ poll_timer ∷ poll_answer refused ∷ []

morning_polls :
    (provider_run (provider_step (provider_start (some "t")) tick) morning).me ≡ some enroller
unfolding provider_run provider_step provider_start
morning_polls = refl

provider-Inv_example : Inv (provider_run (provider_step (provider_start (some "t")) tick) morning)
provider-Inv_example = provider-Inv (some "t") morning

abbrev polled : ProviderState
polled = record {
  token = some "t";
  me = some enroller;
  loading = false;
  auth_error = false;
  loads = 0;
  polls = 1;
  polling = true;
}

poll_after_logout_example :
    ((provider_step (provider_step polled (set_token none)) (poll_answer (found enroller))).token
      ≡ none)
    × ((provider_step (provider_step polled (set_token none)) (poll_answer (found enroller))).me
        ≡ some enroller)
poll_after_logout_example = poll_after_logout polled enroller (omega arith)
