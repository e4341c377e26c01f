-- ===== src/Auth/Provider/Laws.antt =====
-- Invariants of the provider.
use adms_server.Common.{◌<◌, String, true, Option, none, some, ◌≡◌, List, [], ◌∷◌, arith}
use adms_server.Auth.{MeResponse}
use adms_server.Auth.Provider.{
  ProviderState, ProviderEvent, tick, set_token, poll_answer, found, session_active, provider_step,
  provider_run, provider_start,
}

-- What holds between two events once the first effect has run.
pub record Inv (s : ProviderState) : Type 0 where
  pub loading_waits : s.loading ≡ true → 0 < s.loads
  pub polling_active : s.polling ≡ true → session_active s.me ≡ true

provider_step-Inv : (s : ProviderState) (e : ProviderEvent) → Inv s → Inv (provider_step s e)
unfolding provider_step
provider_step-Inv s e h = ground arith

provider_run-Inv : (s : ProviderState) (es : List ProviderEvent) → Inv s → Inv (provider_run s es)
unfolding provider_run
provider_run-Inv s [] h = h
provider_run-Inv s (e ∷ es) h = provider_run-Inv (provider_step s e) es (provider_step-Inv s e h)

first_effect-Inv : (token : Option String) → Inv (provider_step (provider_start token) tick)
unfolding provider_step provider_start
first_effect-Inv token = ground arith

-- Whatever is answered, in whatever order, after the first effect: the interface is loading only
-- while a call of an effect is under way, and the poll's timer is set only while the user's write
-- session is active.
pub provider-Inv :
    (token : Option String) (es : List ProviderEvent)
    → Inv (provider_run (provider_step (provider_start token) tick) es)
provider-Inv token es = provider_run-Inv _ es (first_effect-Inv token)

-- A poll that is under way while the operator logs out brings the user back when it is answered,
-- though there is no token any more.
pub poll_after_logout :
    (s : ProviderState) (m : MeResponse)
    → 0 < s.polls
    → let t = provider_step (provider_step s (set_token none)) (poll_answer (found m)) in
      (t.token ≡ none) × (t.me ≡ some m)
unfolding provider_step
poll_after_logout s m h = ground arith
