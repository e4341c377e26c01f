-- ===== src/Auth/Provider.antt =====
-- `AuthProvider` of auth.tsx, as the events that change its state: an effect for each `reload`, the
-- answers of the calls that it starts, and the poll of an open write session.
pub mod Laws
use adms_server.Common.{
  ℕ, ◌+◌, ◌-◌, String, Bool, true, false, ◌&&◌, Option, none, some, get_or, truthy, if◌then◌else◌,
  ◌==◌, List, [], ◌∷◌,
}
use adms_server.Auth.{MeResponse, is_active, session_of}

-- `loads` and `polls` count the calls of `/auth/me` that are under way; `polling` is whether the
-- poll's timer is set. The token is the session's.
pub record ProviderState : Type 0 where
  pub token : Option String
  pub me : Option MeResponse
  pub loading : Bool
  pub auth_error : Bool
  pub loads : ℕ
  pub polls : ℕ
  pub polling : Bool

-- The answer of a call of `/auth/me`: the user, the error of a 401, which forgets the token, or
-- another error.
pub data MeAnswer : Type 0 where
  found : MeResponse → MeAnswer
  refused broken : MeAnswer

pub data ProviderEvent : Type 0 where
  -- the effect of a mount or a `reload`
  tick : ProviderEvent
  -- logging in or out elsewhere changes the token, and then reloads
  set_token : Option String → ProviderEvent
  load_answer : MeAnswer → ProviderEvent
  poll_timer : ProviderEvent
  poll_answer : MeAnswer → ProviderEvent

abbrev has_token : ProviderState → Bool
has_token s = truthy (get_or s.token "")

abbrev pub session_active : Option MeResponse → Bool
session_active me = is_active (session_of me)

abbrev bool_eq : Bool → Bool → Bool
bool_eq true b = b
bool_eq false true = false
bool_eq false false = true

-- The poll's effect runs when `writeSessionActive` changes.
abbrev update_polling : Bool → ProviderState → ProviderState
update_polling was s =
    if bool_eq was (session_active s.me)
    then s
    else record s { polling = has_token s && session_active s.me }

abbrev set_me : Option MeResponse → ProviderState → ProviderState
set_me me s = update_polling (session_active s.me) (record s { me = me })

run_effect : ProviderState → ProviderState
run_effect s =
    if has_token s
    then record s { loading = true; loads = s.loads + 1 }
    else set_me none (record s { auth_error = false; loading = false })

-- `.then`, `.catch` and `.finally` of the effect's call
on_load : MeAnswer → ProviderState → ProviderState
on_load (found me) s = set_me (some me) (record s { auth_error = false; loading = false })
on_load refused s = set_me none (record s { token = none; auth_error = true; loading = false })
on_load broken s = set_me none (record s { auth_error = true; loading = false })

-- `.then(setMe).catch(() => {})`
on_poll : MeAnswer → ProviderState → ProviderState
on_poll (found me) s = set_me (some me) s
on_poll refused s = record s { token = none }
on_poll broken s = s

-- An answer comes only to a call that is under way, and the timer fires only while it is set.
unfoldable pub provider_step : ProviderState → ProviderEvent → ProviderState
unfolding run_effect on_load on_poll
provider_step s tick = run_effect s
provider_step s (set_token token) = run_effect (record s { token = token })
provider_step s (load_answer a) =
    if s.loads == 0 then s else on_load a (record s { loads = s.loads - 1 })
provider_step s poll_timer = if s.polling then record s { polls = s.polls + 1 } else s
provider_step s (poll_answer a) =
    if s.polls == 0 then s else on_poll a (record s { polls = s.polls - 1 })

unfoldable pub provider_run : ProviderState → List ProviderEvent → ProviderState
provider_run s [] = s
provider_run s (e ∷ es) = provider_run (provider_step s e) es

-- `useState`'s initial values, with no call under way.
unfoldable pub provider_start : Option String → ProviderState
provider_start token = record {
  token = token;
  me = none;
  loading = true;
  auth_error = false;
  loads = 0;
  polls = 0;
  polling = false;
}
