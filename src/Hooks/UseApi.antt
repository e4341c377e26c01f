-- ===== src/Hooks/UseApi.antt =====
-- hooks/useApi.ts: one fetch at a time, started again when a dependency changes or on `reload`. The
-- effects' runs are numbered from 1; each has an abort controller, which the cleanup of the effect
-- aborts before the next run starts, and on unmount.
pub mod Laws
mod Tests
use adms_server.Common.{
  ℕ, ◌+◌, String, Bool, true, false, Option, none, some, List, [], ◌∷◌, if◌then◌else◌, ◌==◌, ◌&&◌,
  not,
}
use adms_server.Api.Request.{JsError, client_error, unauthorized, other, Result, ok, thrown}

-- `e instanceof Error ? e.message : String(e)`
abbrev pub error_message : JsError → String
error_message (client_error status code message) = message
error_message unauthorized = "unauthorized"
error_message (other message) = message

module _ {ℓ} (T : Type ℓ) where
  -- `runs` counts the runs that were started, `settled` says whether the promise of the last one is
  -- settled, and `mounted` is false once the last cleanup has run.
  pub record ApiState : Type ℓ where
    pub value : Option T
    pub loading : Bool
    pub error : Option String
    pub runs : ℕ
    pub settled : Bool
    pub mounted : Bool

  pub data ApiEvent : Type ℓ where
    -- the effect, after the cleanup of the run before it
    run : ApiEvent
    -- the promise of a run settles
    settle : ℕ → Result T → ApiEvent
    unmount : ApiEvent

module _ {ℓ} {T : Type ℓ} where
  -- `controller.signal.aborted` of a run
  abbrev pub aborted : ApiState T → ℕ → Bool
  aborted s k = not (s.mounted && k == s.runs)

  on_answer : Result T → ApiState T → ApiState T
  on_answer (ok d) s = record s { value = some d; loading = false; settled = true }
  on_answer (thrown e) s = record s {
    error = some (error_message e);
    loading = false;
    settled = true;
  }

  -- A promise settles once, so a second answer of the last run does not come.
  unfoldable pub api_step : ApiState T → ApiEvent T → ApiState T
  unfolding on_answer
  api_step s run =
      if s.mounted
      then record s { loading = true; error = none; runs = s.runs + 1; settled = false }
      else s
  api_step s (settle k a) = if aborted s k then s else (if s.settled then s else on_answer a s)
  api_step s unmount = record s { mounted = false }

  unfoldable pub api_run : ApiState T → List (ApiEvent T) → ApiState T
  api_run s [] = s
  api_run s (e ∷ es) = api_run (api_step s e) es

-- The state of the first render.
unfoldable pub api_start {ℓ} : {T : Type ℓ} → ApiState T
api_start = record {
  value = none;
  loading = true;
  error = none;
  runs = 0;
  settled = false;
  mounted = true;
}
