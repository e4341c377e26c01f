-- ===== src/Hooks/UseApi/Tests.antt =====
-- A list that is reloaded while an older answer is still to come.
use adms_server.Common.{ℕ, ◌+◌, true, false, none, some, List, [], ◌∷◌, ◌++◌, ◌≡◌, refl, arith}
use adms_server.Api.Request.{other, Result, ok, thrown}
use adms_server.Hooks.UseApi.{ApiState, ApiEvent, run, settle, api_step, api_run, api_start}
use adms_server.Hooks.UseApi.Laws.{Inv, use_api-Inv, latest_wins, Shows, answers}

abbrev reloaded : List (ApiEvent ℕ)
reloaded = run ∷ run ∷ []

reload_shows :
    (api_run {T = ℕ} api_start (run ∷ run ∷ settle 1 (ok 5) ∷ settle 2 (ok 7) ∷ [])).value ≡ some 7
unfolding api_run api_step api_start
reload_shows = refl

use_api-Inv_example : Inv (api_run (api_step (api_start {T = ℕ}) run) (settle 1 (ok 5) ∷ []))
use_api-Inv_example = use_api-Inv (settle 1 (ok 5) ∷ [])

abbrev shown : ApiState ℕ
shown = record {
  value = some 3;
  loading = false;
  error = none;
  runs = 1;
  settled = true;
  mounted = true;
}

abbrev older : List (ℕ × Result ℕ)
older = (1, ok 4) ∷ []

latest_wins_example :
    Shows shown
      (thrown (other "timeout"))
      (api_run shown (run ∷ (answers older ++ settle (1 + 1) (thrown (other "timeout")) ∷ [])))
latest_wins_example = latest_wins shown older (thrown (other "timeout")) refl (omega arith)
