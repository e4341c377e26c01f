-- ===== src/System/Operators.antt =====
-- `OperatorAccountsManagement` of pages/System.tsx.
use adms_server.Common.{
  ℕ, ◌≤◌, String, ◌≡◌, refl, ◌⊎◌, inl, inr, Bool, true, false, not, ◌||◌, Option, none, some, [],
  ◌∷◌, arith, ltb, ◌==◌, if◌then◌else◌, Bool-cases, truthy,
}
use adms_server.Common.Text.{trim, length as text_length, ◌+++◌}
use adms_server.Api.Json.{Json, str, object, member}
use adms_server.Api.Request.{JsError, Result, ok, thrown, result_cases}
use adms_server.Api.Calls.Admin.{AdminCall, create_operator, toggle_operator_active}
use adms_server.I18n.Translations.{Translations}
use adms_server.I18n.ApiErrors.{friendly_api_error}
use adms_server.Handlers.{Message, Ran}

pub record OperatorForm : Type 0 where
  pub username : String
  pub display_name : String
  pub password : String
  pub role : String
  pub create_busy : Bool
  pub create_msg : Option Message
  pub toggle_error : Option String

-- The payload of `createOperator`.
abbrev operator_payload : OperatorForm → Json
operator_payload s = object (
    ("username", some (str (trim s.username)))
    ∷ ("display_name", some (str (trim s.display_name)))
    ∷ ("password", some (str s.password))
    ∷ ("role", some (str s.role))
    ∷ [])

abbrev answered_create : Translations → OperatorForm → Result Json → Ran OperatorForm AdminCall
answered_create t s (ok r) = record {
  state = record s {
    username = "";
    display_name = "";
    password = "";
    create_busy = false;
    create_msg = some (record {
      is_ok = true;
      words =
          t.system.operator_create_success_prefix +++ " '" +++ s.username +++ "' "
          +++ t.system.operator_create_success_suffix;
    });
  };
  calls = create_operator (operator_payload s) ∷ [];
  reloads = 1;
  told = 0;
}
answered_create t s (thrown e) = record {
  state = record s {
    create_busy = false;
    create_msg = some (record { is_ok = false; words = friendly_api_error e t });
  };
  calls = create_operator (operator_payload s) ∷ [];
  reloads = 0;
  told = 0;
}

-- The test of `handleCreate`.
abbrev pub incomplete : OperatorForm → Bool
incomplete s =
    not (truthy (trim s.username))
    || not (truthy (trim s.display_name))
    || ltb (text_length s.password) 12

-- `handleCreate`
unfoldable pub handle_create :
    Translations → (AdminCall → Result Json) → OperatorForm → Ran OperatorForm AdminCall
handle_create t serve s =
    if incomplete s
    then record {
      state = record s {
        create_msg = some (record { is_ok = false; words = t.system.operator_validation_error });
      };
      calls = [];
      reloads = 0;
      told = 0;
    }
    else answered_create t s (serve (create_operator (operator_payload s)))

abbrev answered_toggle :
    Translations → AdminCall → OperatorForm → Result Json → Ran OperatorForm AdminCall
answered_toggle t call s (ok r) = record {
  state = record s { toggle_error = none };
  calls = call ∷ [];
  reloads = 1;
  told = 0;
}
answered_toggle t call s (thrown e) = record {
  state = record s { toggle_error = some (friendly_api_error e t) };
  calls = call ∷ [];
  reloads = 0;
  told = 0;
}

-- `handleToggle`
unfoldable pub handle_toggle :
    Translations → (AdminCall → Result Json) → ℕ → Bool → OperatorForm → Ran OperatorForm AdminCall
handle_toggle t serve operator_id current_active s =
    let call = toggle_operator_active operator_id (not current_active) in
    answered_toggle t call s (serve call)

-- Whether a row has the button that toggles: the operator's own row has none. `me` is the own number.
unfoldable pub can_toggle : Option ℕ → ℕ → Bool
can_toggle none operator_id = true
can_toggle (some me) operator_id = not (operator_id == me)

-- A refusal by the form: no call, and no field changes.
abbrev Incomplete : Ran OperatorForm AdminCall → OperatorForm → Type 0
Incomplete out s =
    (incomplete s ≡ true)
    × (out.calls ≡ [])
    × (out.reloads ≡ 0)
    × (out.state.username ≡ s.username)
    × (out.state.password ≡ s.password)

-- The one call of a complete form.
abbrev Creates : Ran OperatorForm AdminCall → OperatorForm → Result Json → Type 0
Creates out s answer =
    (payload : Json) × (out.calls ≡ create_operator payload ∷ [])
    × (member "username" payload ≡ some (str (trim s.username)))
    × (member "password" payload ≡ some (str s.password))
    × (12 ≤ text_length s.password)
    × (truthy (trim s.username) ≡ true)
    × ((((r : Json) × (answer ≡ ok r)) × (out.state.password ≡ "") × (out.reloads ≡ 1))
        ⊎ (((e : JsError) × (answer ≡ thrown e))
            × (out.state.password ≡ s.password)
            × (out.reloads ≡ 0)))

-- An account is created by one call with the trimmed name and the password as it is, and only with a
-- name and a password of 12 code units or more; the fields are emptied and the list is loaded again
-- exactly if the server accepted that call.
handle_create_lem :
    (t : Translations) (serve : AdminCall → Result Json) (s : OperatorForm)
    → Incomplete (handle_create t serve s) s
      ⊎ Creates (handle_create t serve s) s (serve (create_operator (operator_payload s)))
unfolding handle_create
handle_create_lem t serve s = elim (Bool-cases (incomplete s)) [
  | inl e ↦ inl (e, ground arith, ground arith, ground arith, ground arith)
  | inr e ↦ inr (
    operator_payload s,
    ground arith,
    refl,
    refl,
    ground arith,
    ground arith,
    elim (result_cases (serve (create_operator (operator_payload s)))) [
      | inl (r, a) ↦ inl ((r, a), ground arith, ground arith)
      | inr (err, a) ↦ inr ((err, a), ground arith, ground arith)
    ],
  )
]
