-- ===== src/Personnel/Policy.antt =====
-- Who must scan: `ScanPolicyCard` and `EnrollLink` of components/PersonnelLifecycle.tsx, and
-- `QuickScanPolicy`, `BulkExemptBar` and `ScanStateBadge` of pages/Personnel.tsx.
pub mod Laws
use adms_server.Common.{
  ℕ, String, Bool, true, false, not, ◌&&◌, ◌||◌, Option, none, some, List, [], ◌∷◌, ◌++◌, str_eq,
  if◌then◌else◌, get_or, truthy, or_none, any,
}
use adms_server.Common.Text.{trim, replace, of_ℕ}
use adms_server.Api.Json.{Json}
use adms_server.Api.Request.{JsError, Result, ok, thrown}
use adms_server.Api.Calls.Roster.{RosterCall, set_scan_exempt, bulk_scan_exempt}
use adms_server.I18n.Translations.{Translations}
use adms_server.I18n.ApiErrors.{friendly_api_error}
use adms_server.Handlers.{Message, Ran, only, write_error}
use adms_server.Personnel.Roster.{Human}

-- `EXEMPT_REASON_PRESETS`
abbrev exempt_reason_presets : List String
exempt_reason_presets = "การเงิน" ∷ "สำนักงานผู้บังคับบัญชา" ∷ "ไปราชการ" ∷ "ไปช่วยราชการ" ∷ []

pub record PolicyCard : Type 0 where
  pub reason : String
  pub reason_error : Bool
  pub busy : Bool
  pub msg : Option Message

abbrev answered_card :
    Translations → RosterCall → PolicyCard → Result Json → Ran PolicyCard RosterCall
answered_card t call s (ok r) = record {
  state = record s {
    busy = false;
    msg = some (record { is_ok = true; words = t.workflow.saved_ok });
  };
  calls = call ∷ [];
  reloads = 0;
  told = 1;
}
answered_card t call s (thrown e) = record {
  state = record s { busy = false; msg = some (record { is_ok = false; words = write_error e t }) };
  calls = call ∷ [];
  reloads = 0;
  told = 0;
}

-- `save` of the card; `serve` answers the call.
unfoldable pub save_policy :
    Translations
    → (RosterCall → Result Json)
    → Human
    → Bool
    → PolicyCard
    → Ran PolicyCard RosterCall
save_policy t serve human exempt s =
    let call =
      set_scan_exempt human.employee_id exempt (if exempt then some (trim s.reason) else none) in
    if exempt && not (truthy (trim s.reason))
    then only (record s { reason_error = true })
    else answered_card t call s (serve call)

-- What the card's button asks for: the other policy.
unfoldable pub click_policy :
    Translations → (RosterCall → Result Json) → Human → PolicyCard → Ran PolicyCard RosterCall
unfolding save_policy
click_policy t serve human s = save_policy t serve human (not human.scan_exempt) s

-- `QuickScanPolicy`: the state is whether it is busy, and the error.
pub record QuickPolicy : Type 0 where
  pub busy : Bool
  pub error : Option String

-- `current`
abbrev current_reason : Human → String
current_reason h = if h.scan_exempt then get_or h.scan_exempt_reason "" else ""

-- The values that the select offers.
unfoldable pub quick_options : Human → List String
quick_options h =
    let current = current_reason h in
    let extra =
      if truthy current && not (any (str_eq current) exempt_reason_presets)
      then current ∷ []
      else [] in
    "" ∷ exempt_reason_presets ++ extra

abbrev answered_quick :
    Translations → RosterCall → QuickPolicy → Result ℕ → Ran QuickPolicy RosterCall
answered_quick t call s (ok n) = record {
  state = record { busy = false; error = none };
  calls = call ∷ [];
  reloads = 0;
  told = 1;
}
answered_quick t call s (thrown e) = record {
  state = record { busy = false; error = some (friendly_api_error e t) };
  calls = call ∷ [];
  reloads = 0;
  told = 0;
}

-- `change`
unfoldable pub change_policy :
    Translations
    → (RosterCall → Result ℕ)
    → Human
    → String
    → QuickPolicy
    → Ran QuickPolicy RosterCall
change_policy t serve human value s =
    let call = bulk_scan_exempt (human.employee_id ∷ []) (truthy value) (or_none value) in
    answered_quick t call s (serve call)

-- `BulkExemptBar`
pub record BulkBar : Type 0 where
  pub preset : String
  pub other : String
  pub busy : Bool
  pub msg : Option Message

abbrev pub bulk_reason : BulkBar → String
bulk_reason s = if str_eq s.preset "__other" then trim s.other else s.preset

abbrev answered_bulk : Translations → RosterCall → BulkBar → Result ℕ → Ran BulkBar RosterCall
answered_bulk t call s (ok n) = record {
  state = record s {
    busy = false;
    msg = some (record { is_ok = true; words = replace t.workflow.bulk_done "{n}" (of_ℕ n) });
  };
  calls = call ∷ [];
  reloads = 0;
  told = 1;
}
answered_bulk t call s (thrown e) = record {
  state = record s {
    busy = false;
    msg = some (record { is_ok = false; words = friendly_api_error e t });
  };
  calls = call ∷ [];
  reloads = 0;
  told = 0;
}

-- `apply`
unfoldable pub apply_bulk :
    Translations → (RosterCall → Result ℕ) → List String → Bool → BulkBar → Ran BulkBar RosterCall
apply_bulk t serve ids exempt s =
    let call = bulk_scan_exempt ids exempt (if exempt then or_none (bulk_reason s) else none) in
    answered_bulk t call s (serve call)

-- Whether the buttons of the bar are enabled: the one that exempts, and the one that requires.
unfoldable pub bulk_enabled : Bool → Bool → BulkBar → Bool
bulk_enabled can_edit_roster exempt s =
    can_edit_roster && not s.busy && (truthy (bulk_reason s) || not exempt)

-- What `ScanStateBadge` shows.
pub data ScanState : Type 0 where
  scan_left_with_account left : ScanState
  exempt_for : String → ScanState
  scan_enrolled scan_needs : ScanState

-- `a || b`, for texts that may be missing.
abbrev or_else : Option String → String → String
or_else o d = if truthy (get_or o "") then get_or o "" else d

unfoldable pub scan_state : Human → ScanState
scan_state h =
    if not h.active
    then (if h.has_active_terminal_account then scan_left_with_account else left)
    else if h.scan_exempt
    then exempt_for (or_else h.scan_exempt_reason (or_else h.position "—"))
    else if h.has_active_terminal_account
    then scan_enrolled
    else scan_needs

-- Whether `EnrollLink` is there.
unfoldable pub enroll_link : Bool → Human → Bool
enroll_link can_enroll h =
    not (not can_enroll || not h.active || h.scan_exempt || h.has_active_terminal_account)
