-- ===== src/Mappings.antt =====
-- pages/Mappings.tsx: the confirmed identities, and the panel that confirms one.
pub mod Laws
mod Tests
use adms_server.Common.{
  ℕ, String, Bool, true, false, not, ◌&&◌, ◌||◌, Option, none, some, List, [], ◌∷◌, ◌==◌,
  if◌then◌else◌, is_some, truthy, filter, find,
}
use adms_server.Common.Text.{trim, includes}
use adms_server.Api.Json.{Json, is_text}
use adms_server.Api.Request.{JsError, client_error, unauthorized, other, Result, ok, thrown}
use adms_server.I18n.Translations.{Translations}
use adms_server.I18n.ApiErrors.{friendly_api_error}
use adms_server.Handlers.{Ran, only}
use adms_server.Enrollments.Forms.{Verification}

pub record Mapping : Type 0 where
  pub map_id : ℕ
  pub is_current : Bool

-- `currentItems` and `historyItems`
abbrev current_items : List Mapping → List Mapping
current_items ms = filter (λ m. m.is_current) ms

abbrev pub history_items : List Mapping → List Mapping
history_items ms = filter (λ m. not m.is_current) ms

-- The members of `MappingEligibilityItem` that the panel's handlers read.
pub record EligibleItem : Type 0 where
  pub enrollment_id : ℕ
  pub device_user_pk : Option ℕ
  pub controlled_attendance_id : Option ℕ

-- `CreateMappingPanel`; `items` is `elig.data?.items`.
pub record MappingPanel : Type 0 where
  pub items : List EligibleItem
  pub selected_id : Option ℕ
  pub verified_by : String
  pub note : String
  pub busy : Bool
  pub error : Option String
  pub confirm_open : Bool

abbrev is_id : Option ℕ → ℕ → Bool
is_id none n = false
is_id (some m) n = n == m

-- `item`
abbrev pub item_of : MappingPanel → Option EligibleItem
item_of s = find (λ e. is_id s.selected_id e.enrollment_id) s.items

-- Whether the two links to the evidence are there.
abbrev pub has_evidence : EligibleItem → Bool
has_evidence e = is_some e.device_user_pk && is_some e.controlled_attendance_id

abbrev with_error : String → MappingPanel → MappingPanel
with_error m s = record s { error = some m }

-- `requestSubmit`
unfoldable pub request_submit : Translations → MappingPanel → MappingPanel
request_submit t s = elim (item_of s) [
  | none ↦ with_error t.mappings.select_and_fill_required s
  | some e ↦
      if not (truthy (trim s.verified_by)) || not (truthy (trim s.note))
      then with_error t.mappings.select_and_fill_required s
      else if not (has_evidence e)
      then with_error t.mappings.evidence_incomplete_body s
      else record s { error = none; confirm_open = true }
]

-- What is said of a refusal; `lower` is the platform's `toLowerCase`.
unfoldable pub mapping_error : (String → String) → Translations → JsError → String
mapping_error lower t (client_error status code message) =
    if is_text code "WRITE_DISABLED" || is_text code "WRITE_SESSION_REQUIRED"
    then t.enrollment.write_session_locked_body
    else if is_text code "WRITE_SESSION_EXPIRED"
    then t.enrollment.write_session_expired_mid_workflow
    else if is_text code "VALIDATION_ERROR"
    then t.mappings.evidence_incomplete_body
    else if is_text code "MAPPING_CONFLICT"
    then (if includes (lower message) "already" || includes (lower message) "verified"
        then t.mappings.already_mapped_body
        else t.mappings.mapping_conflict_body)
    else friendly_api_error (client_error status code message) t
mapping_error lower t unauthorized = friendly_api_error unauthorized t
mapping_error lower t (other message) = friendly_api_error (other message) t

abbrev pub verification_of : MappingPanel → EligibleItem → Verification
verification_of s e = record {
  enrollment_id = e.enrollment_id;
  verified_by = trim s.verified_by;
  verification_note = trim s.note;
}

abbrev mapped :
    (String → String)
    → Translations
    → Verification
    → MappingPanel
    → Result Json
    → Ran MappingPanel Verification
mapped lower t call s (ok r) = record {
  state = record s {
    selected_id = none;
    note = "";
    confirm_open = false;
    busy = false;
    error = none;
  };
  calls = call ∷ [];
  reloads = 1;
  told = 1;
}
mapped lower t call s (thrown e) = record {
  state = record s { confirm_open = false; busy = false; error = some (mapping_error lower t e) };
  calls = call ∷ [];
  reloads = 0;
  told = 0;
}

-- `confirmSubmit`, up to the end of its promise.
unfoldable pub confirm_submit :
    (String → String)
    → Translations
    → (Verification → Result Json)
    → MappingPanel
    → Ran MappingPanel Verification
confirm_submit lower t serve s = elim (item_of s) [
  | none ↦ only s
  | some e ↦
      if not (has_evidence e)
      then only s
      else mapped lower t (verification_of s e) s (serve (verification_of s e))
]

pub data MappingEvent : Type 0 where
  select : Option ℕ → MappingEvent
  set_verified_by set_note : String → MappingEvent
  request confirm cancel : MappingEvent
  -- the list of eligible enrollments is loaded
  load : List EligibleItem → MappingEvent

unfoldable pub mapping_step :
    (String → String)
    → Translations
    → (Verification → Result Json)
    → MappingPanel
    → MappingEvent
    → Ran MappingPanel Verification
unfolding request_submit confirm_submit
mapping_step lower t serve s (select id) = only (record s { selected_id = id; error = none })
mapping_step lower t serve s (set_verified_by v) = only (record s { verified_by = v })
mapping_step lower t serve s (set_note v) = only (record s { note = v })
mapping_step lower t serve s request = only (request_submit t s)
mapping_step lower t serve s confirm = confirm_submit lower t serve s
mapping_step lower t serve s cancel = only (record s { confirm_open = false })
mapping_step lower t serve s (load items) = only (record s { items = items })
