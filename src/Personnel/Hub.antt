-- ===== src/Personnel/Hub.antt =====
-- The export and `PersonnelHub` of pages/Personnel.tsx: the file that is saved, and the cards that are
-- shortcuts to the dialogs and to the filters of the list.
use adms_server.Common.{
  ℕ, String, ◌≡◌, Bool, true, false, Option, none, some, List, [], ◌∷◌, str_eq, if◌then◌else◌, All,
  refl,
}
use adms_server.Api.Files.{Download, export_humans_csv}
use adms_server.Api.Request.{Result, ok, thrown}
use adms_server.I18n.Translations.{Translations}
use adms_server.I18n.ApiErrors.{friendly_api_error}
use adms_server.Personnel.Listing.{Filters, Listing, listing_step, apply_scan_filter}

pub record ExportState : Type 0 where
  pub export_busy : Bool
  pub export_error : Option String

-- After the export: its request, and the file's name and bytes, if one is saved.
pub record Exported : Type 0 where
  pub after : ExportState
  pub requests : List Download
  pub file : Option (String × List ℕ)

-- `active` of `handleExport`
abbrev export_active : Filters → Option Bool
export_active f =
    if str_eq f.active_filter "true"
    then some true
    else if str_eq f.active_filter "false"
    then some false
    else none

abbrev exported : Translations → Download → Result (List ℕ) → Exported
exported t d (ok bytes) = record {
  after = record { export_busy = false; export_error = none };
  requests = d ∷ [];
  file = some ("personnel_export.csv", bytes);
}
exported t d (thrown e) = record {
  after = record { export_busy = false; export_error = some (friendly_api_error e t) };
  requests = d ∷ [];
  file = none;
}

-- `handleExport`, of the list's filters
unfoldable pub handle_export : Translations → (Download → Result (List ℕ)) → Filters → Exported
handle_export t serve f =
    exported t (export_humans_csv (export_active f)) (serve (export_humans_csv (export_active f)))

-- `PersonnelSummaryData`
pub record PersonnelSummary : Type 0 where
  pub active : ℕ
  pub inactive : ℕ
  pub scan_exempt : ℕ
  pub needs_enrollment : ℕ
  pub left_with_terminal_account : ℕ

-- A card with a count: the scan filter that it sets, its label, and its value when there is one.
pub record CountCard : Type 0 where
  pub key : String
  pub label : String
  pub value : Option ℕ

abbrev count_of : (PersonnelSummary → ℕ) → Option PersonnelSummary → Option ℕ
count_of f none = none
count_of f (some s) = some (f s)

-- `counts`
unfoldable pub count_cards : Translations → Option PersonnelSummary → List CountCard
count_cards t summary =
    record { key = ""; label = t.workflow.count_active; value = count_of (λ s. s.active) summary }
    ∷ record {
      key = "needs_enrollment";
      label = t.workflow.count_needs_enroll;
      value = count_of (λ s. s.needs_enrollment) summary;
    }
    ∷ record {
      key = "exempt";
      label = t.workflow.count_exempt;
      value = count_of (λ s. s.scan_exempt) summary;
    }
    ∷ record {
      key = "left_with_account";
      label = t.workflow.count_left_with_account;
      value = count_of (λ s. s.left_with_terminal_account) summary;
    }
    ∷ []

-- What a task's button does.
pub data HubAction : Type 0 where
  open_import open_add : HubAction
  filter_by : String → HubAction

-- A task's title, and its button's label and action where it has one.
unfoldable pub task_cards : Translations → Bool → List (String × Option (String × HubAction))
task_cards t can_manage =
    (
      t.workflow.import_title,
      if can_manage then some (t.personnel.import_csv_button, open_import) else none,
    )
    ∷ (
      t.workflow.join_title,
      if can_manage then some (t.personnel.add_personnel_button, open_add) else none,
    )
    ∷ (
      t.workflow.leave_title,
      some (t.workflow.count_left_with_account, filter_by "left_with_account"),
    )
    ∷ (t.workflow.exempt_title, some (t.workflow.count_exempt, filter_by "exempt"))
    ∷ []

-- A click on a card with a count, in the list.
abbrev after_click : Listing → CountCard → Listing
after_click s c = listing_step s (apply_scan_filter c.key)

-- Whatever card with a count is clicked, the list shows its first page, with the card's filter for
-- scanning and none for the active people beside it.
abbrev FirstPage : Listing → CountCard → Type 0
FirstPage s c =
    ((after_click s c).page ≡ 0)
    × ((after_click s c).filters.scan_status ≡ c.key)
    × ((after_click s c).filters.active_filter ≡ "")

count_cards-FirstPage :
    (t : Translations) (s : Listing) (summary : Option PersonnelSummary)
    → All (FirstPage s) (count_cards t summary)
unfolding count_cards listing_step
count_cards-FirstPage t s summary =
    ((refl, refl, refl), ((refl, refl, refl), ((refl, refl, refl), ((refl, refl, refl), tt))))
