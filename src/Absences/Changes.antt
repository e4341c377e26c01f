-- ===== src/Absences/Changes.antt =====
-- `AbsenceTable` and `AbsenceImport` of pages/Absences.tsx: the cancellation of a record, and the
-- import of records from a file.
use adms_server.Common.{
  ℕ, String, ◌≡◌, ◌↔◌, ◌⊎◌, inl, inr, Bool, true, false, not, ◌&&◌, Option, none, some, [], ◌∷◌,
  arith, ◌==◌, if◌then◌else◌, Bool-cases, Option-cases, get_or, truthy,
}
use adms_server.Common.Text.{trim}
use adms_server.Api.Json.{Json}
use adms_server.Api.Request.{JsError, Result, ok, thrown, result_cases}
use adms_server.Api.Calls.Absences.{AbsenceCall, cancel_absence}
use adms_server.I18n.Translations.{Translations}
use adms_server.I18n.ApiErrors.{friendly_api_error}
use adms_server.Handlers.{Ran, only}
use adms_server.Absences.Form.{absence_error}

-- The table; the target is the record's number.
pub record CancelDialog : Type 0 where
  pub cancel_target : Option ℕ
  pub reason : String
  pub busy : Bool
  pub error : Option String

abbrev cancelled :
    Translations → AbsenceCall → CancelDialog → Result Json → Ran CancelDialog AbsenceCall
cancelled t call s (ok r) = record {
  state = record { cancel_target = none; reason = ""; busy = false; error = none };
  calls = call ∷ [];
  reloads = 0;
  told = 1;
}
cancelled t call s (thrown e) = record {
  state = record s { cancel_target = none; busy = false; error = some (absence_error e t) };
  calls = call ∷ [];
  reloads = 0;
  told = 0;
}

-- `confirmCancel`
unfoldable pub confirm_cancel :
    Translations → (AbsenceCall → Result Json) → CancelDialog → Ran CancelDialog AbsenceCall
confirm_cancel t serve s = elim s.cancel_target [
  | none ↦ only s
  | some id ↦
      if not (truthy (trim s.reason))
      then only s
      else cancelled t (cancel_absence id (trim s.reason)) s
          (serve (cancel_absence id (trim s.reason)))
]

-- What the import answers: how many records it made, `none` for a check.
pub record ImportResult : Type 0 where
  pub created : Option ℕ

-- `AbsenceImport`; a file is a number.
pub record ImportCard : Type 0 where
  pub file : Option ℕ
  pub result : Option ImportResult
  pub busy : Bool
  pub error : Option String

-- `commit && r.created`
abbrev has_created : Bool → ImportResult → Bool
has_created commit r = commit && not (get_or r.created 0 == 0)

abbrev ran_import :
    Translations → Bool → ImportCard → ℕ × Bool → Result ImportResult → Ran ImportCard (ℕ × Bool)
ran_import t commit s call (ok r) = record {
  state = record s {
    file = if has_created commit r then none else s.file;
    result = some r;
    busy = false;
    error = none;
  };
  calls = call ∷ [];
  reloads = 0;
  told = if has_created commit r then 1 else 0;
}
ran_import t commit s call (thrown e) = record {
  state = record s { busy = false; error = some (friendly_api_error e t) };
  calls = call ∷ [];
  reloads = 0;
  told = 0;
}

-- `run(f, commit)`; the call is `absenceImport` with the file and whether it writes.
unfoldable pub run_import :
    Translations
    → (ℕ × Bool → Result ImportResult)
    → ℕ
    → Bool
    → ImportCard
    → Ran ImportCard (ℕ × Bool)
run_import t serve f commit s = ran_import t commit s (f, commit) (serve (f, commit))

-- A record is cancelled once, with the trimmed reason, exactly if one is chosen and the reason is not
-- blank. The answer closes the dialog either way; the list is told, and the reason emptied, exactly if
-- the server accepted it, and a refusal keeps the reason and shows its text.
confirm_cancel_lem :
    (t : Translations) (serve : AbsenceCall → Result Json) (s : CancelDialog)
    → (((s.cancel_target ≡ none) ⊎ (truthy (trim s.reason) ≡ false))
        × (confirm_cancel t serve s ≡ only s))
      ⊎ ((id : ℕ) × (s.cancel_target ≡ some id)
          × (truthy (trim s.reason) ≡ true)
          × ((confirm_cancel t serve s).calls ≡ cancel_absence id (trim s.reason) ∷ [])
          × ((confirm_cancel t serve s).state.cancel_target ≡ none)
          × ((((r : Json) × (serve (cancel_absence id (trim s.reason)) ≡ ok r))
                × ((confirm_cancel t serve s).told ≡ 1)
                × ((confirm_cancel t serve s).state.reason ≡ ""))
              ⊎ ((e : JsError) × (serve (cancel_absence id (trim s.reason)) ≡ thrown e)
                  × ((confirm_cancel t serve s).told ≡ 0)
                  × ((confirm_cancel t serve s).state.reason ≡ s.reason)
                  × ((confirm_cancel t serve s).state.error ≡ some (absence_error e t)))))
unfolding confirm_cancel
confirm_cancel_lem t serve s = elim (Option-cases s.cancel_target) [
  | inl untargeted ↦ inl (inl untargeted, ground arith)
  | inr (id, target) ↦ elim (Bool-cases (truthy (trim s.reason))) [
    | inr blank ↦ inl (inr blank, ground arith)
    | inl said ↦ inr (
      id,
      target,
      said,
      ground arith,
      ground arith,
      elim (result_cases (serve (cancel_absence id (trim s.reason)))) [
        | inl (r, e) ↦ inl ((r, e), ground arith, ground arith)
        | inr (err, e) ↦ inr (err, e, ground arith, ground arith, ground arith)
      ],
    )
  ]
]

-- An import is told to the page exactly if it was to write and made a record; a check never is.
run_import_told :
    (t : Translations) (serve : ℕ × Bool → Result ImportResult) (f : ℕ) (commit : Bool)
    (s : ImportCard)
    → ((run_import t serve f commit s).told ≡ 1)
      ↔ ((r : ImportResult) × (serve (f, commit) ≡ ok r) × (has_created commit r ≡ true))
unfolding run_import
run_import_told t serve f commit s = elim (result_cases (serve (f, commit))) [
  | inl (r, e) ↦ (λ h. (r, e, ground arith), λ h. ground arith)
  | inr (err, e) ↦ (λ h. ground arith, λ h. ground arith)
]
