-- ===== src/Personnel/Import.antt =====
-- components/CsvImportModal.tsx: the import of people from a file, previewed and then committed.
pub mod Laws
use adms_server.Common.{
  ℕ, ◌+◌, String, Bool, true, false, not, ◌&&◌, ◌||◌, Option, none, some, List, [], ◌∷◌, ◌++◌, ltb,
  ◌==◌, if◌then◌else◌, get_or, or_none, is_empty,
}
use adms_server.Common.Sets.{has, add, delete}
use adms_server.Common.Text.{trim, ◌+++◌}
use adms_server.Api.Json.{Json, is_text}
use adms_server.Api.Request.{JsError, client_error, unauthorized, other, Result, ok, thrown}
use adms_server.I18n.Translations.{Translations}
use adms_server.I18n.ApiErrors.{friendly_api_error}
use adms_server.Handlers.{write_error}
use adms_server.Personnel.Roster.{RosterServer}

-- Someone who is in the roster and not in an exported file.
pub record MissingPerson : Type 0 where
  pub employee_id : String
  pub display_name : String
  pub rank : Option String

-- The members of `CsvImportPreview` that the commit reads; `added` and `changed` are `summary.new`
-- and `summary.update`.
pub record Preview : Type 0 where
  pub added : ℕ
  pub changed : ℕ
  pub rows : ℕ
  pub missing : Option (List MissingPerson)

pub record Imported : Type 0 where
  pub created : ℕ
  pub updated : ℕ
  pub renamed : Option ℕ
  pub failed : Option ℕ

pub record Committed : Type 0 where
  pub created : ℕ
  pub updated : ℕ
  pub renamed : ℕ
  pub failed : ℕ
  pub left : ℕ
  pub left_failed : List String

-- The modal; a file is a number, and `leaving` the set of the ticked people, in order.
pub record ImportModal : Type 0 where
  pub file : Option ℕ
  pub preview : Option Preview
  pub busy : Bool
  pub error : Option String
  pub committed : Option Committed
  pub leaving : List String
  pub leave_reason : String

pub data ImportCall : Type 0 where
  preview_import commit_import : ℕ → ImportCall
  deactivate : String → String → ImportCall
  remove : String → ImportCall

pub record ImportServer : Type 0 where
  pub preview_humans_import : ℕ → Result Preview
  pub commit_humans_import : ℕ → Result Imported
  pub roster : RosterServer

-- `toggle` of the list of missing people.
unfoldable pub toggle : List String → String → List String
toggle leaving id = if has leaving id then delete leaving id else add leaving id

-- What is said of a file that cannot be previewed.
abbrev preview_error : Translations → JsError → String
preview_error t (client_error status code message) =
    if is_text code "CSV_MALFORMED"
    then t.personnel.csv_malformed_body
    else friendly_api_error (client_error status code message) t
preview_error t unauthorized = friendly_api_error unauthorized t
preview_error t (other message) = friendly_api_error (other message) t

abbrev previewed : Translations → Result Preview → ImportModal → ImportModal
previewed t (ok p) s = record s { preview = some p }
previewed t (thrown e) s = record s { error = some (preview_error t e) }

-- `handleFileChosen`
unfoldable pub handle_file_chosen : Translations → ImportServer → ℕ → ImportModal → ImportModal
handle_file_chosen t server f s =
    previewed t (server.preview_humans_import f)
      (record s { file = some f; preview = none; leaving = []; error = none; busy = false })

-- The default reason, which is also the one of a blank field.
abbrev moved_away : String
moved_away = "ย้ายออก"

abbrev pub reason_of : ImportModal → String
reason_of s = get_or (or_none (trim s.leave_reason)) moved_away

abbrev pub name_of : MissingPerson → String
name_of m = trim (get_or m.rank "" +++ " " +++ m.display_name)

-- What the loop of `handleCommit` has done: its calls, `left` and `leftFailed`.
pub record Leaving : Type 0 where
  pub calls : List ImportCall
  pub left : ℕ
  pub left_failed : List String

-- The round of one ticked person.
abbrev removed_one : RosterServer → String → MissingPerson → Result (List String) → Leaving
removed_one server reason m (ok failed) = record {
  calls = deactivate m.employee_id reason ∷ remove m.employee_id ∷ [];
  left = 1;
  left_failed = if is_empty failed then [] else name_of m ∷ [];
}
removed_one server reason m (thrown e) = record {
  calls = deactivate m.employee_id reason ∷ remove m.employee_id ∷ [];
  left = 1;
  left_failed = name_of m ∷ [];
}

abbrev closed_one : RosterServer → String → MissingPerson → Result Json → Leaving
closed_one server reason m (ok r) =
    removed_one server reason m (server.remove_from_scanner m.employee_id)
closed_one server reason m (thrown e) = record {
  calls = deactivate m.employee_id reason ∷ [];
  left = 0;
  left_failed = name_of m ∷ [];
}

unfoldable pub leave_one : RosterServer → String → MissingPerson → Leaving
leave_one server reason m =
    closed_one server reason m (server.deactivate_human m.employee_id reason)

-- The loop over the missing people.
unfoldable pub leave_all : RosterServer → String → (String → Bool) → List MissingPerson → Leaving
unfolding leave_one
leave_all server reason ticked [] = record { calls = []; left = 0; left_failed = [] }
leave_all server reason ticked (m ∷ ms) =
    let rest = leave_all server reason ticked ms in
    let one = leave_one server reason m in
    if not (ticked m.employee_id) then rest else record {
      calls = one.calls ++ rest.calls;
      left = one.left + rest.left;
      left_failed = one.left_failed ++ rest.left_failed;
    }

-- `hasRows`
abbrev pub has_rows : Option Preview → Bool
has_rows none = false
has_rows (some p) = ltb 0 p.added || ltb 0 p.changed

abbrev pub missing_of : Option Preview → List MissingPerson
missing_of none = []
missing_of (some p) = get_or p.missing []

-- A commit: the modal, the calls, and whether the page is told.
pub record Commit : Type 0 where
  pub modal : ImportModal
  pub calls : List ImportCall
  pub told : Bool

-- What is shown as committed: the answer to the import, if there was one, and the loop.
abbrev pub committed_of : Option Imported → Leaving → Committed
committed_of none l = record {
  created = 0;
  updated = 0;
  renamed = 0;
  failed = 0;
  left = l.left;
  left_failed = l.left_failed;
}
committed_of (some r) l = record {
  created = r.created;
  updated = r.updated;
  renamed = get_or r.renamed 0;
  failed = get_or r.failed 0;
  left = l.left;
  left_failed = l.left_failed;
}

-- What follows the import of the rows.
abbrev pub finish_commit : Option Imported → List ImportCall → Leaving → ImportModal → Commit
finish_commit result before l s = record {
  modal = record s { busy = false; error = none; committed = some (committed_of result l) };
  calls = before ++ l.calls;
  told = true;
}

abbrev imported : Translations → ImportServer → ℕ → ImportModal → Result Imported → Commit
imported t server f s (ok r) =
    finish_commit (some r) (commit_import f ∷ [])
      (leave_all server.roster (reason_of s) (has s.leaving) (missing_of s.preview)) s
imported t server f s (thrown e) = record {
  modal = record s { busy = false; error = some (write_error e t) };
  calls = commit_import f ∷ [];
  told = false;
}

-- `handleCommit`
unfoldable pub handle_commit : Translations → ImportServer → ImportModal → Commit
unfolding leave_all
handle_commit t server s = elim s.file [
  | none ↦ record { modal = s; calls = []; told = false }
  | some f ↦
      if has_rows s.preview
      then imported t server f s (server.commit_humans_import f)
      else finish_commit none []
          (leave_all server.roster (reason_of s) (has s.leaving) (missing_of s.preview)) s
]

-- Whether the button that commits is enabled, under a preview.
unfoldable pub can_commit : ImportModal → Preview → Bool
can_commit s p = not (s.busy || (p.added == 0 && p.changed == 0 && is_empty s.leaving))
