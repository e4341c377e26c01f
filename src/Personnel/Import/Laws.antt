-- ===== src/Personnel/Import/Laws.antt =====
-- Who is closed by an import, and what is reported of them.
use adms_server.Common.{
  ℕ, String, ◌≡◌, refl, ap, ◌⊎◌, inl, inr, Bool, true, false, not, ◌&&◌, none, some, List, [], ◌∷◌,
  ◌++◌, map, arith, str_eq, eq_iff, if◌then◌else◌, Bool-cases, length, filter, is_empty,
}
use adms_server.Common.Sets.{has, has-add, has-delete}
use adms_server.Api.Json.{Json}
use adms_server.Api.Request.{JsError, Result, ok, thrown, result_cases}
use adms_server.I18n.Translations.{Translations}
use adms_server.Handlers.{write_error}
use adms_server.Personnel.Roster.{RosterServer}
use adms_server.Personnel.Import.{
  MissingPerson, ImportModal, ImportCall, preview_import, commit_import, deactivate, remove,
  ImportServer, Imported, toggle, reason_of, name_of, has_rows, missing_of, Leaving, leave_one,
  leave_all, Commit, Committed, handle_commit, finish_commit, committed_of,
}

-- The people that some calls close, with the reasons.
abbrev closings : List ImportCall → List (String × String)
closings [] = []
closings (deactivate id reason ∷ cs) = (id, reason) ∷ closings cs
closings (remove id ∷ cs) = closings cs
closings (preview_import f ∷ cs) = closings cs
closings (commit_import f ∷ cs) = closings cs

-- The people that some calls remove from the scanner.
abbrev removals : List ImportCall → List String
removals [] = []
removals (remove id ∷ cs) = id ∷ removals cs
removals (deactivate id reason ∷ cs) = removals cs
removals (preview_import f ∷ cs) = removals cs
removals (commit_import f ∷ cs) = removals cs

-- The files that some calls upload, to be looked at or to be written.
abbrev uploads : List ImportCall → List ℕ
uploads [] = []
uploads (deactivate id reason ∷ cs) = uploads cs
uploads (remove id ∷ cs) = uploads cs
uploads (preview_import f ∷ cs) = f ∷ uploads cs
uploads (commit_import f ∷ cs) = f ∷ uploads cs

uploads-append : (cs ds : List ImportCall) → uploads (cs ++ ds) ≡ uploads cs ++ uploads ds
uploads-append [] ds = refl
uploads-append (deactivate id reason ∷ cs) ds = uploads-append cs ds
uploads-append (remove id ∷ cs) ds = uploads-append cs ds
uploads-append (preview_import f ∷ cs) ds = ap (λ x. f ∷ x) (uploads-append cs ds)
uploads-append (commit_import f ∷ cs) ds = ap (λ x. f ∷ x) (uploads-append cs ds)

closings-append : (cs ds : List ImportCall) → closings (cs ++ ds) ≡ closings cs ++ closings ds
closings-append [] ds = refl
closings-append (deactivate id reason ∷ cs) ds = ap (λ x. (id, reason) ∷ x) (closings-append cs ds)
closings-append (remove id ∷ cs) ds = closings-append cs ds
closings-append (preview_import f ∷ cs) ds = closings-append cs ds
closings-append (commit_import f ∷ cs) ds = closings-append cs ds

removals-append : (cs ds : List ImportCall) → removals (cs ++ ds) ≡ removals cs ++ removals ds
removals-append [] ds = refl
removals-append (remove id ∷ cs) ds = ap (λ x. id ∷ x) (removals-append cs ds)
removals-append (deactivate id reason ∷ cs) ds = removals-append cs ds
removals-append (preview_import f ∷ cs) ds = removals-append cs ds
removals-append (commit_import f ∷ cs) ds = removals-append cs ds

abbrev pub is_ok : Result Json → Bool
is_ok (ok r) = true
is_ok (thrown e) = false

abbrev all_removed : Result (List String) → Bool
all_removed (ok failed) = is_empty failed
all_removed (thrown e) = false

-- Whether the server accepts to close a person.
abbrev is_closed : RosterServer → String → MissingPerson → Bool
is_closed server reason m = is_ok (server.deactivate_human m.employee_id reason)

-- Whether it also removes them from the scanner, from every account.
abbrev is_gone : RosterServer → String → MissingPerson → Bool
is_gone server reason m =
    is_closed server reason m && all_removed (server.remove_from_scanner m.employee_id)

-- What one round does.
abbrev LeftOne : RosterServer → String → MissingPerson → Leaving → Type 0
LeftOne server reason m l =
    (uploads l.calls ≡ [])
    × (closings l.calls ≡ (m.employee_id, reason) ∷ [])
    × (removals l.calls ≡ (if is_closed server reason m then m.employee_id ∷ [] else []))
    × (l.left ≡ (if is_closed server reason m then 1 else 0))
    × (l.left_failed ≡ (if is_gone server reason m then [] else name_of m ∷ []))

leave_one-LeftOne :
    (server : RosterServer) (reason : String) (m : MissingPerson)
    → LeftOne server reason m (leave_one server reason m)
unfolding leave_one
leave_one-LeftOne server reason m = ground arith

-- What the rounds do to some people.
abbrev LeftAll : RosterServer → String → (String → Bool) → List MissingPerson → Leaving → Type 0
LeftAll server reason ticked ms l =
    let chosen = filter (λ m. ticked m.employee_id) ms in
    (uploads l.calls ≡ [])
    × (closings l.calls ≡ map (λ m. (m.employee_id, reason)) chosen)
    × (removals l.calls ≡ map (λ m. m.employee_id) (filter (is_closed server reason) chosen))
    × (l.left ≡ length (filter (is_closed server reason) chosen))
    × (l.left_failed ≡ map name_of (filter (λ m. not (is_gone server reason m)) chosen))

leave_all-LeftAll :
    (server : RosterServer) (reason : String) (ticked : String → Bool) (ms : List MissingPerson)
    → LeftAll server reason ticked ms (leave_all server reason ticked ms)
unfolding leave_all
leave_all-LeftAll server reason ticked [] = (refl, refl, refl, refl, refl)
leave_all-LeftAll server reason ticked (m ∷ ms) =
    let rest = leave_all server reason ticked ms in
    let one = leave_one server reason m in
    ground (
      arith,
      leave_all-LeftAll server reason ticked ms,
      leave_one-LeftOne server reason m,
      uploads-append one.calls rest.calls,
      closings-append one.calls rest.calls,
      removals-append one.calls rest.calls,
    )

-- There are rows and they are refused: nobody is closed, the dialog stays with its text, and the page is not told.
abbrev pub RowsRefused : Commit → ImportModal → Translations → ℕ → Result Imported → Type 0
RowsRefused out s t f answer =
    (e : JsError) × (answer ≡ thrown e)
    × (has_rows s.preview ≡ true)
    × (out.calls ≡ commit_import f ∷ [])
    × (out.told ≡ false)
    × (out.modal.committed ≡ s.committed)
    × (out.modal.error ≡ some (write_error e t))

-- The rows are written where there are any, and the ticked people leave after that.
abbrev pub Imports : Commit → ImportModal → ImportServer → ℕ → Type 0
Imports out s server f =
    (l : Leaving) × (c : Committed) × ((has_rows s.preview ≡ false)
      ⊎ ((r : Imported) × (server.commit_humans_import f ≡ ok r)))
    × (out.calls ≡ (if has_rows s.preview then commit_import f ∷ [] else []) ++ l.calls)
    × LeftAll server.roster (reason_of s) (has s.leaving) (missing_of s.preview) l
    × (out.modal.committed ≡ some c)
    × (c.left ≡ l.left)
    × (c.left_failed ≡ l.left_failed)
    × (out.told ≡ true)

-- Once a file is chosen, a commit writes its rows first, exactly if the preview has new or changed ones,
-- and where that is refused nobody is closed. Otherwise exactly the ticked people among the missing ones
-- are closed, in order and once each, all with one reason, and those whose closing was accepted are
-- removed from the scanner. The dialog counts the accepted closings as left; as not yet removed it
-- names everyone ticked whose closing or removal failed.
pub handle_commit_lem :
    (t : Translations) (server : ImportServer) (s : ImportModal) (f : ℕ)
    → s.file ≡ some f
    → RowsRefused (handle_commit t server s) s t f (server.commit_humans_import f)
      ⊎ Imports (handle_commit t server s) s server f
unfolding handle_commit
handle_commit_lem t server s f chosen =
    let loop = leave_all server.roster (reason_of s) (has s.leaving) (missing_of s.preview) in
    let left =
      leave_all-LeftAll server.roster (reason_of s) (has s.leaving) (missing_of s.preview) in
    elim (Bool-cases (has_rows s.preview)) [
      | inr bare ↦
          let run : handle_commit t server s ≡ finish_commit none [] loop s = ground arith in
          inr (
            loop,
            committed_of none loop,
            inl bare,
            rw bare (ap (λ c. c.calls) run),
            left,
            ap (λ c. c.modal.committed) run,
            refl,
            refl,
            ap (λ c. c.told) run,
          )
      | inl rows ↦ elim (result_cases (server.commit_humans_import f)) [
        | inl (r, e) ↦
            let run : handle_commit t server s
                ≡ finish_commit (some r) (commit_import f ∷ []) loop s =
              ground arith in
            inr (
              loop,
              committed_of (some r) loop,
              inr (r, e),
              rw rows (ap (λ c. c.calls) run),
              left,
              ap (λ c. c.modal.committed) run,
              refl,
              refl,
              ap (λ c. c.told) run,
            )
        | inr (err, e) ↦ inl (err, e, rows, ground arith, ground arith, ground arith, ground arith)
      ]
    ]

-- A click on a person's box changes it, and no other one.
toggle_lem :
    (leaving : List String) (id other : String)
    → has (toggle leaving id) other
      ≡ (if str_eq other id then not (has leaving id) else has leaving other)
unfolding toggle
toggle_lem leaving id other =
    ground (arith, has-add leaving id other, has-delete leaving id other, eq_iff other id)
