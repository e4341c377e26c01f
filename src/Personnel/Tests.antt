-- ===== src/Personnel/Tests.antt =====
-- The personnel pages at single people, with a server that refuses some calls.
use adms_server.Common.{
  ℕ, String, ◌≡◌, refl, ◌⊎◌, inl, Bool, true, false, none, some, List, [], ◌∷◌, str_eq,
  if◌then◌else◌, truthy, All,
}
use adms_server.Common.Text.{trim}
use adms_server.Api.Json.{Json, null, str}
use adms_server.Api.Request.{JsError, client_error, Result, ok, thrown}
use adms_server.Api.Calls.Login.{HumanCall, create_human}
use adms_server.Api.Calls.Roster.{RosterCall, deactivate_human}
use adms_server.I18n.English.{en}
use adms_server.Personnel.Roster.{Human, RosterServer}
use adms_server.Personnel.Offboard.{OffboardPanel, handle_offboard}
use adms_server.Personnel.Offboard.Laws.{
  NoReason, NotClosed, Closed, handle_offboard_lem, offboard_unloaded,
}
use adms_server.Personnel.Form.{edit, form_start, submit_person}
use adms_server.Personnel.Form.Laws.{NotSent, CallOf, Answered, submit_person_lem}
use adms_server.Personnel.Import.{MissingPerson, ImportModal, ImportServer, handle_commit}
use adms_server.Personnel.Import.Laws.{RowsRefused, Imports, handle_commit_lem}
use adms_server.Personnel.Policy.{
  PolicyCard, QuickPolicy, BulkBar, bulk_enabled, save_policy, change_policy, apply_bulk,
}
use adms_server.Personnel.Policy.Laws.{Reasoned, policy-Reasoned}
use adms_server.Personnel.Combobox.{
  BoxEvent, focus, click_outside, type_text, choose, box_start, box_run,
}
use adms_server.Personnel.Combobox.Laws.{ShowsChoice, box_run-ShowsChoice}
use adms_server.Personnel.Listing.{ListingEvent, set_search, next, load}

abbrev timeout : JsError
timeout = client_error 504 (str "DEVICE_COMMAND_TIMEOUT") "late"

-- Everybody can be closed; the scanner keeps an account of p2, and does not answer for p3.
abbrev server : RosterServer
server = record {
  deactivate_human = λ id reason. ok null;
  remove_from_scanner = λ id.
      if str_eq id "p2" then ok ("1:7" ∷ []) else if str_eq id "p3" then thrown timeout else ok [];
  reactivate_human = λ id. ok null;
  set_scan_exempt = λ id exempt reason. ok null;
}

abbrev panel : OffboardPanel
panel = record {
  accounts = some ((1, "7") ∷ []);
  is_open = true;
  reason = " moved ";
  reason_error = false;
  busy = false;
  result = none;
}

handle_offboard_lem_example :
    NoReason (handle_offboard en server "p2" panel) panel
    ⊎ ((e : JsError) × (server.deactivate_human "p2" (trim panel.reason) ≡ thrown e)
        × NotClosed (handle_offboard en server "p2" panel) panel en "p2" e)
    ⊎ ((r : Json) × (server.deactivate_human "p2" (trim panel.reason) ≡ ok r)
        × Closed (handle_offboard en server "p2" panel) panel en "p2" server)
handle_offboard_lem_example = handle_offboard_lem en server "p2" panel

abbrev unloaded : OffboardPanel
unloaded = record panel { accounts = none }

offboard_unloaded_example :
    ((handle_offboard en server "p2" unloaded).state.result
      ≡ some (record { is_ok = true; words = en.workflow.offboard_done }))
    × ((handle_offboard en server "p2" unloaded).calls
        ≡ deactivate_human "p2" (trim unloaded.reason) ∷ [])
unfolding trim
offboard_unloaded_example = offboard_unloaded en server "p2" unloaded null refl refl refl

abbrev ann : Human
ann = record {
  employee_id = "p1";
  display_name = "Ann";
  english_name = none;
  rank = some "Sgt";
  personnel_id = some "17";
  branch = none;
  category = none;
  position = none;
  active = true;
  scan_exempt = false;
  scan_exempt_reason = none;
  has_active_terminal_account = false;
}

abbrev answer_human : HumanCall → Result Human
answer_human (create_human payload) = thrown timeout
answer_human _ = ok ann

submit_person_lem_example :
    NotSent
      (submit_person en answer_human (edit (some ann)) (form_start (some ann)))
      (edit (some ann))
      (form_start (some ann))
      en
    ⊎ ((call : HumanCall) × CallOf (edit (some ann)) (form_start (some ann)) call
        × (truthy (trim (form_start (some ann)).display_name) ≡ true)
        × Answered
            (submit_person en answer_human (edit (some ann)) (form_start (some ann)))
            (edit (some ann))
            en
            (answer_human call)
        × ((submit_person en answer_human (edit (some ann)) (form_start (some ann))).calls
            ≡ call ∷ [])
        × ((submit_person en answer_human (edit (some ann)) (form_start (some ann))).form.busy
            ≡ false))
submit_person_lem_example =
    submit_person_lem en answer_human (edit (some ann)) (form_start (some ann))

abbrev importing : ImportServer
importing = record {
  preview_humans_import = λ f. thrown timeout;
  commit_humans_import =
      λ f. ok (record { created = 1; updated = 2; renamed = none; failed = none });
  roster = server;
}

abbrev missing_one : String → String → MissingPerson
missing_one id name = record { employee_id = id; display_name = name; rank = none }

abbrev modal : ImportModal
modal = record {
  file = some 5;
  preview = some (record {
    added = 1;
    changed = 2;
    rows = 3;
    missing = some (missing_one "p2" "Bob" ∷ missing_one "p3" "Cid" ∷ []);
  });
  busy = false;
  error = none;
  committed = none;
  leaving = "p2" ∷ [];
  leave_reason = "";
}

handle_commit_lem_example :
    RowsRefused (handle_commit en importing modal) modal en 5 (importing.commit_humans_import 5)
    ⊎ Imports (handle_commit en importing modal) modal importing 5
handle_commit_lem_example = handle_commit_lem en importing modal 5 refl

policy-Reasoned_example :
    ((serve : RosterCall → Result Json) (h : Human) (exempt : Bool) (s : PolicyCard)
      → All Reasoned (save_policy en serve h exempt s).calls)
    × ((serve : RosterCall → Result ℕ) (h : Human) (value : String) (s : QuickPolicy)
        → All Reasoned (change_policy en serve h value s).calls)
    × ((serve : RosterCall → Result ℕ) (ids : List String) (can_edit exempt : Bool) (s : BulkBar)
        → bulk_enabled can_edit exempt s ≡ true
        → All Reasoned (apply_bulk en serve ids exempt s).calls)
policy-Reasoned_example = policy-Reasoned en

abbrev clicks : List BoxEvent
clicks = focus ∷ type_text "an" ∷ choose ann ∷ focus ∷ click_outside ∷ []

box_run-ShowsChoice_example : ShowsChoice (box_run (box_start (some (ann ∷ [])) "") clicks)
unfolding box_start
box_run-ShowsChoice_example =
    box_run-ShowsChoice (box_start (some (ann ∷ [])) "") clicks (inl refl)
      (tt, (tt, (refl, (tt, (tt, tt)))))

abbrev pages : List ListingEvent
pages = load 60 ∷ next ∷ load 60 ∷ next ∷ load 60 ∷ next ∷ set_search "a" ∷ load 3 ∷ next ∷ []
