-- ===== src/Personnel/Policy/Laws.antt =====
-- What is asked of the server about scanning, and what is shown of it.
use adms_server.Common.{
  ℕ, String, ◌≡◌, refl, ◌↔◌, Bool, true, false, none, some, List, arith, if◌then◌else◌, truthy,
  or_none, All,
}
use adms_server.Api.Json.{Json}
use adms_server.Api.Request.{Result}
use adms_server.Api.Calls.Roster.{RosterCall, set_scan_exempt, bulk_scan_exempt}
use adms_server.I18n.Translations.{Translations}
use adms_server.Personnel.Roster.{Human}
use adms_server.Personnel.Policy.{
  PolicyCard, QuickPolicy, BulkBar, bulk_reason, bulk_enabled, save_policy, change_policy,
  apply_bulk, scan_needs, scan_state, enroll_link,
}

-- A call about scanning that says why exactly if it exempts.
abbrev pub Reasoned : RosterCall → Type 0
Reasoned (set_scan_exempt id exempt reason) =
    if exempt then ((r : String) × (reason ≡ some r) × (truthy r ≡ true)) else (reason ≡ none)
Reasoned (bulk_scan_exempt ids exempt reason) =
    if exempt then ((r : String) × (reason ≡ some r) × (truthy r ≡ true)) else (reason ≡ none)
Reasoned _ = ⊥

or_none-Reasoned :
    (v : String)
    → if truthy v
      then ((r : String) × (or_none v ≡ some r) × (truthy r ≡ true))
      else (or_none v ≡ none)
or_none-Reasoned String.[] = refl
or_none-Reasoned (String.◌∷◌ c s) = (_, refl, refl)

card-Reasoned :
    (t : Translations) (serve : RosterCall → Result Json) (h : Human) (exempt : Bool)
    (s : PolicyCard)
    → All Reasoned (save_policy t serve h exempt s).calls
unfolding save_policy
card-Reasoned t serve h false s = ground arith
card-Reasoned t serve h true s = ground arith

quick-Reasoned :
    (t : Translations) (serve : RosterCall → Result ℕ) (h : Human) (value : String)
    (s : QuickPolicy)
    → All Reasoned (change_policy t serve h value s).calls
unfolding change_policy
quick-Reasoned t serve h value s = ground (arith, or_none-Reasoned value)

bulk-Reasoned :
    (t : Translations) (serve : RosterCall → Result ℕ) (ids : List String) (can_edit exempt : Bool)
    (s : BulkBar)
    → bulk_enabled can_edit exempt s ≡ true
    → All Reasoned (apply_bulk t serve ids exempt s).calls
unfolding apply_bulk bulk_enabled
bulk-Reasoned t serve ids can_edit false s h = ground arith
bulk-Reasoned t serve ids can_edit true s h = ground (arith, or_none-Reasoned (bulk_reason s))

-- Whatever the three places where the policy is changed send, by a button that is enabled, it carries
-- a reason exactly if it exempts from scanning.
pub policy-Reasoned :
    (t : Translations)
    → ((serve : RosterCall → Result Json) (h : Human) (exempt : Bool) (s : PolicyCard)
        → All Reasoned (save_policy t serve h exempt s).calls)
      × ((serve : RosterCall → Result ℕ) (h : Human) (value : String) (s : QuickPolicy)
          → All Reasoned (change_policy t serve h value s).calls)
      × ((serve : RosterCall → Result ℕ) (ids : List String) (can_edit exempt : Bool) (s : BulkBar)
          → bulk_enabled can_edit exempt s ≡ true
          → All Reasoned (apply_bulk t serve ids exempt s).calls)
policy-Reasoned t = (card-Reasoned t, quick-Reasoned t, bulk-Reasoned t)

-- The link to the enrollment is there exactly for those who may enroll, at a person whose badge says
-- that a fingerprint is missing.
enroll_link_iff :
    (can_enroll : Bool) (h : Human)
    → (enroll_link can_enroll h ≡ true) ↔ ((can_enroll ≡ true) × (scan_state h ≡ scan_needs))
unfolding enroll_link scan_state
enroll_link_iff can_enroll h = ground arith
