-- ===== src/Absences/Tests.antt =====
-- The register with sixty records, a form, and the calendar of 2026.
use adms_server.Common.{
  ℕ, String, true, false, none, some, List, [], ◌∷◌, ◌≡◌, refl, ◌⊎◌, if◌then◌else◌,
}
use adms_server.Common.Text.{trim}
use adms_server.Api.Json.{null}
use adms_server.Api.Request.{ok}
use adms_server.I18n.English.{en}
use adms_server.Absences.Register.{all, Filters, RegisterState}
use adms_server.Absences.Form.{AbsenceType, AbsenceForm, Absence, selected_type, submit_absence}
use adms_server.Absences.Form.Laws.{
  IsComplete, Settled, NotSent, LacksBasics, LacksOrder, submit_absence_lem,
}

-- Twenty records stand and forty are cancelled.
abbrev total : Filters → ℕ
total f = if f.show_cancelled then 60 else 20

abbrev with_cancelled : RegisterState
with_cancelled = record {
  filters = record { scope = all; show_cancelled = true; search = "" };
  page = 0;
}

abbrev second_page : RegisterState
second_page = record with_cancelled { page = 1 }

abbrev types : List AbsenceType
types = record { code = "SICK"; counts_as = "LEAVE"; requires_order_ref = false } ∷ []

abbrev form : AbsenceForm
form = record {
  employee_id = "e";
  type_code = "SICK";
  start_date = "2026-03-02";
  end_date = "2026-03-03";
  order_ref = "";
  destination = "home";
  note = " flu ";
  busy = false;
  msg = none;
}

submit_absence_lem_example :
    NotSent (submit_absence en (λ a. ok null) types form) (selected_type types form) form en
    ⊎ ((a : Absence) × ((submit_absence en (λ a. ok null) types form).sent ≡ a ∷ [])
        × (LacksBasics form → ⊥)
        × (LacksOrder (selected_type types form) form → ⊥)
        × IsComplete a (selected_type types form) form
        × Settled (submit_absence en (λ a. ok null) types form) form en (ok null))
submit_absence_lem_example = submit_absence_lem en (λ a. ok null) types form

sent_once :
    (submit_absence en (λ a. ok null) types form).sent
    ≡ record {
      employee_id = "e";
      type_code = "SICK";
      start_date = "2026-03-02";
      end_date = "2026-03-03";
      order_ref = none;
      destination = none;
      note = some "flu";
    }
      ∷ []
unfolding submit_absence trim
sent_once = refl

abbrev songkran : List (String × String)
songkran = ("2026-04-13", "Songkran") ∷ []
