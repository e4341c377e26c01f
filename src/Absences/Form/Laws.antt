-- ===== src/Absences/Form/Laws.antt =====
-- What is sent and when.
use adms_server.Common.{
  String, true, false, Option, Bool-cases, none, some, List, [], ◌∷◌, ◌≡◌, refl, ◌⊎◌, inl, inr,
  arith, eq_iff, truthy, or_none, or_none-truthy,
}
use adms_server.Common.Text.{trim}
use adms_server.Api.Json.{Json}
use adms_server.Api.Request.{Result, ok, thrown}
use adms_server.I18n.Translations.{Translations}
use adms_server.Absences.Form.{
  AbsenceType, AbsenceForm, Absence, Saved, before, set_start, selected_type, requires_order,
  is_duty, absence_error, incomplete, lacks_order, absence_of, settled, submit_absence,
}

-- A payload that the register accepts, made from a form.
pub record IsComplete (a : Absence) (chosen : Option AbsenceType) (form : AbsenceForm)
    : Type 0 where
  pub person : (truthy a.employee_id ≡ true) × (a.employee_id ≡ form.employee_id)
  pub days :
      (truthy a.start_date ≡ true)
      × (truthy a.end_date ≡ true)
      × (before a.end_date a.start_date ≡ false)
  pub period : (a.start_date ≡ form.start_date) × (a.end_date ≡ form.end_date)
  pub order : requires_order chosen ≡ true → a.order_ref ≡ some (trim form.order_ref)
  pub target : is_duty chosen ≡ false → a.destination ≡ none
  pub said : a.note ≡ or_none (trim form.note)

-- The answer to the call, as the form and the list take it.
abbrev pub Settled : Saved → AbsenceForm → Translations → Result Json → Type 0
Settled out form t (ok r) =
    (out.saved ≡ 1)
    × (out.form.employee_id ≡ "")
    × (out.form.msg ≡ some (record { is_ok = true; words = t.leave.saved }))
Settled out form t (thrown e) =
    (out.saved ≡ 0)
    × (out.form.employee_id ≡ form.employee_id)
    × (out.form.note ≡ form.note)
    × (out.form.msg ≡ some (record { is_ok = false; words = absence_error e t }))

-- A person or a day is missing, or the last day is before the first.
abbrev pub LacksBasics : AbsenceForm → Type 0
LacksBasics form =
    (truthy form.employee_id ≡ false)
    ⊎ (truthy form.start_date ≡ false)
    ⊎ (truthy form.end_date ≡ false)
    ⊎ (before form.end_date form.start_date ≡ true)

-- The type asks for an order number, and there is none.
abbrev pub LacksOrder : Option AbsenceType → AbsenceForm → Type 0
LacksOrder chosen form = (requires_order chosen ≡ true) × (truthy (trim form.order_ref) ≡ false)

-- A form that was not sent, with the text for what it lacks.
abbrev pub NotSent : Saved → Option AbsenceType → AbsenceForm → Translations → Type 0
NotSent out chosen form t =
    (out.sent ≡ [])
    × (out.saved ≡ 0)
    × (out.form.employee_id ≡ form.employee_id)
    × ((LacksBasics form
          × (out.form.msg
              ≡ some (record { is_ok = false; words = t.leave.select_person_required })))
        ⊎ ((LacksBasics form → ⊥)
            × LacksOrder chosen form
            × (out.form.msg ≡ some (record { is_ok = false; words = t.leave.order_ref_required }))))

settled-Settled :
    (t : Translations) (a : Absence) (form : AbsenceForm) (r : Result Json)
    → Settled (settled t a form r) form t r
settled-Settled t a form (ok r) = (refl, refl, refl)
settled-Settled t a form (thrown e) = (refl, refl, refl, refl)

absence_of-IsComplete :
    (chosen : Option AbsenceType) (form : AbsenceForm)
    → incomplete form ≡ false
    → lacks_order chosen form ≡ false
    → IsComplete (absence_of chosen form) chosen form
absence_of-IsComplete chosen form whole order = record {
  person = (ground arith, refl);
  days = (ground arith, ground arith, ground arith);
  period = (refl, refl);
  order = λ h. or_none-truthy (trim form.order_ref) (ground arith);
  target = λ h. rw h refl;
  said = refl;
}

-- A submission without a person or a day, or with the days out of order, sends nothing and shows the
-- text for that; one whose type asks for an order number and has none shows the text for that instead.
-- Every other one sends one payload, and a complete one: with a person, two days in order, the order
-- number where the type asks for one, and a destination only for duties. The list is told exactly of an
-- accepted payload; a refused one keeps the person and the note.
pub submit_absence_lem :
    (t : Translations) (serve : Absence → Result Json) (types : List AbsenceType)
    (form : AbsenceForm)
    → NotSent (submit_absence t serve types form) (selected_type types form) form t
      ⊎ ((a : Absence) × ((submit_absence t serve types form).sent ≡ a ∷ [])
          × (LacksBasics form → ⊥)
          × (LacksOrder (selected_type types form) form → ⊥)
          × IsComplete a (selected_type types form) form
          × Settled (submit_absence t serve types form) form t (serve a))
unfolding submit_absence
submit_absence_lem t serve types form =
    let chosen = selected_type types form in
    elim (Bool-cases (incomplete form)) [
      | inl e ↦ inl (rw (e, submit_absence) (refl, refl, refl, inl (ground arith, refl)))
      | inr e ↦ elim (Bool-cases (lacks_order chosen form)) [
        | inl q ↦ inl (
            rw (e, q, submit_absence)
              (refl, refl, refl, inr (λ l. ground arith, ground arith, refl)))
        | inr q ↦ inr (
          absence_of chosen form,
          rw (e, q, submit_absence) (sent_of (serve (absence_of chosen form))),
          λ l. ground arith,
          λ l. ground arith,
          absence_of-IsComplete chosen form e q,
          rw (e, q, submit_absence)
              (settled-Settled t (absence_of chosen form) form (serve (absence_of chosen form))),
        )
      ]
    ]
  where
    sent_of :
        (r : Result Json)
        → (settled t (absence_of (selected_type types form) form) form r).sent
          ≡ absence_of (selected_type types form) form ∷ []
    sent_of (ok r) = refl
    sent_of (thrown e) = refl

-- After the first day is chosen, the last day is not before it; it is moved only if it was.
set_start_ordered :
    (day : String) (form : AbsenceForm)
    → (before (set_start day form).end_date (set_start day form).start_date ≡ false)
      × (before form.end_date day ≡ false → (set_start day form).end_date ≡ form.end_date)
unfolding set_start
set_start_ordered day form = ground (arith, eq_iff day day)
