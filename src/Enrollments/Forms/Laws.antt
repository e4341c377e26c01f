-- ===== src/Enrollments/Forms/Laws.antt =====
-- What a submission of the three forms does, whatever the form holds and the server answers.
use adms_server.Common.{
  ℕ, String, true, false, Option-cases, Bool-cases, none, some, [], ◌∷◌, ◌≡◌, refl, ◌⊎◌, inl, inr,
  arith, truthy,
}
use adms_server.Common.Text.{trim}
use adms_server.Api.Json.{Json}
use adms_server.Api.Request.{JsError, Result, ok, thrown}
use adms_server.I18n.Translations.{Translations}
use adms_server.I18n.ApiErrors.{friendly_api_error}
use adms_server.Enrollments.Queue.{Enrollment}
use adms_server.Enrollments.Forms.{
  Submitted, ReserveForm, Reservation, NoteForm, Verification, submit_reservation, reserve_text,
  verify, save_english_name,
}

-- A submission that was refused before any call.
abbrev Refused : Submitted ReserveForm Reservation ℕ → ReserveForm → Type 0
Refused out form =
    (out.calls ≡ [])
    × (out.told ≡ none)
    × ((form.device_id ≡ none)
        ⊎ (truthy form.employee_id ≡ false)
        ⊎ (truthy (trim form.operator) ≡ false))
    × ((m : String) × (out.form.error ≡ some m))
    × (out.form.employee_id ≡ form.employee_id)

-- The call of a complete form.
abbrev pub CallOf : Reservation → ReserveForm → Type 0
CallOf call form =
    (form.device_id ≡ some call.device_id)
    × (call.employee_id ≡ form.employee_id)
    × (truthy call.employee_id ≡ true)
    × (call.operator ≡ trim form.operator)
    × (truthy call.operator ≡ true)

-- The call's answer, as the form and the page take it.
abbrev pub Answered :
    Submitted ReserveForm Reservation ℕ → ReserveForm → (JsError → String) → Result ℕ → Type 0
Answered out form say (ok id) =
    (out.told ≡ some id) × (out.form.employee_id ≡ "") × (out.form.error ≡ none)
Answered out form say (thrown e) =
    (out.told ≡ none) × (out.form.employee_id ≡ form.employee_id) × (out.form.error ≡ some (say e))

-- A reservation is sent exactly when a person and a device are chosen and the operator is not blank,
-- and then once, with the operator trimmed, and the form is no longer busy after it. The page is told
-- the new enrollment exactly when the server accepted that call, and then the person's field is
-- cleared and no error is shown; otherwise the person's field is kept and an error is shown.
submit_reservation_lem :
    (lower : String → String) (t : Translations) (serve : Reservation → Result ℕ)
    (form : ReserveForm)
    → Refused (submit_reservation lower t serve form) form
      ⊎ ((call : Reservation) × ((submit_reservation lower t serve form).calls ≡ call ∷ [])
          × CallOf call form
          × ((submit_reservation lower t serve form).form.busy ≡ false)
          × Answered
              (submit_reservation lower t serve form)
              form
              (reserve_text lower t)
              (serve call))
unfolding submit_reservation
submit_reservation_lem lower t serve form = elim (Option-cases form.device_id) [
  | inl h ↦ inl (rw (h, submit_reservation) (refl, refl, inl refl, (_, refl), refl))
  | inr (d, h) ↦ elim (Bool-cases (truthy form.employee_id)) [
    | inr p ↦ inl (rw (h, p, submit_reservation) (refl, refl, inr (inl refl), (_, refl), refl))
    | inl p ↦ elim (Bool-cases (truthy (trim form.operator))) [
      | inr q ↦ inl (rw (h, p, q, submit_reservation) (refl, refl, inr (inr refl), (_, refl), refl))
      | inl q ↦ ground arith
    ]
  ]
]

-- What a form of one text promises.
abbrev Sent :
    {C : Type 0}
    → Submitted NoteForm C Json
    → NoteForm
    → Translations
    → (C → Result Json)
    → (C → String)
    → Type 0
Sent {C} out form t serve content =
    (out.calls ≡ [])
      × (out.told ≡ none)
      × (truthy (trim form.note) ≡ false)
      × (out.form.busy ≡ form.busy)
    ⊎ ((call : C) × (out.calls ≡ call ∷ [])
        × (content call ≡ trim form.note)
        × (truthy (trim form.note) ≡ true)
        × (out.form.busy ≡ false)
        × (((r : Json) × (serve call ≡ ok r) × (out.told ≡ some r) × (out.form.error ≡ none))
            ⊎ ((e : JsError) × (serve call ≡ thrown e)
                × (out.told ≡ none)
                × (out.form.error ≡ some (friendly_api_error e t)))))

-- The verification and the English name are sent once with the text trimmed, or not at all when it is
-- blank. The page is told of a success exactly when the server accepted the call, an accepted call
-- leaves no error, a refused one leaves its text, and no call leaves the form busy.
notes-Sent :
    (required : String) (t : Translations) (e : Enrollment) (operator employee_id : String)
    (accept : Verification → Result Json) (save : String × String → Result Json) (form : NoteForm)
    → Sent (verify required t accept e operator form) form t accept (λ call. call.verification_note)
      × Sent (save_english_name t save employee_id form) form t save (λ call. call.1)
unfolding verify save_english_name
notes-Sent required t e operator employee_id accept save form = ground arith
