-- ===== src/Personnel/Form/Laws.antt =====
-- What adding and editing a person send.
use adms_server.Common.{
  String, ◌≡◌, refl, ◌⊎◌, inl, inr, true, false, Option, none, some, [], ◌∷◌, Bool-cases,
  Option-cases, truthy,
}
use adms_server.Common.Text.{trim}
use adms_server.Api.Json.{Json, str, member, object}
use adms_server.Api.Json.Members.{lookup, member-object}
use adms_server.Api.Request.{Result, ok, thrown}
use adms_server.Api.Calls.Login.{HumanCall, create_human, update_human}
use adms_server.I18n.Translations.{Translations}
use adms_server.Personnel.Roster.{Human}
use adms_server.Personnel.Form.{
  Mode, create, edit, PersonnelForm, Submission, payload_members, or_undefined, or_null,
  call_of_form, settled, personnel_error, submit_person,
}

-- The payload's optional members, by the field's text.
abbrev Says : (String → Option Json) → PersonnelForm → Json → Type 0
Says optional form payload =
    (member "display_name" payload ≡ some (str (trim form.display_name)))
    × (member "rank" payload ≡ optional form.rank)
    × (member "english_name" payload ≡ optional (trim form.english_name))
    × (member "personnel_id" payload ≡ optional (trim form.personnel_id))
    × (member "branch" payload ≡ optional (trim form.branch))
    × (member "category" payload ≡ optional (trim form.category))
    × (member "position" payload ≡ optional (trim form.position))

payload_members-Says :
    (optional : String → Option Json) (form : PersonnelForm)
    → Says optional form (object (payload_members optional form))
payload_members-Says optional form = (
  at "display_name",
  at "rank",
  at "english_name",
  at "personnel_id",
  at "branch",
  at "category",
  at "position",
)
  where
    at :
        (k : String)
        → member k (object (payload_members optional form))
          ≡ lookup k (payload_members optional form)
    at k = member-object k (payload_members optional form) refl

-- The one call of a form, if there is one.
abbrev pub CallOf : Mode → PersonnelForm → HumanCall → Type 0
CallOf create form call =
    (payload : Json) × (call ≡ create_human payload) × Says or_undefined form payload
CallOf (edit none) form call = ⊥
CallOf (edit (some h)) form call =
    (payload : Json) × (call ≡ update_human h.employee_id payload) × Says or_null form payload

call_of_form-CallOf :
    (mode : Mode) (form : PersonnelForm) (call : HumanCall)
    → call_of_form mode form ≡ some call
    → CallOf mode form call
unfolding call_of_form
call_of_form-CallOf create form call h =
    (object (payload_members or_undefined form), cc, payload_members-Says or_undefined form)
call_of_form-CallOf (edit none) form call h = cc
call_of_form-CallOf (edit (some p)) form call h =
    (object (payload_members or_null form), cc, payload_members-Says or_null form)

call_of_form-none :
    (mode : Mode) (form : PersonnelForm) → call_of_form mode form ≡ none → mode ≡ edit none
unfolding call_of_form
call_of_form-none create form n = cc
call_of_form-none (edit none) form n = refl
call_of_form-none (edit (some h)) form n = cc

-- How the form ends after an answer.
abbrev pub Answered : Submission → Mode → Translations → Result Human → Type 0
Answered out create t (ok h) =
    (out.saved ≡ some h) × (out.form.just_created ≡ some h) × (out.closes ≡ false)
Answered out (edit who) t (ok h) = (out.saved ≡ some h) × (out.closes ≡ true)
Answered out mode t (thrown e) =
    (out.saved ≡ none) × (out.closes ≡ false) × (out.form.error ≡ some (personnel_error t e))

settled-Answered :
    (t : Translations) (mode : Mode) (form : PersonnelForm) (call : HumanCall) (r : Result Human)
    → Answered (settled t mode form call r) mode t r
      × ((settled t mode form call r).calls ≡ call ∷ [])
      × ((settled t mode form call r).form.busy ≡ false)
settled-Answered t create form call (ok h) = ((refl, refl, refl), refl, refl)
settled-Answered t (edit who) form call (ok h) = ((refl, refl), refl, refl)
settled-Answered t create form call (thrown e) = ((refl, refl, refl), refl, refl)
settled-Answered t (edit who) form call (thrown e) = ((refl, refl, refl), refl, refl)

-- No call is made: the name is blank and the form says so, or an edit has no person.
abbrev pub NotSent : Submission → Mode → PersonnelForm → Translations → Type 0
NotSent out mode form t =
    (out.calls ≡ [])
    × (out.saved ≡ none)
    × (((truthy (trim form.display_name) ≡ false)
          × (out.form.error ≡ some t.personnel.display_name_required))
        ⊎ ((truthy (trim form.display_name) ≡ true) × (mode ≡ edit none)))

-- A blank name, or an edit of nobody, sends and saves nothing, and the blank name is told;
-- otherwise the form makes one call. A new person is sent with the fields that are filled in and
-- without the others; an edit sends every field, with null for an empty one, so that a field can be
-- emptied. A new person is shown with the way on to the enrollment; an edit closes the form; a
-- refusal keeps it open with its text and saves nothing; and no call leaves it busy.
pub submit_person_lem :
    (t : Translations) (serve : HumanCall → Result Human) (mode : Mode) (form : PersonnelForm)
    → NotSent (submit_person t serve mode form) mode form t
      ⊎ ((call : HumanCall) × CallOf mode form call
          × (truthy (trim form.display_name) ≡ true)
          × Answered (submit_person t serve mode form) mode t (serve call)
          × ((submit_person t serve mode form).calls ≡ call ∷ [])
          × ((submit_person t serve mode form).form.busy ≡ false))
unfolding submit_person
submit_person_lem t serve mode form = elim (Bool-cases (truthy (trim form.display_name))) [
  | inr e ↦ inl (rw (e, submit_person) (refl, refl, inl (refl, refl)))
  | inl e ↦ elim (Option-cases (call_of_form mode form)) [
    | inl n ↦ inl (rw (e, n, submit_person) (refl, refl, inr (refl, call_of_form-none mode form n)))
    | inr (call, c) ↦ inr (
      call,
      call_of_form-CallOf mode form call c,
      e,
      rw (e, c, submit_person) (settled-Answered t mode form call (serve call)).0,
      rw (e, c, submit_person) (settled-Answered t mode form call (serve call)).1,
      rw (e, c, submit_person) (settled-Answered t mode form call (serve call)).2,
    )
  ]
]
