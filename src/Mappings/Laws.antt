-- ===== src/Mappings/Laws.antt =====
-- What is sent to confirm an identity.
use adms_server.Common.{
  String, Bool, ◌||◌, ◌⊎◌, map, false, ◌≡◌, refl, inl, inr, true, false, some, List, [], ◌∷◌, arith,
  Bool-cases, Option-cases, truthy, All,
}
use adms_server.Common.Text.{trim}
use adms_server.Api.Json.{Json}
use adms_server.Api.Request.{Result}
use adms_server.I18n.Translations.{Translations}
use adms_server.Enrollments.Forms.{Verification}
use adms_server.Mappings.{
  EligibleItem, MappingPanel, item_of, has_evidence, MappingEvent, select, set_verified_by,
  set_note, request, confirm, cancel, load, request_submit, confirm_submit, mapping_step,
  verification_of,
}

-- Whether the verifier or the note was typed while the dialog was open, by now: the dialog covers the
-- form, but does not disable it.
abbrev typed_behind : Bool → MappingPanel → MappingEvent → Bool
typed_behind was s (set_verified_by v) = was || s.confirm_open
typed_behind was s (set_note v) = was || s.confirm_open
typed_behind was s _ = was

-- The dialog is open only over texts that are filled in, unless they were changed behind it.
abbrev FilledIn : Bool → MappingPanel → Type 0
FilledIn behind s =
    s.confirm_open ≡ true
    → (behind ≡ true) ⊎ ((truthy (trim s.verified_by) ≡ true) × (truthy (trim s.note) ≡ true))

-- A call for an enrollment of the list whose evidence is there, with both texts as they are then, which
-- are not blank unless they were changed behind the dialog.
abbrev Evident : Bool → MappingPanel → Verification → Type 0
Evident behind s call =
    (e : EligibleItem) × (item_of s ≡ some e)
    × (has_evidence e ≡ true)
    × (call.enrollment_id ≡ e.enrollment_id)
    × (call.verified_by ≡ trim s.verified_by)
    × (call.verification_note ≡ trim s.note)
    × ((s.confirm_open ≡ false)
        ⊎ (behind ≡ true)
        ⊎ ((truthy call.verified_by ≡ true) × (truthy call.verification_note ≡ true)))

module _ (lower : String → String) (t : Translations) (serve : Verification → Result Json) where
  step-FilledIn :
      (behind : Bool) (s : MappingPanel) (e : MappingEvent)
      → FilledIn behind s
      → FilledIn (typed_behind behind s e) (mapping_step lower t serve s e).state
  unfolding mapping_step request_submit confirm_submit
  step-FilledIn behind s (select id) h = h
  step-FilledIn behind s (set_verified_by v) h = ground arith
  step-FilledIn behind s (set_note v) h = ground arith
  step-FilledIn behind s request h = ground arith
  step-FilledIn behind s confirm h = ground arith
  step-FilledIn behind s cancel h = ground arith
  step-FilledIn behind s (load items) h = h

  step-Evident :
      (behind : Bool) (s : MappingPanel) (e : MappingEvent)
      → FilledIn behind s
      → All (Evident behind s) (mapping_step lower t serve s e).calls
  unfolding mapping_step confirm_submit
  step-Evident behind s (select id) h = tt
  step-Evident behind s (set_verified_by v) h = tt
  step-Evident behind s (set_note v) h = tt
  step-Evident behind s request h = tt
  step-Evident behind s confirm h = elim (Option-cases (item_of s)) [
    | inl none' ↦ ground arith
    | inr (e, found) ↦ elim (Bool-cases (has_evidence e)) [
      | inr lacking ↦ ground arith
      | inl there ↦
          let complete : Evident behind s (verification_of s e) =
            (e, found, there, refl, refl, refl, ground arith) in
          ground arith
    ]
  ]
  step-Evident behind s cancel h = tt
  step-Evident behind s (load items) h = tt

  -- Every call that some events make is for evidence that the panel has when it is made.
  abbrev pub AllEvident : Bool → MappingPanel → List MappingEvent → Type 0
  AllEvident behind s [] = Unit
  AllEvident behind s (e ∷ es) =
      All (Evident behind s) (mapping_step lower t serve s e).calls
      × AllEvident (typed_behind behind s e) (mapping_step lower t serve s e).state es

  -- From a panel whose dialog is closed, whatever is chosen, typed, confirmed and loaded, an identity is
  -- sent for confirmation only for an enrollment that the list holds at that time with both links to its
  -- evidence, and with the verifier and the note that the form then shows; with the dialog open these
  -- are not blank, unless one of the two was typed while the dialog was open.
  pub mapping_run-AllEvident :
      (s : MappingPanel) (es : List MappingEvent) → s.confirm_open ≡ false → AllEvident false s es
  mapping_run-AllEvident s es closed = from false s es (λ h. cc)
    where
      from :
          (behind : Bool) (p : MappingPanel) (ds : List MappingEvent)
          → FilledIn behind p
          → AllEvident behind p ds
      from behind p [] h = tt
      from behind p (d ∷ ds) h = (
        step-Evident behind p d h,
        from (typed_behind behind p d) (mapping_step lower t serve p d).state ds
            (step-FilledIn behind p d h),
      )

  -- A note that is emptied behind the open dialog is sent blank.
  blank_note_sent :
      (s : MappingPanel) (e : EligibleItem)
      → s.confirm_open ≡ true
      → item_of s ≡ some e
      → has_evidence e ≡ true
      → let typed = (mapping_step lower t serve s (set_note "")).state in
        map (λ c. c.verification_note) (mapping_step lower t serve typed confirm).calls ≡ "" ∷ []
  unfolding mapping_step confirm_submit trim
  blank_note_sent s e shown found there = ground arith

  -- A confirmation that was sent closes the dialog and leaves the panel free, whatever the answer.
  confirm_submit_lem :
      (s : MappingPanel) (call : Verification)
      → (confirm_submit lower t serve s).calls ≡ call ∷ []
      → ((confirm_submit lower t serve s).state.confirm_open ≡ false)
        × ((confirm_submit lower t serve s).state.busy ≡ false)
  unfolding confirm_submit
  confirm_submit_lem s call sent = ground arith
