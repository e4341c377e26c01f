-- ===== src/Terminal/Dialogs.antt =====
-- What the dialogs of the terminal's page do with answers.
use adms_server.Common.{
  suc, String, ◌≡◌, refl, ◌≢◌, ◌⊎◌, inl, inr, Bool, true, false, none, some, List, [], ◌∷◌, arith,
  if◌then◌else◌, All,
}
use adms_server.Api.Json.{Json}
use adms_server.Api.Request.{JsError, Result, ok, thrown, result_cases}
use adms_server.Api.Calls.Admin.{TerminalCall, remove_terminal_account}
use adms_server.I18n.Translations.{Translations}
use adms_server.Terminal.{
  InventoryItem, idle, TerminalPage, TerminalServer, TerminalEvent, open_fingerprint, open_account,
  open_reenroll, cancel_fingerprint, cancel_account, cancel_reenroll, tick, remove_fingerprint,
  remove_account, start_reenroll, start_answer, poll, poll_answer, leave, is_protection,
  terminal_error, handle_remove_account, handle_remove_fingerprint, handle_start_reenroll,
  on_start_answer, on_poll_answer, terminal_step, terminal_run,
}

-- Whether an answer is no error.
abbrev is_ok : Result Json → Bool
is_ok (ok r) = true
is_ok (thrown e) = false

-- The events of a re-enrollment that has begun: its dialog's two buttons, a start that is accepted, and
-- the poll's answers.
abbrev OfReenroll : TerminalEvent → Type 0
OfReenroll cancel_reenroll = Unit
OfReenroll start_reenroll = Unit
OfReenroll (start_answer id r) = is_ok r ≡ true
OfReenroll (poll n) = Unit
OfReenroll (poll_answer r) = Unit
OfReenroll _ = ⊥

-- The dialog of a re-enrollment that has begun.
abbrev pub Begun : InventoryItem → TerminalPage → Type 0
Begun i s = (s.reenroll_item ≡ some i) × (s.reenroll_status ≢ idle)

-- An event that does not tick the acknowledgement.
abbrev NoTick : TerminalEvent → Type 0
NoTick (tick v) = v ≡ false
NoTick _ = Unit

-- A call that removes an account, with the acknowledgement that it carries.
abbrev pub Removes : Bool → TerminalCall → Type 0
Removes v (remove_terminal_account device user who acknowledge) = acknowledge ≡ v
Removes v _ = ⊥

module _ (t : Translations) (server : TerminalServer) (operator : String) where
  step-Begun :
      (i : InventoryItem) (s : TerminalPage) (e : TerminalEvent)
      → OfReenroll e
      → Begun i s
      → Begun i (terminal_step t server operator s e).page
  unfolding terminal_step handle_start_reenroll on_start_answer on_poll_answer
  step-Begun i s cancel_reenroll a h = ground arith
  step-Begun i s start_reenroll a h = ground arith
  step-Begun i s (start_answer id (ok r)) a h = h
  step-Begun i s (start_answer id (thrown e)) a h = cc
  step-Begun i s (poll n) a h = h
  step-Begun i s (poll_answer r) a h = ground arith
  step-Begun i s _ a h = absurd a

  -- Once a re-enrollment has begun, its dialog stays open: also when the terminal has confirmed it or
  -- has failed, its cancel button does nothing, and as long as the server accepts what is started, no
  -- click in it and no answer closes it.
  pub reenroll_stuck :
      (i : InventoryItem) (s : TerminalPage) (es : List TerminalEvent)
      → Begun i s
      → All OfReenroll es
      → Begun i (terminal_run t server operator s es)
  unfolding terminal_run
  reenroll_stuck i s [] h a = h
  reenroll_stuck i s (e ∷ es) h (first, rest) =
      reenroll_stuck i (terminal_step t server operator s e).page es (step-Begun i s e first h) rest

  step-unticked :
      (s : TerminalPage) (e : TerminalEvent)
      → NoTick e
      → s.acknowledge ≡ false
      → (terminal_step t server operator s e).page.acknowledge ≡ false
  unfolding terminal_step handle_remove_fingerprint handle_remove_account handle_start_reenroll
      on_start_answer on_poll_answer
  step-unticked s (tick v) n h = n
  step-unticked s (open_fingerprint i) n h = h
  step-unticked s (open_account i) n h = refl
  step-unticked s (open_reenroll i) n h = h
  step-unticked s cancel_fingerprint n h = h
  step-unticked s cancel_account n h = refl
  step-unticked s cancel_reenroll n h = ground arith
  step-unticked s remove_fingerprint n h = ground arith
  step-unticked s remove_account n h = ground arith
  step-unticked s start_reenroll n h = ground arith
  step-unticked s (start_answer id r) n h = ground arith
  step-unticked s (poll m) n h = h
  step-unticked s leave n h = h
  step-unticked s (poll_answer r) n h = ground arith

  run-unticked :
      (s : TerminalPage) (es : List TerminalEvent)
      → All NoTick es
      → s.acknowledge ≡ false
      → (terminal_run t server operator s es).acknowledge ≡ false
  unfolding terminal_run
  run-unticked s [] n h = h
  run-unticked s (e ∷ es) (first, rest) h =
      run-unticked (terminal_step t server operator s e).page es rest (step-unticked s e first h)

  -- Whatever was ticked for someone else, a dialog for the removal of an account opens unticked: unless
  -- the box is ticked after that, every removal that is sent carries no acknowledgement, so that the
  -- server's protection of active people holds.
  pub unticked_unacknowledged :
      (s : TerminalPage) (i : InventoryItem) (es : List TerminalEvent)
      → All NoTick es
      → All
          (Removes false)
          (terminal_step t server operator
            (terminal_run t server operator s (open_account i ∷ es))
            remove_account).calls
  unfolding terminal_step handle_remove_account terminal_run
  unticked_unacknowledged s i es n =
      ground
        (arith, run-unticked (terminal_step t server operator s (open_account i)).page es n refl)

  -- A removal that fails shows why and keeps its dialog open exactly if the person is protected as
  -- active; one that is accepted closes it, unticks the box, and loads the list again.
  pub handle_remove_account_lem :
      (s : TerminalPage) (i : InventoryItem)
      → s.acct_item ≡ some i
      → let out = (handle_remove_account t server operator s).page in
        ((absent : Bool) × (server.remove_account i.device_user_id operator s.acknowledge
            ≡ ok absent)
          × (out.acct_item ≡ none)
          × (out.acknowledge ≡ false)
          × (out.action_error ≡ none)
          × (out.reloads ≡ suc s.reloads))
        ⊎ ((e : JsError) × (server.remove_account i.device_user_id operator s.acknowledge
              ≡ thrown e)
            × (out.acct_item ≡ (if is_protection e then some i else none))
            × (out.action_error ≡ some (terminal_error t e))
            × (out.reloads ≡ s.reloads))
  unfolding handle_remove_account
  handle_remove_account_lem s i shown =
      elim (result_cases (server.remove_account i.device_user_id operator s.acknowledge)) [
        | inl (absent, e) ↦ inl (absent, e, ground arith, ground arith, ground arith, ground arith)
        | inr (err, e) ↦ inr (err, e, ground arith, ground arith, ground arith)
      ]

  -- Success messages outlive errors: a refused action shows its error beside the last success.
  stale_success :
      (s : TerminalPage) (i : InventoryItem) (e : JsError)
      → s.fp_item ≡ some i
      → server.remove_fingerprint i.device_user_id operator ≡ thrown e
      → ((handle_remove_fingerprint t server operator s).page.action_success ≡ s.action_success)
        × ((handle_remove_fingerprint t server operator s).page.action_error
            ≡ some (terminal_error t e))
  unfolding handle_remove_fingerprint
  stale_success s i e shown refused = ground arith
