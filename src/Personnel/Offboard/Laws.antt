-- ===== src/Personnel/Offboard/Laws.antt =====
-- The order of the two steps of leaving, and what is reported of them.
use adms_server.Common.{
  ℕ, String, true, false, none, some, List, [], ◌∷◌, ◌≡◌, ◌≢◌, refl, ◌⊎◌, inl, inr, arith, truthy,
}
use adms_server.Common.Text.{trim}
use adms_server.Api.Json.{Json}
use adms_server.Api.Request.{JsError, ok, thrown}
use adms_server.Api.Calls.Roster.{RosterCall, deactivate_human, remove_from_scanner}
use adms_server.I18n.Translations.{Translations}
use adms_server.Handlers.{Ran, write_error}
use adms_server.Personnel.Roster.{RosterServer}
use adms_server.Personnel.Offboard.{
  OffboardPanel, account_list, none_failed, removal_message, remove_accounts, handle_offboard,
}

-- The reason is blank: nothing is called, and the field is marked.
abbrev pub NoReason : Ran OffboardPanel RosterCall → OffboardPanel → Type 0
NoReason out s =
    (truthy (trim s.reason) ≡ false)
    × (out.calls ≡ [])
    × (out.told ≡ 0)
    × (out.state.reason_error ≡ true)
    × (out.state.result ≡ s.result)

-- There is a reason, and the person is not closed: the scanner is not touched, and the reason is kept.
abbrev pub NotClosed :
    Ran OffboardPanel RosterCall → OffboardPanel → Translations → String → JsError → Type 0
NotClosed out s t id e =
    (truthy (trim s.reason) ≡ true)
    × (out.calls ≡ deactivate_human id (trim s.reason) ∷ [])
    × (out.told ≡ 0)
    × (out.state.reason ≡ s.reason)
    × (out.state.result ≡ some (record { is_ok = false; words = write_error e t }))

-- There is a reason, and the person is closed: the scanner is called after that if accounts are listed, and the success is
-- reported exactly if none are listed or the call failed for none.
abbrev pub Closed :
    Ran OffboardPanel RosterCall → OffboardPanel → Translations → String → RosterServer → Type 0
Closed out s t id server =
    (truthy (trim s.reason) ≡ true)
    × (out.told ≡ 1)
    × (out.state.reason ≡ "")
    × (((account_list s ≡ [])
          × (out.calls ≡ deactivate_human id (trim s.reason) ∷ [])
          × (out.state.result ≡ some (removal_message t true)))
        ⊎ ((account_list s ≢ [])
            × (out.calls ≡ deactivate_human id (trim s.reason) ∷ remove_from_scanner id ∷ [])
            × (out.state.result
                ≡ some (removal_message t (none_failed (server.remove_from_scanner id))))))

remove_accounts_cases :
    (server : RosterServer) (id : String) (s : OffboardPanel)
    → ((account_list s ≡ []) × (remove_accounts server id s ≡ (true, [])))
      ⊎ ((account_list s ≢ [])
          × (remove_accounts server id s
              ≡ (none_failed (server.remove_from_scanner id), remove_from_scanner id ∷ [])))
unfolding remove_accounts
remove_accounts_cases server id s = go (account_list s) refl
  where
    go :
        (xs : List (ℕ × String))
        → account_list s ≡ xs
        → ((account_list s ≡ []) × (remove_accounts server id s ≡ (true, [])))
          ⊎ ((account_list s ≢ [])
              × (remove_accounts server id s
                  ≡ (none_failed (server.remove_from_scanner id), remove_from_scanner id ∷ [])))
    go [] e = inl (e, rw (e, remove_accounts) refl)
    go (x ∷ xs) e = inr (λ f. cc, rw (e, remove_accounts) refl)

-- Leaving the unit wants a reason: a blank one calls nothing and is marked. Otherwise the person is closed first, with the trimmed reason, and only if
-- the server accepted that are the accounts removed from the scanner, when there are any on the list
-- that is loaded; the parent is told exactly then, and the success of both steps is reported exactly if
-- no listed account is left. A refusal keeps the reason and leaves the scanner alone.
pub handle_offboard_lem :
    (t : Translations) (server : RosterServer) (id : String) (s : OffboardPanel)
    → NoReason (handle_offboard t server id s) s
      ⊎ ((e : JsError) × (server.deactivate_human id (trim s.reason) ≡ thrown e)
          × NotClosed (handle_offboard t server id s) s t id e)
      ⊎ ((r : Json) × (server.deactivate_human id (trim s.reason) ≡ ok r)
          × Closed (handle_offboard t server id s) s t id server)
unfolding handle_offboard
handle_offboard_lem t server id s = ground (arith, remove_accounts_cases server id s)

-- If the list of accounts is not loaded, or could not be loaded, an accepted leave is reported as done
-- on the scanner too, though the scanner was not called, whatever accounts it holds.
pub offboard_unloaded :
    (t : Translations) (server : RosterServer) (id : String) (s : OffboardPanel) (r : Json)
    → truthy (trim s.reason) ≡ true
    → s.accounts ≡ none
    → server.deactivate_human id (trim s.reason) ≡ ok r
    → ((handle_offboard t server id s).state.result
        ≡ some (record { is_ok = true; words = t.workflow.offboard_done }))
      × ((handle_offboard t server id s).calls ≡ deactivate_human id (trim s.reason) ∷ [])
unfolding handle_offboard remove_accounts
offboard_unloaded t server id s r said unloaded closed = ground arith
