-- ===== src/Terminal/Tests.antt =====
-- The terminal's page with one account, on a server that protects active people.
use adms_server.Common.{refl, false, some, [], ◌∷◌, if◌then◌else◌, All}
use adms_server.Api.Json.{str}
use adms_server.Api.Request.{client_error, ok, thrown}
use adms_server.I18n.English.{en}
use adms_server.Terminal.{
  InventoryItem, confirmed, TerminalPage, TerminalServer, open_account, cancel_reenroll, tick,
  remove_account, start_reenroll, terminal_start, terminal_step, terminal_run,
}
use adms_server.Terminal.Dialogs.{Begun, Removes, reenroll_stuck, unticked_unacknowledged}

abbrev item : InventoryItem
item = record { device_user_id = "7"; fingerprint_count = some 1 }

abbrev server : TerminalServer
server = record {
  remove_fingerprint = λ user who. ok false;
  remove_account = λ user who acknowledge.
      if acknowledge
      then ok false
      else thrown (client_error 409 (str "ACTIVE_HUMAN_PROTECTION") "active");
}

abbrev ended : TerminalPage
ended = record terminal_start { reenroll_item = some item; reenroll_status = confirmed }

reenroll_stuck_example :
    Begun item (terminal_run en server "ann" ended (cancel_reenroll ∷ start_reenroll ∷ []))
reenroll_stuck_example =
    reenroll_stuck en server "ann" item ended (cancel_reenroll ∷ start_reenroll ∷ [])
      (refl, λ e. cc) (tt, (tt, tt))

unticked_unacknowledged_example :
    All
      (Removes false)
      (terminal_step en server "ann"
        (terminal_run en server "ann" ended (open_account item ∷ remove_account ∷ tick false ∷ []))
        remove_account).calls
unticked_unacknowledged_example =
    unticked_unacknowledged en server "ann" ended item (remove_account ∷ tick false ∷ [])
      (tt, (refl, tt))
