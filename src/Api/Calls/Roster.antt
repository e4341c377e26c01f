-- ===== src/Api/Calls/Roster.antt =====
-- The calls of api/client.ts about the roster, terminal names, readiness and the Telegram report.
use adms_server.Common.{String, Bool, List, Option, some, [], ◌∷◌}
use adms_server.Common.Text.{◌+++◌}
use adms_server.Api.Json.{bool, str, arr, text_items, object, nullable}
use adms_server.Api.Calls.Base.{Endpoint, get, send, send_json}

pub data RosterCall : Type 0 where
  sync_terminal_name : String → RosterCall
  terminal_name_mismatches sync_all_terminal_names human_branches : RosterCall
  set_departments : List String → RosterCall
  bulk_scan_exempt : List String → Bool → Option String → RosterCall
  readiness tracking : RosterCall
  set_tracking : String → Option String → RosterCall
  telegram_preview telegram_send humans_summary : RosterCall
  human_terminal_accounts : String → RosterCall
  set_scan_exempt : String → Bool → Option String → RosterCall
  remove_from_scanner : String → RosterCall
  deactivate_human : String → String → RosterCall
  reactivate_human : String → Option String → RosterCall

abbrev human_path : String → String → String
human_path employee_id action = "/api/v1/humans/" +++ employee_id +++ action

unfoldable pub roster_endpoint : RosterCall → Endpoint
roster_endpoint (sync_terminal_name employee_id) =
    send "POST" (human_path employee_id "/sync-terminal-name")
roster_endpoint terminal_name_mismatches = get "/api/v1/humans/terminal-name-mismatches"
roster_endpoint sync_all_terminal_names = send "POST" "/api/v1/humans/sync-terminal-names"
roster_endpoint human_branches = get "/api/v1/humans/branches"
roster_endpoint (set_departments names) =
    send_json "PUT" "/api/v1/humans/branches"
      (object (("names", some (arr (text_items names))) ∷ []))
roster_endpoint (bulk_scan_exempt employee_ids scan_exempt reason) =
    send_json "POST" "/api/v1/humans/scan-exempt" (
      object (
        ("employee_ids", some (arr (text_items employee_ids)))
        ∷ ("scan_exempt", some (bool scan_exempt))
        ∷ ("scan_exempt_reason", some (nullable reason))
        ∷ []))
roster_endpoint readiness = get "/api/v1/attendance/readiness"
roster_endpoint tracking = get "/api/v1/attendance/tracking"
roster_endpoint (set_tracking mode counting_from) =
    send_json "POST" "/api/v1/attendance/tracking"
      (object (("mode", some (str mode)) ∷ ("counting_from", some (nullable counting_from)) ∷ []))
roster_endpoint telegram_preview = get "/api/v1/reports/telegram/preview"
roster_endpoint telegram_send = send "POST" "/api/v1/reports/telegram/send"
roster_endpoint humans_summary = get "/api/v1/humans/summary"
roster_endpoint (human_terminal_accounts employee_id) =
    get (human_path employee_id "/terminal-accounts")
roster_endpoint (set_scan_exempt employee_id scan_exempt reason) =
    send_json "PATCH" ("/api/v1/humans/" +++ employee_id) (
      object (
        ("scan_exempt", some (bool scan_exempt))
        ∷ ("scan_exempt_reason", some (nullable reason))
        ∷ []))
roster_endpoint (remove_from_scanner employee_id) =
    send "POST" (human_path employee_id "/remove-from-scanner")
roster_endpoint (deactivate_human employee_id reason) =
    send_json "POST" (human_path employee_id "/deactivate")
      (object (("reason", some (str reason)) ∷ []))
roster_endpoint (reactivate_human employee_id reason) =
    send_json "POST" (human_path employee_id "/reactivate")
      (object (("reason", some (nullable reason)) ∷ []))
