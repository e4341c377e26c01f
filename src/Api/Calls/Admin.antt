-- ===== src/Api/Calls/Admin.antt =====
-- The calls of api/client.ts about terminal management, operators, the audit trail, the write
-- session and its schedule.
use adms_server.Common.{ℕ, String, Bool, Option, none, some, [], ◌∷◌}
use adms_server.Common.Text.{of_ℕ, ◌+++◌}
use adms_server.Api.Json.{Json, null, bool, num, str, object}
use adms_server.Api.Query.{Params, qs}
use adms_server.Api.Calls.Base.{Endpoint, Platform, get, send, send_json}

pub data TerminalCall : Type 0 where
  terminal_inventory : TerminalCall
  remove_terminal_fingerprint : ℕ → String → String → Option ℕ → TerminalCall
  remove_terminal_account : ℕ → String → String → Bool → TerminalCall
  start_fingerprint_reenroll : String → String → TerminalCall
  fingerprint_reenroll_status : String → TerminalCall

-- `fingerId ?? null`
abbrev nullable_number : Option ℕ → Json
nullable_number none = null
nullable_number (some n) = num n

unfoldable pub terminal_endpoint : Platform → TerminalCall → Endpoint
terminal_endpoint p terminal_inventory = get "/api/v1/terminal-management/inventory"
terminal_endpoint p (remove_terminal_fingerprint device_id device_user_id operator finger_id) =
    send_json "POST" "/api/v1/terminal-management/fingerprint/remove" (
      object (
        ("device_id", some (num device_id))
        ∷ ("device_user_id", some (str device_user_id))
        ∷ ("operator", some (str operator))
        ∷ ("finger_id", some (nullable_number finger_id))
        ∷ []))
terminal_endpoint p (remove_terminal_account device_id device_user_id operator acknowledge) =
    send_json "POST" "/api/v1/terminal-management/account/remove" (
      object (
        ("device_id", some (num device_id))
        ∷ ("device_user_id", some (str device_user_id))
        ∷ ("operator", some (str operator))
        ∷ ("acknowledge_active_human", some (bool acknowledge))
        ∷ []))
terminal_endpoint p (start_fingerprint_reenroll device_user_id operator) =
    send_json "POST" "/api/v1/terminal-management/fingerprint/reenroll" (
      object
        (("device_user_id", some (str device_user_id)) ∷ ("operator", some (str operator)) ∷ []))
terminal_endpoint p (fingerprint_reenroll_status device_user_id) = get (
    "/api/v1/terminal-management/fingerprint/reenroll-status?device_user_id="
    +++ p.encode_uri_component device_user_id)

pub data AdminCall : Type 0 where
  list_operators : AdminCall
  create_operator : Json → AdminCall
  toggle_operator_active : ℕ → Bool → AdminCall
  audit_events : Params → AdminCall
  audit_event_types write_session_status : AdminCall
  open_write_session : String → AdminCall
  close_write_session get_schedule_settings : AdminCall
  update_schedule_settings : Bool → AdminCall

unfoldable pub admin_endpoint : Platform → AdminCall → Endpoint
admin_endpoint p list_operators = get "/api/v1/operators"
admin_endpoint p (create_operator payload) = send_json "POST" "/api/v1/operators" payload
admin_endpoint p (toggle_operator_active operator_id active) =
    send_json "POST" ("/api/v1/operators/" +++ of_ℕ operator_id +++ "/toggle-active")
      (object (("active", some (bool active)) ∷ []))
admin_endpoint p (audit_events params) = get ("/api/v1/audit/events" +++ qs p.encode params)
admin_endpoint p audit_event_types = get "/api/v1/audit/event-types"
admin_endpoint p write_session_status = get "/api/v1/write-session"
admin_endpoint p (open_write_session reason) =
    send_json "POST" "/api/v1/write-session/open" (object (("reason", some (str reason)) ∷ []))
admin_endpoint p close_write_session = send "POST" "/api/v1/write-session/close"
admin_endpoint p get_schedule_settings = get "/api/v1/admin/schedule-settings"
admin_endpoint p (update_schedule_settings enabled) =
    send_json "POST" "/api/v1/admin/schedule-settings"
      (object (("enabled", some (bool enabled)) ∷ []))
