-- ===== src/Api/Calls/Login.antt =====
-- The calls of api/client.ts about logins, the system's health, and the list of people.
use adms_server.Common.{String, false, some, [], ◌∷◌}
use adms_server.Common.Text.{◌+++◌}
use adms_server.Api.Json.{Json, str, object}
use adms_server.Api.Query.{Params, qs}
use adms_server.Api.Calls.Base.{Endpoint, Platform, get, send, json_init, send_json}

pub data LoginCall : Type 0 where
  login : String → String → LoginCall
  logout me : LoginCall
  change_password : String → String → LoginCall
  healthz health dashboard : LoginCall

unfoldable pub login_endpoint : LoginCall → Endpoint
login_endpoint (login username password) = record {
  authenticated = false;
  path = "/api/v1/auth/login";
  init = some (
      json_init "POST"
        (object (("username", some (str username)) ∷ ("password", some (str password)) ∷ [])));
}
login_endpoint logout = send "POST" "/api/v1/auth/logout"
login_endpoint me = get "/api/v1/auth/me"
login_endpoint (change_password current_password new_password) =
    send_json "POST" "/api/v1/auth/change-password" (
      object (
        ("current_password", some (str current_password))
        ∷ ("new_password", some (str new_password))
        ∷ []))
login_endpoint healthz = get "/healthz"
login_endpoint health = get "/api/v1/health"
login_endpoint dashboard = get "/api/v1/dashboard/summary"

pub data HumanCall : Type 0 where
  humans : Params → HumanCall
  human : String → HumanCall
  create_human : Json → HumanCall
  update_human : String → Json → HumanCall

unfoldable pub human_endpoint : Platform → HumanCall → Endpoint
human_endpoint p (humans params) = get ("/api/v1/humans" +++ qs p.encode params)
human_endpoint p (human employee_id) = get ("/api/v1/humans/" +++ employee_id)
human_endpoint p (create_human payload) = send_json "POST" "/api/v1/humans" payload
human_endpoint p (update_human employee_id payload) =
    send_json "PATCH" ("/api/v1/humans/" +++ employee_id) payload
