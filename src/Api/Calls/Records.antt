-- ===== src/Api/Calls/Records.antt =====
-- The calls of api/client.ts about devices, their users, attendance and mappings.
use adms_server.Common.{ℕ}
use adms_server.Common.Text.{of_ℕ, ◌+++◌}
use adms_server.Api.Json.{Json}
use adms_server.Api.Query.{Params, qs}
use adms_server.Api.Calls.Base.{Endpoint, Platform, get, send_json}

pub data RecordCall : Type 0 where
  devices : RecordCall
  device : ℕ → RecordCall
  device_users : Params → RecordCall
  device_user : ℕ → RecordCall
  attendance : Params → RecordCall
  attendance_detail : ℕ → RecordCall
  mappings : Params → RecordCall
  mapping : ℕ → RecordCall
  mapping_eligibility : RecordCall
  create_mapping : Json → RecordCall
  unattributed_attendance : Params → RecordCall

unfoldable pub record_endpoint : Platform → RecordCall → Endpoint
record_endpoint p devices = get "/api/v1/devices"
record_endpoint p (device device_id) = get ("/api/v1/devices/" +++ of_ℕ device_id)
record_endpoint p (device_users params) = get ("/api/v1/device-users" +++ qs p.encode params)
record_endpoint p (device_user pk) = get ("/api/v1/device-users/" +++ of_ℕ pk)
record_endpoint p (attendance params) = get ("/api/v1/attendance" +++ qs p.encode params)
record_endpoint p (attendance_detail id) = get ("/api/v1/attendance/" +++ of_ℕ id)
record_endpoint p (mappings params) = get ("/api/v1/mappings" +++ qs p.encode params)
record_endpoint p (mapping id) = get ("/api/v1/mappings/" +++ of_ℕ id)
record_endpoint p mapping_eligibility = get "/api/v1/mappings/eligibility"
record_endpoint p (create_mapping payload) = send_json "POST" "/api/v1/mappings" payload
record_endpoint p (unattributed_attendance params) =
    get ("/api/v1/attendance/unattributed" +++ qs p.encode params)
