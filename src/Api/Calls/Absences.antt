-- ===== src/Api/Calls/Absences.antt =====
-- The calls of api/client.ts about ranks, absences, holidays and the daily and monthly reports.
use adms_server.Common.{ℕ, String, Option, none, some, [], ◌∷◌, if◌then◌else◌, truthy, ◌==◌}
use adms_server.Common.Text.{of_ℕ, ◌+++◌}
use adms_server.Api.Json.{Json, str, object, nullable}
use adms_server.Api.Query.{Params, qs}
use adms_server.Api.Calls.Base.{Endpoint, Platform, get, send, send_json}

pub data AbsenceCall : Type 0 where
  ranks : AbsenceCall
  update_human_english_name : String → Option String → AbsenceCall
  absence_types : AbsenceCall
  absences : Params → AbsenceCall
  create_absence : Json → AbsenceCall
  cancel_absence : ℕ → String → AbsenceCall
  holidays : Option ℕ → AbsenceCall
  set_holiday : String → String → AbsenceCall
  delete_holiday : String → AbsenceCall
  daily_roster : Option String → AbsenceCall
  monthly_report : String → AbsenceCall

-- `year ? `?year=${year}` : ""`
abbrev year_query : Option ℕ → String
year_query none = ""
year_query (some year) = if year == 0 then "" else "?year=" +++ of_ℕ year

-- `day ? `?date=${day}` : ""`
abbrev date_query : Option String → String
date_query none = ""
date_query (some day) = if truthy day then "?date=" +++ day else ""

unfoldable pub absence_endpoint : Platform → AbsenceCall → Endpoint
absence_endpoint p ranks = get "/api/v1/reference/ranks"
absence_endpoint p (update_human_english_name employee_id english_name) =
    send_json "PATCH" ("/api/v1/humans/" +++ employee_id)
      (object (("english_name", some (nullable english_name)) ∷ []))
absence_endpoint p absence_types = get "/api/v1/absence-types"
absence_endpoint p (absences params) = get ("/api/v1/absences" +++ qs p.encode params)
absence_endpoint p (create_absence payload) = send_json "POST" "/api/v1/absences" payload
absence_endpoint p (cancel_absence absence_id reason) =
    send_json "POST" ("/api/v1/absences/" +++ of_ℕ absence_id +++ "/cancel")
      (object (("reason", some (str reason)) ∷ []))
absence_endpoint p (holidays year) = get ("/api/v1/holidays" +++ year_query year)
absence_endpoint p (set_holiday holiday_date name_th) =
    send_json "POST" "/api/v1/holidays"
      (object (("holiday_date", some (str holiday_date)) ∷ ("name_th", some (str name_th)) ∷ []))
absence_endpoint p (delete_holiday holiday_date) =
    send "DELETE" ("/api/v1/holidays/" +++ holiday_date)
absence_endpoint p (daily_roster day) = get ("/api/v1/attendance/daily" +++ date_query day)
absence_endpoint p (monthly_report month) = get ("/api/v1/attendance/monthly?month=" +++ month)
