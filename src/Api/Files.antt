-- ===== src/Api/Files.antt =====
-- The calls of api/client.ts that download a file or upload one. They use `fetch` themselves: they
-- send the token, and unlike `request` they keep it when the server answers 401.
pub mod Laws
use adms_server.Common.{
  ℕ, String, Bool, true, false, Option, none, some, List, [], ◌∷◌, if◌then◌else◌,
}
use adms_server.Common.Text.{of_ℕ, ◌+++◌}
use adms_server.Api.Json.{Json, null, str, member, member?, coalesce}
use adms_server.Api.Request.{
  JsError, client_error, other, Result, ok, thrown, Outcome, done, failed, Response, authorize,
  is_ok, message_text,
}

-- The form that an upload sends: one file, by its name and bytes.
pub record File : Type 0 where
  pub name : String
  pub bytes : List ℕ

pub record FileRequest : Type 0 where
  pub url : String
  pub method : Option String
  pub headers : List (String × String)
  pub form : Option File

abbrev FileFetch : Type 0
FileFetch = FileRequest → Outcome Response

pub data Download : Type 0 where
  export_humans_csv : Option Bool → Download
  import_template_csv absence_template : Download
  monthly_report_csv : String → Download

abbrev active_query : Option Bool → String
active_query none = ""
active_query (some true) = "?active=true"
active_query (some false) = "?active=false"

unfoldable pub download_path : Download → String
download_path (export_humans_csv active) = "/api/v1/humans/export.csv" +++ active_query active
download_path import_template_csv = "/api/v1/humans/import/template.csv"
download_path absence_template = "/api/v1/absences/import-template"
download_path (monthly_report_csv month) = "/api/v1/attendance/monthly.csv?month=" +++ month

abbrev blob_of : Outcome (List ℕ) → Result (List ℕ)
blob_of (done bytes) = ok bytes
blob_of (failed m) = thrown (other m)

abbrev receive : Outcome Response → Result (List ℕ)
receive (done res) =
    if is_ok res
    then blob_of res.blob
    else thrown (client_error res.status (str ("HTTP_" +++ of_ℕ res.status)) res.status_text)
receive (failed m) = thrown (other m)

-- Every download: the URL, the token and the error are made in the same way.
unfoldable pub download : String → FileFetch → Download → Option String → Result (List ℕ)
download base fetch d token = receive (
    fetch (record {
      url = base +++ download_path d;
      method = none;
      headers = authorize token [];
      form = none;
    }))

pub data Upload : Type 0 where
  preview_humans_import commit_humans_import : Upload
  absence_import : Bool → Upload

unfoldable pub upload_path : Upload → String
upload_path preview_humans_import = "/api/v1/humans/import/preview"
upload_path commit_humans_import = "/api/v1/humans/import/commit"
upload_path (absence_import true) = "/api/v1/absences/import/commit"
upload_path (absence_import false) = "/api/v1/absences/import/preview"

-- `await res.json().catch(() => null)`
abbrev pub or_null : Outcome Json → Json
or_null (done v) = v
or_null (failed m) = null

-- The error of an upload: `??` keeps an empty code, where `request` takes the default.
unfoldable pub upload_error : Response → JsError
upload_error res =
    let body = or_null res.json in
    client_error res.status
      (coalesce (member? "code" (member "error" body)) (str ("HTTP_" +++ of_ℕ res.status)))
      (message_text
        (some (coalesce (member? "message" (member "error" body)) (str res.status_text))))

abbrev json_of : Outcome Json → Result Json
json_of (done v) = ok v
json_of (failed m) = thrown (other m)

abbrev pub confirm : Outcome Response → Result Json
unfolding upload_error
confirm (done res) = if is_ok res then json_of res.json else thrown (upload_error res)
confirm (failed m) = thrown (other m)

unfoldable pub upload : String → FileFetch → Upload → File → Option String → Result Json
unfolding upload_error
upload base fetch u file token = confirm (
    fetch (record {
      url = base +++ upload_path u;
      method = some "POST";
      headers = authorize token (("Accept", "application/json") ∷ []);
      form = some file;
    }))
