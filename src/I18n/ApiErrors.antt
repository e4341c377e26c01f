-- ===== src/I18n/ApiErrors.antt =====
-- i18n/apiErrors.ts: what an operator is told of an error.
pub mod Laws
use adms_server.Common.{String, Bool, List, if◌then◌else◌, any, ◌||◌}
use adms_server.Api.Json.{Json, is_text}
use adms_server.Api.Request.{JsError, client_error, unauthorized, other}
use adms_server.I18n.Translations.{Translations}

-- Whether an error code is one of some texts.
abbrev is_one_of : Json → List String → Bool
is_one_of code names = any (is_text code) names

-- The `switch` over the code; `JsError` stands for `unknown`, of which only `ApiClientError` is
-- looked into.
unfoldable pub friendly_api_error : JsError → Translations → String
friendly_api_error (client_error status code message) t =
    if is_text code "WRITE_DISABLED" || is_text code "WRITE_SESSION_REQUIRED"
    then t.enrollment.write_session_locked_body
    else if is_text code "WRITE_SESSION_EXPIRED"
    then t.enrollment.write_session_expired_mid_workflow
    else if is_text code "VALIDATION_ERROR"
    then t.common.validation_error
    else if is_text code "NOT_FOUND"
    then t.common.not_found
    else if is_text code "RATE_LIMITED"
    then t.common.rate_limited
    else if is_text code "UNAUTHORIZED"
    then t.common.unauthorized
    else if is_text code "FORBIDDEN"
    then t.common.forbidden
    else if is_text code "INTERNAL_ERROR"
    then t.common.internal_error
    else t.common.generic_error_prefix
friendly_api_error unauthorized t = t.common.internal_error
friendly_api_error (other message) t = t.common.internal_error
