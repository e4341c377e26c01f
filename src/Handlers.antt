-- ===== src/Handlers.antt =====
-- What the handlers of the pages share: the message that a card shows, what a handler does, and
-- `writeError` of components/PersonnelLifecycle.tsx, which other components write out in place.
use adms_server.Common.{ℕ, String, Bool, List, [], ◌||◌, if◌then◌else◌}
use adms_server.Api.Json.{Json, is_text}
use adms_server.Api.Request.{JsError, client_error, unauthorized, other}
use adms_server.I18n.Translations.{Translations}
use adms_server.I18n.ApiErrors.{friendly_api_error}

-- `{ ok, text }`
pub record Message : Type 0 where
  pub is_ok : Bool
  pub words : String

-- A handler up to the end of its promise: the component after it, the calls it made in order, how
-- often it reloads the component's own data, and how often it calls what the parent passed to it.
pub record Ran (S C : Type 0) : Type 0 where
  pub state : S
  pub calls : List C
  pub reloads : ℕ
  pub told : ℕ

-- No call, and nobody is told.
abbrev pub only : {S C : Type 0} → S → Ran S C
only s = record { state = s; calls = []; reloads = 0; told = 0 }

-- The codes for an edit that is locked.
abbrev is_locked : Json → Bool
is_locked code =
    is_text code "WRITE_DISABLED"
    || is_text code "WRITE_SESSION_REQUIRED"
    || is_text code "WRITE_SESSION_EXPIRED"

unfoldable pub write_error : JsError → Translations → String
write_error (client_error status code message) t =
    if is_locked code
    then t.personnel.writes_disabled_notice
    else friendly_api_error (client_error status code message) t
write_error unauthorized t = friendly_api_error unauthorized t
write_error (other message) t = friendly_api_error (other message) t
