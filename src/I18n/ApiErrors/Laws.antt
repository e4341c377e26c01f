-- ===== src/I18n/ApiErrors/Laws.antt =====
-- No text of the server reaches the operator.
use adms_server.Common.{ℕ, String, Option, List, [], ◌∷◌, ◌≡◌, refl, ◌⊎◌, arith}
use adms_server.Api.Json.{Json}
use adms_server.Api.Request.{
  JsError, client_error, unauthorized, other, thrown, Fetch, RequestInit, Response, done, request,
}
use adms_server.Api.Request.Laws.{sent, request-unauthorized_iff}
use adms_server.I18n.Translations.{Translations}
use adms_server.I18n.ApiErrors.{friendly_api_error}

-- A text is one of some texts.
abbrev pub OneOf : String → List String → Type 0
OneOf s [] = ⊥
OneOf s (x ∷ xs) = (s ≡ x) ⊎ OneOf s xs

-- The texts for errors that are shown.
abbrev pub error_texts : Translations → List String
error_texts t =
    t.enrollment.write_session_locked_body ∷ t.enrollment.write_session_expired_mid_workflow
    ∷ t.common.validation_error ∷ t.common.not_found ∷ t.common.rate_limited ∷ t.common.unauthorized
    ∷ t.common.forbidden ∷ t.common.internal_error ∷ t.common.generic_error_prefix ∷ []

-- An error is told in one of nine translated texts, chosen by its code alone: neither the server's
-- message nor the status has any part in it.
friendly_api_error_closed :
    (t : Translations)
    → ((e : JsError) → OneOf (friendly_api_error e t) (error_texts t))
      × ((status status' : ℕ) (code : Json) (message message' : String)
          → friendly_api_error (client_error status code message) t
            ≡ friendly_api_error (client_error status' code message') t)
unfolding friendly_api_error
friendly_api_error_closed t = (
  elim [ client_error s c m ↦ ground arith | unauthorized ↦ ground arith | other m ↦ ground arith ],
  λ s s' c m m'. refl,
)

-- Where a server answers 401, `request` throws an error that the operator is told as a failure of the
-- system, not as a missing login.
expired_session_told :
    (t : Translations) (base : String) (fetch : Fetch) (path : String) (init : Option RequestInit)
    (token : Option String) (res : Response)
    → fetch (sent base path init token) ≡ done res
    → res.status ≡ 401
    → (e : JsError) × ((request base fetch path init token).1 ≡ thrown e)
      × (friendly_api_error e t ≡ t.common.internal_error)
unfolding friendly_api_error
expired_session_told t base fetch path init token res answered expired = (
  unauthorized,
  (request-unauthorized_iff base fetch path init token).0.1 (res, answered, expired),
  refl,
)
