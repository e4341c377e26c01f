-- ===== src/Enrollments/Workspace/Messages/Laws.antt =====
-- No text of the server reaches the operator of the workspace.
use adms_server.Common.{String, List, ◌∷◌, arith}
use adms_server.Common.Text.{◌+++◌}
use adms_server.Api.Request.{JsError, client_error, unauthorized, other}
use adms_server.I18n.Translations.{Translations}
use adms_server.I18n.ApiErrors.{friendly_api_error}
use adms_server.I18n.ApiErrors.Laws.{OneOf, error_texts}
use adms_server.Enrollments.Workspace.Messages.{Action, create_account, error_text}

-- The texts that an error of an action is told in.
abbrev action_texts : Translations → List String
action_texts t =
    t.enrollment.already_cancelled_body
    ∷ t.enrollment.scan_not_found_yet_body
    ∷ t.enrollment.enrollment_conflict_body
    ∷ error_texts t

-- The further texts that an error of the account's creation is told in.
abbrev pub create_texts : Translations → List String
create_texts t =
    (t.enrollment.terminal_conflict_title +++ ". " +++ t.enrollment.terminal_conflict_body)
    ∷ (t.enrollment.terminal_unconfirmed_title +++ ". " +++ t.enrollment.terminal_unconfirmed_body)
    ∷ t.enrollment.terminal_unconfirmed_body
    ∷ t.enrollment.terminal_in_progress_body
    ∷ (t.enrollment.terminal_unavailable_title +++ ". " +++ t.enrollment.terminal_unavailable_body)
    ∷ action_texts t

-- Whatever an action's call throws, the operator reads one of seventeen translated texts, never the
-- server's message.
pub error_text_closed :
    (t : Translations) (a : Action) (e : JsError) → OneOf (error_text t a e) (create_texts t)
unfolding error_text friendly_api_error
error_text_closed t (create_account n) (client_error s c m) = ground arith
error_text_closed t (create_account n) unauthorized = ground arith
error_text_closed t (create_account n) (other m) = ground arith
error_text_closed t _ (client_error s c m) = ground arith
error_text_closed t _ unauthorized = ground arith
error_text_closed t _ (other m) = ground arith
