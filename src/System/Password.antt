-- ===== src/System/Password.antt =====
-- `ChangePasswordForm` of pages/System.tsx.
use adms_server.Common.{
  ℕ, ◌≤◌, String, ◌≡◌, refl, sym, ◌∙◌, ◌≢◌, ◌⊎◌, inl, inr, Bool, true, false, not, Option, none,
  some, [], ◌∷◌, arith, str_eq, eq_iff, ltb, if◌then◌else◌, Option-cases, truthy,
}
use adms_server.Common.Text.{length as text_length, replace, of_ℕ, ◌+++◌}
use adms_server.Api.Json.{is_text, str}
use adms_server.Api.Request.{
  JsError, client_error, unauthorized, other, Result, ok, thrown, result_cases,
}
use adms_server.Api.Calls.Login.{LoginCall, change_password}
use adms_server.I18n.Translations.{Translations}
use adms_server.I18n.ApiErrors.{friendly_api_error}
use adms_server.I18n.Locale.{Locale}
use adms_server.I18n.Language.{translations_map}
use adms_server.Handlers.{Message, Ran, only}

pub record PasswordForm : Type 0 where
  pub current : String
  pub next : String
  pub busy : Bool
  pub msg : Option Message

-- `t.workflow.pwTooShort` with the length of the new password
abbrev too_short : Translations → String → String
too_short t next = replace t.workflow.pw_too_short "{n}" (of_ℕ (text_length next))

-- `problem`
unfoldable pub password_problem : Translations → PasswordForm → Option String
password_problem t s =
    if not (truthy s.current)
    then some t.workflow.pw_current_missing
    else if ltb (text_length s.next) 12
    then some (too_short t s.next)
    else if ltb 256 (text_length s.next)
    then some t.workflow.pw_too_long
    else if str_eq s.next s.current
    then some t.workflow.pw_same
    else none

unfoldable pub password_error : Translations → String → JsError → String
password_error t next (client_error status code message) =
    if is_text code "CURRENT_PASSWORD_INCORRECT"
    then t.workflow.pw_current_wrong
    else if is_text code "NEW_PASSWORD_SAME"
    then t.workflow.pw_same
    else if is_text code "VALIDATION_ERROR"
    then too_short t next
    else if is_text code "SESSION"
    then t.workflow.pw_session_expired
    else friendly_api_error (client_error status code message) t
password_error t next unauthorized = t.workflow.pw_session_expired
password_error t next (other message) = friendly_api_error (other message) t

abbrev password_changed : Translations → ℕ → String
password_changed t revoked =
    t.system.password_changed_success +++ " (" +++ of_ℕ revoked +++ " other session(s) revoked)"

abbrev answered_password : Translations → PasswordForm → Result ℕ → Ran PasswordForm LoginCall
answered_password t s (ok revoked) = record {
  state = record {
    current = "";
    next = "";
    busy = false;
    msg = some (record { is_ok = true; words = password_changed t revoked });
  };
  calls = change_password s.current s.next ∷ [];
  reloads = 0;
  told = 0;
}
answered_password t s (thrown e) = record {
  state = record s {
    busy = false;
    msg = some (record { is_ok = false; words = password_error t s.next e });
  };
  calls = change_password s.current s.next ∷ [];
  reloads = 0;
  told = 0;
}

-- `submit`. A problem is a text, and an empty one would count as none; `serve` answers how many other
-- sessions were ended.
unfoldable pub submit_password :
    Translations → (LoginCall → Result ℕ) → PasswordForm → Ran PasswordForm LoginCall
unfolding password_problem password_error
submit_password t serve s = elim (password_problem t s) [
  | none ↦ answered_password t s (serve (change_password s.current s.next))
  | some problem ↦
      if truthy problem
      then only (record s { msg = some (record { is_ok = false; words = problem }) })
      else answered_password t s (serve (change_password s.current s.next))
]

-- A form that the four rules leave.
abbrev pub IsSound : PasswordForm → Type 0
IsSound s =
    (truthy s.current ≡ true)
    × (12 ≤ text_length s.next)
    × (text_length s.next ≤ 256)
    × (s.next ≢ s.current)

password_problem_cases :
    (t : Translations) (s : PasswordForm)
    → ((password_problem t s ≡ none) → IsSound s) × (IsSound s → password_problem t s ≡ none)
unfolding password_problem
password_problem_cases t s =
    (λ h. ground (arith, eq_iff s.next s.current), λ h. ground (arith, eq_iff s.next s.current))

problem_among :
    (t : Translations) (s : PasswordForm) (m : String)
    → password_problem t s ≡ some m
    → (t.workflow.pw_current_missing ≡ m)
      ⊎ (too_short t s.next ≡ m)
      ⊎ (t.workflow.pw_too_long ≡ m)
      ⊎ (t.workflow.pw_same ≡ m)
unfolding password_problem
problem_among t s m h = ground arith

too_short-truthy :
    (l : Locale) (next : String) → truthy (too_short (translations_map l) next) ≡ true
unfolding replace
too_short-truthy Locale.th next = refl
too_short-truthy Locale.en next = refl

texts_truthy :
    (l : Locale)
    → (truthy (translations_map l).workflow.pw_current_missing ≡ true)
      × (truthy (translations_map l).workflow.pw_too_long ≡ true)
      × (truthy (translations_map l).workflow.pw_same ≡ true)
texts_truthy Locale.th = (refl, refl, refl)
texts_truthy Locale.en = (refl, refl, refl)

problem_truthy :
    (l : Locale) (s : PasswordForm) (m : String)
    → password_problem (translations_map l) s ≡ some m
    → truthy m ≡ true
problem_truthy l s m h = elim (problem_among (translations_map l) s m h) [
  | inl e ↦ rw (← e) (texts_truthy l).0
  | inr (inl e) ↦ rw (← e) (too_short-truthy l s.next)
  | inr (inr (inl e)) ↦ rw (← e) (texts_truthy l).1
  | inr (inr (inr e)) ↦ rw (← e) (texts_truthy l).2
]

-- In both languages a password is sent exactly if the current one is given and the new one has from 12
-- to 256 code units and differs from it; otherwise nothing is sent, both fields are kept, and a text with the error
-- is shown. A refusal keeps both fields too, and an accepted change empties them.
pub submit_password_lem :
    (l : Locale) (serve : LoginCall → Result ℕ) (s : PasswordForm)
    → let out = submit_password (translations_map l) serve s in
      (IsSound s
        × (out.calls ≡ change_password s.current s.next ∷ [])
        × (((n : ℕ) × (serve (change_password s.current s.next) ≡ ok n)
              × (out.state.current ≡ "")
              × (out.state.next ≡ ""))
            ⊎ ((e : JsError) × (serve (change_password s.current s.next) ≡ thrown e)
                × (out.state.current ≡ s.current)
                × (out.state.next ≡ s.next))))
      ⊎ ((IsSound s → ⊥)
          × (out.calls ≡ [])
          × (out.state.current ≡ s.current)
          × (out.state.next ≡ s.next)
          × ((m : Message) × (out.state.msg ≡ some m)
              × (m.is_ok ≡ false)
              × (truthy m.words ≡ true)))
unfolding submit_password
submit_password_lem l serve s =
    let t = translations_map l in
    elim (Option-cases (password_problem t s)) [
      | inl none' ↦ inl (
        (password_problem_cases t s).0 none',
        ground arith,
        elim (result_cases (serve (change_password s.current s.next))) [
          | inl (n, e) ↦ inl (n, e, ground arith, ground arith)
          | inr (err, e) ↦ inr (err, e, ground arith, ground arith)
        ],
      )
      | inr (m, e) ↦
          let long : truthy m ≡ true = problem_truthy l s m e in
          inr (
            λ sound. let no : none ≡ some m = sym ((password_problem_cases t s).1 sound) ∙ e in cc,
            rw (e, long, submit_password) refl,
            rw (e, long, submit_password) refl,
            rw (e, long, submit_password) refl,
            (record { is_ok = false; words = m }, rw (e, long, submit_password) refl, refl, long),
          )
    ]

-- A password that the form lets through and that the server calls invalid is reported as too short,
-- with its length, which is 12 or more.
long_told_short :
    (l : Locale) (serve : LoginCall → Result ℕ) (s : PasswordForm) (status : ℕ) (message : String)
    → IsSound s
    → serve (change_password s.current s.next)
      ≡ thrown (client_error status (str "VALIDATION_ERROR") message)
    → (12 ≤ text_length s.next)
      × ((submit_password (translations_map l) serve s).state.msg
          ≡ some (record { is_ok = false; words = too_short (translations_map l) s.next }))
unfolding submit_password password_error
long_told_short l serve s status message sound refused =
    let none' = (password_problem_cases (translations_map l) s).1 sound in
    (sound.1, rw (none', refused, submit_password) refl)
