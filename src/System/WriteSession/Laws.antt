-- ===== src/System/WriteSession/Laws.antt =====
-- The badge against the permissions, and the card's calls.
use adms_server.Common.{ℕ, String, ◌≡◌, Bool, true, false, ◌&&◌, Option, some, arith, truthy}
use adms_server.Auth.{AuthState, MeResponse, auth_state}
use adms_server.System.WriteSession.{
  Badge, no_badge, locked, active, expires_at_of, write_session_badge,
}

-- Whether a badge says that changes are enabled.
abbrev pub says_active : Badge → Bool
says_active no_badge = false
says_active locked = false
says_active (active remaining) = true

-- Where a work session is required and the session that is open says when it ends, the badge says that
-- changes are enabled exactly when every user with a role that can write may change things.
pub badge-can_mutate :
    (time : String → ℕ) (now : ℕ) (me : Option MeResponse) (loading auth_error : Bool) (at : String)
    → (auth_state me loading auth_error).work_session_required ≡ true
    → expires_at_of (auth_state me loading auth_error).write_session ≡ some at
    → truthy at ≡ true
    → (auth_state me loading auth_error).can_mutate ≡ (
        (auth_state me loading auth_error).can_write
        && says_active (write_session_badge time now (auth_state me loading auth_error)))
unfolding write_session_badge auth_state
badge-can_mutate time now me loading auth_error at required ends there = ground arith

-- Without a requirement there is no badge, and an active badge is shown only while the server's write
-- switch and the session are both on.
badge_effective :
    (time : String → ℕ) (now : ℕ) (a : AuthState) (remaining : String)
    → write_session_badge time now a ≡ active remaining
    → (a.work_session_required ≡ true)
      × (a.server_write_enabled ≡ true)
      × (a.write_session_active ≡ true)
unfolding write_session_badge
badge_effective time now a remaining shown = ground arith
