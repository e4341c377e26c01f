-- ===== src/Terminal/Laws.antt =====
-- The intervals that poll for a re-enrollment.
use adms_server.Common.{ℕ, suc, String, ◌≡◌, Bool, true, some, List, [], ◌∷◌, ◌==◌, any}
use adms_server.Api.Json.{Json}
use adms_server.Api.Request.{ok}
use adms_server.I18n.Translations.{Translations}
use adms_server.Terminal.{
  TerminalPage, TerminalServer, TerminalEvent, start_reenroll, start_answer, poll, poll_answer,
  leave,
}

-- Whether an interval is set.
abbrev pub is_set : ℕ → List (ℕ × String) → Bool
is_set n xs = any (λ x. x.0 == n) xs

-- An answer to a poll, an interval that fires, or leaving the page.
abbrev OfPoll : TerminalEvent → Type 0
OfPoll (poll n) = Unit
OfPoll (poll_answer r) = Unit
OfPoll leave = Unit
OfPoll _ = ⊥

-- An interval is set, and the page knows another one only.
abbrev Lost : ℕ → TerminalPage → Type 0
Lost n s = (s.poll_ref ≡ some (suc n)) × (is_set n s.intervals ≡ true)

module _ (t : Translations) (server : TerminalServer) (operator : String) where
  -- Two starts of which the first is told as confirmed before it is answered.
  abbrev pub late_answer : String → Json → Json → List TerminalEvent
  late_answer id r r' =
      start_reenroll
      ∷ poll_answer (ok "confirmed")
      ∷ start_answer id (ok r)
      ∷ start_reenroll
      ∷ start_answer id (ok r')
      ∷ []
