-- ===== src/Api/Query/Laws.antt =====
-- What the query string depends on.
use adms_server.Common.{
  String, Bool, true, Option, none, some, List, [], ◌∷◌, ◌≡◌, refl, ◌≢◌, ◌↔◌, ap, truthy, arith,
  All, filter, is_some,
}
use adms_server.Common.Text.{◌+++◌}
use adms_server.Api.Query.{Params, QueryValue, set, collect, qs, question, value_text}
use text.Mathlib.TextLemmas.{append-eq-nil_iff}

abbrev is_defined : String × Option QueryValue → Bool
is_defined (k, v) = is_some v

-- The parameters that are neither `undefined` nor `null`.
abbrev defined : Params → Params
defined = filter is_defined

collect-defined : (q : List (String × String)) (ps : Params) → collect q (defined ps) ≡ collect q ps
unfolding collect
collect-defined q [] = refl
collect-defined q ((k, none) ∷ ps) = collect-defined q ps
collect-defined q ((k, some v) ∷ ps) = collect-defined (set k (value_text v) q) ps

set-ne-nil : (k v : String) (q : List (String × String)) → set k v q ≢ []
set-ne-nil k v [] = λ e. cc
set-ne-nil k v ((j, w) ∷ q) = ground arith

collect-ne-nil : (q : List (String × String)) (ps : Params) → q ≢ [] → collect q ps ≢ []
unfolding collect
collect-ne-nil q [] h = h
collect-ne-nil q ((k, none) ∷ ps) h = collect-ne-nil q ps h
collect-ne-nil q ((k, some v) ∷ ps) h =
    collect-ne-nil (set k (value_text v) q) ps (set-ne-nil k (value_text v) q)

-- All values are `undefined` or `null`.
abbrev IsAbsent : Params → Type 0
IsAbsent = All (λ p. p.1 ≡ none)

collect-eq-nil_iff : (ps : Params) → (collect [] ps ≡ []) ↔ IsAbsent ps
unfolding collect
collect-eq-nil_iff [] = (λ _. tt, λ _. refl)
collect-eq-nil_iff ((k, none) ∷ ps) =
    let (to, from) = collect-eq-nil_iff ps in (λ e. (refl, to e), λ h. from h.1)
collect-eq-nil_iff ((k, some v) ∷ ps) =
    (λ e. absurd (collect-ne-nil _ ps (set-ne-nil k (value_text v) []) e), λ h. cc)

-- Documented of `URLSearchParams`: no pair is written as the empty text, and some pair is not.
module _ (encode : List (String × String) → String) (empty : encode [] ≡ "")
    (pairs : (p : String × String) (ps : List (String × String))
      → truthy (encode (p ∷ ps)) ≡ true) where
  question-encode : (q : List (String × String)) → (question (encode q) ≡ "") ↔ (q ≡ [])
  question-encode [] = (λ _. refl, λ _. rw empty refl)
  question-encode (p ∷ q) = (λ e. absurd (a_mark (encode (p ∷ q)) (rw (pairs p q) at e)), λ h. cc)
    where
      a_mark : (s : String) → "?" +++ s ≡ "" → ⊥
      a_mark s e = cc (append-eq-nil_iff.0 e).0

  -- There is no query string exactly when every parameter is `undefined` or `null`, and parameters
  -- that are change nothing, wherever they stand.
  pub qs-IsAbsent :
      (ps : Params) → ((qs encode ps ≡ "") ↔ IsAbsent ps) × (qs encode (defined ps) ≡ qs encode ps)
  unfolding qs
  qs-IsAbsent ps =
      let (to, from) = question-encode (collect [] ps) in
      let (all, none_left) = collect-eq-nil_iff ps in
      (
        (λ e. all (to e), λ h. from (none_left h)),
        ap (λ q. question (encode q)) (collect-defined [] ps),
      )
