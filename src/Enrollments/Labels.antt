-- ===== src/Enrollments/Labels.antt =====
-- The labels of an enrollment's status (i18n/enumLabels.ts), against the server's table.
use adms_server.Common.{
  String, true, List, [], ◌∷◌, is_some, any, All, Bool-cases, ◌⊎◌, inl, inr, str_eq, ◌≡◌, subst,
  sym, arith, eq_iff,
}
use adms_server.I18n.EnumLabels.{label_of, enrollment_status_labels}
use adms_server.Enrollments.Transitions.{validate_status_transition, allowed_transitions}

-- Whether a status has a label.
abbrev Labelled : String → Type 0
Labelled status = is_some (label_of enrollment_status_labels status) ≡ true

-- A property of all items holds of a text that is one of them.
among_All :
    (P : String → Type 0) (s : String) (xs : List String)
    → any (str_eq s) xs ≡ true
    → All P xs
    → P s
among_All P s [] h all = cc
among_All P s (x ∷ xs) h (px, pxs) = elim (Bool-cases (str_eq s x)) [
  | inl e ↦ subst P (sym ((eq_iff s x).0 e)) px
  | inr e ↦ among_All P s xs (ground arith) pxs
]

targets-All : (current : String) → All Labelled (allowed_transitions current)
unfolding allowed_transitions
targets-All current = ground arith

sources-Labelled : (current : String) → Labelled current ⊎ (allowed_transitions current ≡ [])
unfolding allowed_transitions
sources-Labelled current = ground arith

-- Both statuses of every change that the server allows have a label, so that no operator reads the
-- server's name of them.
transition-Labelled :
    (current target : String)
    → validate_status_transition current target ≡ true
    → Labelled current × Labelled target
unfolding validate_status_transition
transition-Labelled current target h = (
  elim (sources-Labelled current) [ inl e ↦ e | inr e ↦ cc ],
  among_All Labelled target (allowed_transitions current) h (targets-All current),
)
