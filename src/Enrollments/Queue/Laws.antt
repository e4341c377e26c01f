-- ===== src/Enrollments/Queue/Laws.antt =====
-- The split of the list and the selection.
use mathlib.Core.List.{Perm, perm_middle}
use mathlib.Core.List.Perm
use adms_server.Common.{
  ℕ, Bool, true, not, Option, none, some, List, [], ◌∷◌, ◌++◌, ◌≡◌, refl, ◌≢◌, ◌↔◌, inl, inr, All,
  filter, arith, eq_iff, Bool-cases, sym,
}
use adms_server.Enrollments.Queue.{
  Enrollment, is_in_progress, active_items, history_items, auto_select, first_id,
}

filter-All {ℓ} : {A : Type ℓ} (p : A → Bool) (xs : List A) → All (λ x. p x ≡ true) (filter p xs)
filter-All p [] = tt
filter-All p (x ∷ xs) = elim (Bool-cases (p x)) [
  | inl e ↦ rw e (e, filter-All p xs)
  | inr e ↦ rw e (filter-All p xs)
]

split-perm {ℓ} :
    {A : Type ℓ} (p : A → Bool) (xs : List A) → Perm (filter p xs ++ filter (λ x. not (p x)) xs) xs
split-perm p [] = Perm.refl []
split-perm p (x ∷ xs) = elim (Bool-cases (p x)) [
  | inl e ↦ rw e (Perm.cons x (split-perm p xs))
  | inr e ↦ rw e (Perm.trans (perm_middle (filter p xs) _) (Perm.cons x (split-perm p xs)))
]

All-not :
    (xs : List Enrollment)
    → All (λ e. not (is_in_progress e) ≡ true) xs
    → All (λ e. e.lifecycle_state ≢ "IN_PROGRESS") xs
All-not [] h = tt
All-not (e ∷ xs) (here, later) =
    (ground (arith, eq_iff e.lifecycle_state "IN_PROGRESS"), All-not xs later)

All-is :
    (xs : List Enrollment)
    → All (λ e. is_in_progress e ≡ true) xs
    → All (λ e. e.lifecycle_state ≡ "IN_PROGRESS") xs
All-is [] h = tt
All-is (e ∷ xs) (here, later) = ((eq_iff e.lifecycle_state "IN_PROGRESS").0 here, All-is xs later)

-- Every enrollment of the list stands in exactly one of the two queues: the active one holds those
-- in progress, the other one the rest.
queues_split :
    (items : List Enrollment)
    → Perm (active_items items ++ history_items items) items
      × All (λ e. e.lifecycle_state ≡ "IN_PROGRESS") (active_items items)
      × All (λ e. e.lifecycle_state ≢ "IN_PROGRESS") (history_items items)
unfolding active_items history_items
queues_split items = (
  split-perm is_in_progress items,
  All-is _ (filter-All is_in_progress items),
  All-not _ (filter-All (λ e. not (is_in_progress e)) items),
)

first_id-eq-none_iff : (es : List Enrollment) → (first_id es ≡ none) ↔ (es ≡ [])
first_id-eq-none_iff [] = (λ _. refl, λ _. refl)
first_id-eq-none_iff (e ∷ es) = (λ h. cc, λ h. cc)

auto_select_idem :
    (items : List Enrollment) (o : Option ℕ)
    → o ≡ first_id (active_items items)
    → auto_select items o ≡ o
unfolding auto_select
auto_select_idem items none h = sym h
auto_select_idem items (some id) h = refl

auto_select_again :
    (items : List Enrollment) (id : Option ℕ)
    → auto_select items (auto_select items id) ≡ auto_select items id
unfolding auto_select
auto_select_again items none = auto_select_idem items (first_id (active_items items)) refl
auto_select_again items (some id) = refl

-- The effect keeps a selection; with none it selects the first active enrollment, and leaves the
-- selection empty exactly when no enrollment is active. Running it again changes nothing.
auto_select_lem :
    (items : List Enrollment)
    → ((id : ℕ) → auto_select items (some id) ≡ some id)
      × ((auto_select items none ≡ none) ↔ (active_items items ≡ []))
      × ((e : Enrollment) (es : List Enrollment)
          → active_items items ≡ e ∷ es
          → auto_select items none ≡ some e.enrollment_id)
      × ((id : Option ℕ) → auto_select items (auto_select items id) ≡ auto_select items id)
unfolding auto_select
auto_select_lem items = (
  λ id. refl,
  first_id-eq-none_iff (active_items items),
  λ e es h. rw h refl,
  auto_select_again items,
)
