-- ===== src/Personnel/Combobox/Laws.antt =====
-- What is shown and what is chosen.
use adms_server.Common.{
  ℕ, zero, suc, ◌≤◌, String, ◌≡◌, sym, subst, ◌⊎◌, inl, inr, Bool, true, Option, none, some, List,
  [], ◌∷◌, arith, str_eq, eq_iff, get_or, length, filter, find, All,
}
use adms_server.Common.Text.{trim}
use adms_server.Personnel.Roster.{Human}
use adms_server.Personnel.Combobox.{
  Combobox, label, selected, BoxEvent, focus, click_outside, type_text, choose, load, set_value,
  box_start, box_step, box_run, matches, take, options,
}

-- Nobody is chosen, or the text is that of the person who is.
abbrev pub ShowsChoice : Combobox → Type 0
ShowsChoice s = (s.value ≡ "") ⊎ ((h : Human) × (selected s ≡ some h) × (s.query ≡ label h))

-- What the operator does at a list of people, and what a page does that clears the choice.
abbrev AtList : Option (List Human) → BoxEvent → Type 0
AtList humans focus = Unit
AtList humans click_outside = Unit
AtList humans (type_text q) = Unit
AtList humans (choose h) =
    find (λ x. str_eq x.employee_id h.employee_id) (get_or humans []) ≡ some h
AtList humans (load xs) = ⊥
AtList humans (set_value v) = v ≡ ""

step-ShowsChoice :
    (s : Combobox) (e : BoxEvent)
    → AtList s.humans e
    → ShowsChoice s
    → ShowsChoice (box_step s e) × ((box_step s e).humans ≡ s.humans)
unfolding box_step
step-ShowsChoice s focus a h = ground (arith, eq_iff s.value s.value)
step-ShowsChoice s click_outside a h = ground (arith, eq_iff s.value s.value)
step-ShowsChoice s (type_text q) a h = ground arith
step-ShowsChoice s (choose p) a h = (inr (p, ground arith, ground arith), ground arith)
step-ShowsChoice s (set_value v) a h = (inl (ground arith), ground arith)
step-ShowsChoice s (load xs) a h = absurd a

-- From a box that shows its choice, while the list of people stays, whatever the operator types,
-- opens, leaves or chooses of those whom the list finds by their employee ID, and whenever the page
-- clears the choice, the box shows the person who is chosen: no text that was typed stands for another
-- person's choice.
pub box_run-ShowsChoice :
    (s : Combobox) (es : List BoxEvent)
    → ShowsChoice s
    → All (AtList s.humans) es
    → ShowsChoice (box_run s es)
unfolding box_run
box_run-ShowsChoice s [] h a = h
box_run-ShowsChoice s (e ∷ es) h (first, rest) =
    let next = step-ShowsChoice s e first h in
    box_run-ShowsChoice (box_step s e) es next.0
      (subst (λ hs. All (AtList hs) es) (sym next.1) rest)

-- A box that opens with a person chosen before the people are loaded stays empty when they are, though
-- that person is chosen and on the list.
preselected_hidden :
    (v : String) (xs : List Human)
    → ((box_step (box_start none v) (load xs)).query ≡ "")
      × ((box_step (box_start none v) (load xs)).value ≡ v)
      × (selected (box_step (box_start none v) (load xs)) ≡ find (λ h. str_eq h.employee_id v) xs)
unfolding box_step box_start
preselected_hidden v xs = ground (arith, eq_iff v v)

length-take : {A : Type 0} (n : ℕ) (xs : List A) → length (take n xs) ≤ n
length-take zero xs = omega arith
length-take (suc n) [] = omega arith
length-take (suc n) (x ∷ xs) = omega (arith, length-take n xs)

-- Each person offered is on the list and matches what is typed.
abbrev Offered : (String → String) → Combobox → Human → Type 0
Offered lower s h = matches lower (lower (trim s.query)) h ≡ true

take-filter-All :
    (p : Human → Bool) (n : ℕ) (xs : List Human) → All (λ h. p h ≡ true) (take n (filter p xs))
take-filter-All p n xs = take_All n (filter p xs) (filter_All xs)
  where
    filter_All : (ys : List Human) → All (λ h. p h ≡ true) (filter p ys)
    filter_All [] = tt
    filter_All (y ∷ ys) = ground (arith, filter_All ys)

    take_All :
        (m : ℕ) (ys : List Human) → All (λ h. p h ≡ true) ys → All (λ h. p h ≡ true) (take m ys)
    take_All zero ys a = tt
    take_All (suc m) [] a = tt
    take_All (suc m) (y ∷ ys) (a, as') = (a, take_All m ys as')

-- At most a hundred people are offered, and each of them matches what is typed.
options_lem :
    (lower : String → String) (s : Combobox)
    → (length (options lower s) ≤ 100) × All (Offered lower s) (options lower s)
unfolding options
options_lem lower s = (
  length-take 100 (filter (matches lower (lower (trim s.query))) (get_or s.humans [])),
  take-filter-All (matches lower (lower (trim s.query))) 100 (get_or s.humans []),
)
