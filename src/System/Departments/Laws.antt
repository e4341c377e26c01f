-- ===== src/System/Departments/Laws.antt =====
-- The list that is saved.
use adms_server.Common.{
  ℕ, zero, suc, String, ◌≡◌, refl, Bool, true, false, not, ◌&&◌, none, List, [], ◌∷◌, ◌++◌, arith,
  str_eq, eq_iff, get_or, truthy, filter, All,
}
use adms_server.Common.Sets.{has, has-append_one}
use adms_server.Common.Text.{trim}
use adms_server.Api.Json.{Json}
use adms_server.Api.Request.{Result}
use adms_server.Api.Calls.Roster.{RosterCall, set_departments}
use adms_server.I18n.Translations.{Translations}
use adms_server.System.Departments.{
  Departments, items_of, swap_at, move_up, move_down, add_department, save_departments,
  DepartmentEvent, up, down, remove, set_new_name, add, save, load, department_step,
}

-- Whether no name stands twice in a list, and none is empty.
abbrev distinct : List String → Bool
distinct [] = true
distinct (x ∷ xs) = truthy x && not (has xs x) && distinct xs

has-swap_at : (i : ℕ) (xs : List String) (v : String) → has (swap_at i xs) v ≡ has xs v
has-swap_at i [] v = refl
has-swap_at i (x ∷ []) v = refl
has-swap_at zero (x ∷ y ∷ xs) v = ground arith
has-swap_at (suc i) (x ∷ y ∷ xs) v = ground (arith, has-swap_at i (y ∷ xs) v)

distinct-swap_at : (i : ℕ) (xs : List String) → distinct xs ≡ true → distinct (swap_at i xs) ≡ true
distinct-swap_at i [] h = h
distinct-swap_at i (x ∷ []) h = h
distinct-swap_at zero (x ∷ y ∷ xs) h = ground (arith, eq_iff x y, eq_iff y x)
distinct-swap_at (suc i) (x ∷ y ∷ xs) h =
    ground (arith, distinct-swap_at i (y ∷ xs), has-swap_at i (y ∷ xs) x)

has-filter :
    (p : String → Bool) (xs : List String) (v : String)
    → has xs v ≡ false
    → has (filter p xs) v ≡ false
has-filter p [] v h = refl
has-filter p (x ∷ xs) v h = ground (arith, has-filter p xs v)

distinct-filter :
    (p : String → Bool) (xs : List String) → distinct xs ≡ true → distinct (filter p xs) ≡ true
distinct-filter p [] h = refl
distinct-filter p (x ∷ xs) h = ground (arith, distinct-filter p xs, has-filter p xs x)

distinct-append_one :
    (xs : List String) (n : String)
    → distinct xs ≡ true
    → has xs n ≡ false
    → truthy n ≡ true
    → distinct (xs ++ n ∷ []) ≡ true
distinct-append_one [] n h fresh there = ground arith
distinct-append_one (x ∷ xs) n h fresh there =
    ground (arith, distinct-append_one xs n, has-append_one xs n x, eq_iff x n, eq_iff n x)

-- The list that is shown, and the one that is loaded, have no name twice and no empty one.
abbrev DistinctItems : Departments → Type 0
DistinctItems s = (distinct (items_of s) ≡ true) × (distinct (get_or s.list []) ≡ true)

abbrev LoadsDistinct : DepartmentEvent → Type 0
LoadsDistinct (load xs) = distinct xs ≡ true
LoadsDistinct _ = Unit

-- A call that saves a list without a name twice or an empty one.
abbrev SavesDistinct : RosterCall → Type 0
SavesDistinct (set_departments names) = distinct names ≡ true
SavesDistinct _ = ⊥

module _ (t : Translations) (serve : RosterCall → Result Json) where
  step-DistinctItems :
      (s : Departments) (e : DepartmentEvent)
      → LoadsDistinct e
      → DistinctItems s
      → DistinctItems (department_step t serve s e).state
  unfolding department_step move_up move_down add_department save_departments
  step-DistinctItems s (up zero) l h = h
  step-DistinctItems s (up (suc i)) l h = ground (arith, distinct-swap_at i (items_of s))
  step-DistinctItems s (down i) l h = ground (arith, distinct-swap_at i (items_of s))
  step-DistinctItems s (remove d) l h =
      (distinct-filter (λ x. not (str_eq x d)) (items_of s) h.0, h.1)
  step-DistinctItems s (set_new_name n) l h = h
  step-DistinctItems s add l h = ground (arith, distinct-append_one (items_of s) (trim s.new_name))
  step-DistinctItems s save l h = ground arith
  step-DistinctItems s (load xs) l h = ground arith

  step-SavesDistinct :
      (s : Departments) (e : DepartmentEvent)
      → DistinctItems s
      → All SavesDistinct (department_step t serve s e).calls
  unfolding department_step move_up move_down add_department save_departments
  step-SavesDistinct s (up zero) h = tt
  step-SavesDistinct s (up (suc i)) h = ground arith
  step-SavesDistinct s (down i) h = ground arith
  step-SavesDistinct s (remove d) h = tt
  step-SavesDistinct s (set_new_name n) h = tt
  step-SavesDistinct s add h = ground arith
  step-SavesDistinct s save h = ground arith
  step-SavesDistinct s (load xs) h = tt

  -- Every save that some events make.
  abbrev pub AllSaveDistinct : Departments → List DepartmentEvent → Type 0
  AllSaveDistinct s [] = Unit
  AllSaveDistinct s (e ∷ es) =
      All SavesDistinct (department_step t serve s e).calls
      × AllSaveDistinct (department_step t serve s e).state es

  -- If the server's lists have no name twice and no empty one, no list that is saved has, however names
  -- are moved, removed and added before.
  pub departments_distinct :
      (s : Departments) (es : List DepartmentEvent)
      → DistinctItems s
      → All LoadsDistinct es
      → AllSaveDistinct s es
  departments_distinct s [] h l = tt
  departments_distinct s (e ∷ es) h (first, rest) = (
    step-SavesDistinct s e h,
    departments_distinct (department_step t serve s e).state es (step-DistinctItems s e first h)
        rest,
  )

  -- Where the list is not loaded, or could not be loaded, and nothing is edited yet, adding a name
  -- that is not blank and saving sends that one name as the whole list of departments.
  pub departments_overwritten :
      (s : Departments)
      → s.list ≡ none
      → s.draft ≡ none
      → truthy (trim s.new_name) ≡ true
      → (department_step t serve (department_step t serve s add).state save).calls
        ≡ set_departments (trim s.new_name ∷ []) ∷ []
  unfolding department_step add_department save_departments
  departments_overwritten s unloaded undrafted named = ground arith
