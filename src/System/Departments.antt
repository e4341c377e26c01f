-- ===== src/System/Departments.antt =====
-- `DepartmentsCard` of pages/System.tsx: the list of departments, edited and saved as a whole.
pub mod Laws
use adms_server.Common.{
  ℕ, zero, suc, String, Bool, true, false, not, ◌||◌, Option, none, some, List, [], ◌∷◌, ◌++◌,
  str_eq, leb, if◌then◌else◌, get_or, is_some, truthy, length, filter,
}
use adms_server.Common.Sets.{has}
use adms_server.Common.Text.{trim}
use adms_server.Api.Json.{Json}
use adms_server.Api.Request.{Result, ok, thrown}
use adms_server.Api.Calls.Roster.{RosterCall, set_departments}
use adms_server.I18n.Translations.{Translations}
use adms_server.I18n.ApiErrors.{friendly_api_error}
use adms_server.Handlers.{Message, Ran, only}

-- `list` is `list.data`: `none` while it is not loaded, and after it failed to load.
pub record Departments : Type 0 where
  pub list : Option (List String)
  pub draft : Option (List String)
  pub new_name : String
  pub busy : Bool
  pub msg : Option Message

-- `items`
abbrev pub items_of : Departments → List String
items_of s = get_or s.draft (get_or s.list [])

-- `edit`
abbrev pub edited : List String → Departments → Departments
edited next s = record s { draft = some next; msg = none }

-- The list with the items at `i` and `i + 1` exchanged.
abbrev pub swap_at : ℕ → List String → List String
swap_at i [] = []
swap_at i (x ∷ []) = x ∷ []
swap_at zero (x ∷ y ∷ xs) = y ∷ x ∷ xs
swap_at (suc i) (x ∷ y ∷ xs) = x ∷ swap_at i (y ∷ xs)

-- `move(i, -1)` and `move(i, 1)`
unfoldable pub move_up : ℕ → Departments → Departments
move_up zero s = s
move_up (suc i) s = if leb (length (items_of s)) i then s else edited (swap_at i (items_of s)) s

unfoldable pub move_down : ℕ → Departments → Departments
move_down i s = if leb (length (items_of s)) (suc i) then s else edited (swap_at i (items_of s)) s

-- `add`
unfoldable pub add_department : Departments → Departments
add_department s =
    if not (truthy (trim s.new_name)) || has (items_of s) (trim s.new_name)
    then s
    else record (edited (items_of s ++ trim s.new_name ∷ []) s) { new_name = "" }

abbrev saved_departments : Translations → Departments → Result Json → Ran Departments RosterCall
saved_departments t s (ok r) = record {
  state = record s {
    draft = none;
    busy = false;
    msg = some (record { is_ok = true; words = "บันทึกรายชื่อแผนกแล้ว" });
  };
  calls = set_departments (items_of s) ∷ [];
  reloads = 1;
  told = 0;
}
saved_departments t s (thrown e) = record {
  state = record s {
    busy = false;
    msg = some (record { is_ok = false; words = friendly_api_error e t });
  };
  calls = set_departments (items_of s) ∷ [];
  reloads = 0;
  told = 0;
}

-- `save`
unfoldable pub save_departments :
    Translations → (RosterCall → Result Json) → Departments → Ran Departments RosterCall
save_departments t serve s = saved_departments t s (serve (set_departments (items_of s)))

pub data DepartmentEvent : Type 0 where
  up down : ℕ → DepartmentEvent
  remove set_new_name : String → DepartmentEvent
  add save : DepartmentEvent
  -- the list is loaded
  load : List String → DepartmentEvent

unfoldable pub department_step :
    Translations
    → (RosterCall → Result Json)
    → Departments
    → DepartmentEvent
    → Ran Departments RosterCall
unfolding move_up move_down add_department save_departments
department_step t serve s (up i) = only (move_up i s)
department_step t serve s (down i) = only (move_down i s)
department_step t serve s (remove d) = only (edited (filter (λ x. not (str_eq x d)) (items_of s)) s)
department_step t serve s (set_new_name n) = only (record s { new_name = n })
department_step t serve s add = only (add_department s)
-- the button is disabled while there is no draft
department_step t serve s save = if is_some s.draft then save_departments t serve s else only s
department_step t serve s (load xs) = only (record s { list = some xs })
