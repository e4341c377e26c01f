-- ===== src/Personnel/Combobox.antt =====
-- components/PersonCombobox.tsx: the search for a person.
pub mod Laws
use adms_server.Common.{
  ℕ, zero, suc, String, Bool, true, false, not, ◌||◌, Option, none, some, List, [], ◌∷◌, str_eq,
  if◌then◌else◌, get_or, truthy, filter, find,
}
use adms_server.Common.Text.{trim, includes, ◌+++◌}
use adms_server.Personnel.Roster.{Human}

-- `humans` and `value` are the parent's; `humans` is `none` while the list is not loaded.
pub record Combobox : Type 0 where
  pub humans : Option (List Human)
  pub value : String
  pub query : String
  pub is_open : Bool

-- The text for a person.
abbrev pub label : Human → String
label h =
    let rank = get_or h.rank "" in
    h.display_name +++ (if truthy rank then " (" +++ rank +++ ")" else "")

-- `selected`
abbrev pub selected : Combobox → Option Human
selected s = find (λ h. str_eq h.employee_id s.value) (get_or s.humans [])

abbrev label? : Option Human → String
label? none = ""
label? (some h) = label h

-- The effect, which runs at first and whenever the value has changed.
abbrev on_value : Combobox → Combobox
on_value s = if s.is_open then s else record s { query = label? (selected s) }

unfoldable pub box_start : Option (List Human) → String → Combobox
box_start humans value =
    on_value (record { humans = humans; value = value; query = ""; is_open = false })

pub data BoxEvent : Type 0 where
  focus click_outside : BoxEvent
  type_text : String → BoxEvent
  choose : Human → BoxEvent
  -- the parent gives another list, or another value
  load : List Human → BoxEvent
  set_value : String → BoxEvent

abbrev on_event : Combobox → BoxEvent → Combobox
on_event s focus = record s { is_open = true }
on_event s click_outside = record s { is_open = false }
on_event s (type_text q) = record s { query = q; is_open = true; value = "" }
on_event s (choose h) = record s { value = h.employee_id; query = label h; is_open = false }
on_event s (load xs) = record s { humans = some xs }
on_event s (set_value v) = record s { value = v }

-- An event and the render after it.
unfoldable pub box_step : Combobox → BoxEvent → Combobox
box_step s e =
    let after = on_event s e in if str_eq after.value s.value then after else on_value after

unfoldable pub box_run : Combobox → List BoxEvent → Combobox
box_run s [] = s
box_run s (e ∷ es) = box_run (box_step s e) es

-- `filtered`'s test; `lower` is the platform's `toLowerCase`.
abbrev pub matches : (String → String) → String → Human → Bool
matches lower q h =
    not (truthy q)
    || includes (lower h.display_name) q
    || includes (lower (get_or h.english_name "")) q
    || includes (lower (get_or h.rank "")) q
    || includes (lower (get_or h.personnel_id "")) q

abbrev pub take {ℓ} : {A : Type ℓ} → ℕ → List A → List A
take zero xs = []
take (suc n) [] = []
take (suc n) (x ∷ xs) = x ∷ take n xs

-- The people that are offered.
unfoldable pub options : (String → String) → Combobox → List Human
options lower s = take 100 (filter (matches lower (lower (trim s.query))) (get_or s.humans []))
