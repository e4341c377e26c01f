-- ===== src/Absences/Holidays.antt =====
-- `HolidayManager` of pages/Absences.tsx: adding and removing holidays, over the list that is loaded.
-- The months and the filling of a year stand in Calendar.
use adms_server.Common.{
  String, ◌≡◌, Bool, true, false, not, ◌&&◌, ◌||◌, Option, none, some, List, [], ◌∷◌, map, arith,
  if◌then◌else◌, truthy, All,
}
use adms_server.Common.Text.{trim}
use adms_server.Api.Json.{Json}
use adms_server.Api.Request.{JsError, Result, ok, thrown}
use adms_server.Api.Calls.Absences.{AbsenceCall, set_holiday, delete_holiday}
use adms_server.I18n.Translations.{Translations}
use adms_server.Handlers.{Ran, only}
use adms_server.Absences.Form.{absence_error}
use adms_server.Absences.Calendar.{YearMonth, shift_next, shift_back, has_date, fill_fixed}

-- `known` is `list.data ?? []`, which is the last year's list until the new one is loaded.
pub record HolidayCard : Type 0 where
  pub ym : YearMonth
  pub known : List (String × String)
  pub picked : Option String
  pub name : String
  pub busy : Bool
  pub error : Option String

-- The calls of a `run`, one after the other, up to the first that is refused.
abbrev try_calls :
    (AbsenceCall → Result Json) → List AbsenceCall → List AbsenceCall × Option JsError
try_calls serve [] = ([], none)
try_calls serve (c ∷ cs) =
    let rest = try_calls serve cs in
    elim (serve c) [ ok r ↦ (c ∷ rest.0, rest.1) | thrown e ↦ (c ∷ [], some e) ]

abbrev ran :
    Translations
    → HolidayCard
    → HolidayCard
    → List AbsenceCall × Option JsError
    → Ran HolidayCard AbsenceCall
ran t s done (calls, none) = record {
  state = record done { busy = false; error = none };
  calls = calls;
  reloads = 1;
  told = 0;
}
ran t s done (calls, some e) = record {
  state = record s { busy = false; error = some (absence_error e t) };
  calls = calls;
  reloads = 0;
  told = 0;
}

-- `add`
unfoldable pub add_holiday :
    Translations → (AbsenceCall → Result Json) → HolidayCard → Ran HolidayCard AbsenceCall
add_holiday t serve s = elim s.picked [
  | none ↦ only s
  | some d ↦
      if truthy d && truthy (trim s.name)
      then ran t s (record s { picked = none; name = "" })
          (try_calls serve (set_holiday d (trim s.name) ∷ []))
      else only s
]

-- A click on a day: a holiday is removed, another day is picked; `weekend` is whether it is one.
abbrev day_enabled : Bool → HolidayCard → Bool → String → Bool
day_enabled can_edit_roster s weekend d =
    can_edit_roster && not s.busy && (not weekend || has_date s.known d)

unfoldable pub click_day :
    Translations → (AbsenceCall → Result Json) → String → HolidayCard → Ran HolidayCard AbsenceCall
click_day t serve d s =
    if has_date s.known d
    then ran t s s (try_calls serve (delete_holiday d ∷ []))
    else only (record s { picked = some d })

abbrev as_call : String × String → AbsenceCall
as_call (d, n) = set_holiday d n

-- `fillFixed`
unfoldable pub click_fill :
    Translations → (AbsenceCall → Result Json) → HolidayCard → Ran HolidayCard AbsenceCall
click_fill t serve s = ran t s s (try_calls serve (map as_call (fill_fixed s.ym.0 s.known)))

-- `shift`
unfoldable pub click_shift : Bool → HolidayCard → HolidayCard
click_shift forward s = record s {
  ym = if forward then shift_next s.ym else shift_back s.ym;
  picked = none;
}

-- What the button to add and the days send to the server.
abbrev SendsOf : HolidayCard → AbsenceCall → Type 0
SendsOf s (set_holiday d n) = (s.picked ≡ some d) × (truthy n ≡ true) × (n ≡ trim s.name)
SendsOf s (delete_holiday d) = has_date s.known d ≡ true
SendsOf s _ = ⊥

-- The button to add sends the picked day with a name that is not blank, or nothing; a click on a day
-- deletes it only where the list that is shown has it as a holiday. A click on a day that is enabled
-- never picks a weekend.
holiday_clicks_lem :
    (t : Translations) (serve : AbsenceCall → Result Json) (s : HolidayCard)
    (can_edit weekend : Bool) (d : String)
    → All (SendsOf s) (add_holiday t serve s).calls
      × All (SendsOf s) (click_day t serve d s).calls
      × (day_enabled can_edit s weekend d ≡ true
          → weekend ≡ true
          → (click_day t serve d s).state.picked ≡ s.picked)
unfolding add_holiday click_day
holiday_clicks_lem t serve s can_edit weekend d = (ground arith, ground arith, λ on w. ground arith)
