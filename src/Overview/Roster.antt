-- ===== src/Overview/Roster.antt =====
-- `DailyRoster` of pages/DailyRoster.tsx: the statuses that are shown, their words, and the people.
use adms_server.Common.{
  String, ◌≡◌, refl, ap, subst, inl, inr, Bool, true, false, not, ◌&&◌, ◌||◌, Option, none, some,
  List, [], ◌∷◌, arith, str_eq, eq_iff, if◌then◌else◌, Bool-cases, is_some, truthy, filter, any,
  All,
}
use adms_server.I18n.Translations.{Translations}

-- `STATUS_ORDER`, as the texts that they are.
abbrev status_order : List String
status_order =
    "PRESENT" ∷ "LATE" ∷ "LEAVE" ∷ "DUTY" ∷ "EXEMPT" ∷ "NOT_YET" ∷ "ABSENT" ∷ "NOT_ENROLLED" ∷ "OFF"
    ∷ []

-- What the page reads of a day: whether counting is live, whether it is a workday, and the people with
-- their statuses.
pub record Day : Type 0 where
  pub live : Bool
  pub is_workday : Bool
  pub people : List (String × String)

-- The texts `t.leave.st_…`; another text has none.
abbrev status_word : Translations → String → Option String
status_word t s =
    if str_eq s "PRESENT"
    then some t.leave.st_present
    else if str_eq s "LATE"
    then some t.leave.st_late
    else if str_eq s "LEAVE"
    then some t.leave.st_leave
    else if str_eq s "DUTY"
    then some t.leave.st_duty
    else if str_eq s "EXEMPT"
    then some t.leave.st_exempt
    else if str_eq s "NOT_YET"
    then some t.leave.st_not_yet
    else if str_eq s "ABSENT"
    then some t.leave.st_absent
    else if str_eq s "NOT_ENROLLED"
    then some t.leave.st_not_enrolled
    else if str_eq s "OFF"
    then some t.leave.st_off
    else none

-- `data && !data.live`
abbrev is_trial : Option Day → Bool
is_trial none = false
is_trial (some d) = not d.live

-- `label`; `none` is `undefined`, for a status that is not of the order.
unfoldable pub label : Translations → Option Day → String → Option String
label t day s =
    if str_eq s "ABSENT" && is_trial day then some t.leave.trial_absent else status_word t s

abbrev is_day_off : Option Day → Bool
is_day_off none = false
is_day_off (some d) = not d.is_workday

-- `shown`
unfoldable pub shown : Option Day → List String
shown day = filter (λ s. not (str_eq s "OFF") || is_day_off day) status_order

abbrev people_of : Option Day → List (String × String)
people_of none = []
people_of (some d) = d.people

-- `people`; an empty filter is none.
unfoldable pub people : Option Day → String → List (String × String)
people day status = filter (λ p. not (truthy status) || str_eq p.1 status) (people_of day)

-- A click on a status.
unfoldable pub click_status : String → String → String
click_status s status = if str_eq status s then "" else s

-- Every status that is shown has a word, whatever day is loaded.
shown_worded :
    (t : Translations) (day : Option Day) → All (λ s. is_some (label t day s) ≡ true) (shown day)
unfolding shown label
shown_worded t none = ground arith
shown_worded t (some d) = ground arith

-- A filter for days off that is kept on a workday is not among the statuses shown, and leaves only
-- people with that status.
off_filter_hidden :
    (d : Day)
    → d.is_workday ≡ true
    → (any (str_eq "OFF") (shown (some d)) ≡ false)
      × (people (some d) "OFF" ≡ filter (λ p. str_eq p.1 "OFF") d.people)
unfolding shown people
off_filter_hidden d workday = (ground arith, refl)

filter_all : {A : Type 0} (xs : List A) → filter (λ x. true) xs ≡ xs
filter_all [] = refl
filter_all (x ∷ xs) = ap (λ r. x ∷ r) (filter_all xs)

-- A second click on a status takes the filter back, and then everybody is listed.
click_twice :
    (d : Day) (s : String) → people (some d) (click_status s (click_status s "")) ≡ d.people
unfolding people click_status
click_twice d s = elim (Bool-cases (str_eq "" s)) [
  | inl e ↦
      subst (λ x. people (some d) (click_status x (click_status x "")) ≡ d.people)
        ((eq_iff "" s).0 e) (filter_all d.people)
  | inr e ↦ let same : str_eq s s ≡ true = (eq_iff s s).1 refl in rw (e, same) (filter_all d.people)
]
