-- ===== src/Overview/Weekdays.antt =====
-- `recentWeekdays` of pages/Dashboard.tsx. A day is its number from 1 January 1970, a Thursday; the
-- text that the source makes of a day is left to the platform.
pub mod Laws
use adms_server.Common.{
  ℕ, zero, suc, ◌+◌, ◌-◌, ◌*◌, ◌%◌, Bool, not, ◌&&◌, List, [], ◌∷◌, ltb, ◌==◌, if◌then◌else◌,
  length,
}

-- `d.getDay()`
abbrev pub get_day : ℕ → ℕ
get_day d = (d + 4) % 7

abbrev pub is_weekday : ℕ → Bool
is_weekday d = not (get_day d == 0) && not (get_day d == 6)

-- The rounds of the loop; the days before 1970 are not modelled, and the number stays at 0 there.
abbrev pub weekdays_loop : ℕ → ℕ → ℕ → List ℕ → List ℕ
weekdays_loop zero n d out = out
weekdays_loop (suc fuel) n d out =
    let rest = weekdays_loop fuel n (d - 1) (if is_weekday d then d ∷ out else out) in
    if ltb (length out) n then rest else out

-- `recentWeekdays(n)`, on some day: three rounds for each day are enough.
unfoldable pub recent_weekdays : ℕ → ℕ → List ℕ
recent_weekdays n today = weekdays_loop (3 * n) n today []
