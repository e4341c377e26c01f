-- ===== src/Absences/Calendar.antt =====
-- `HolidayManager` of pages/Absences.tsx: the month that is shown, and the filling of a year with the
-- holidays of fixed dates.
pub mod Laws
use adms_server.Common.{
  ℕ, zero, suc, ◌+◌, ◌-◌, ◌/◌, ◌%◌, String, Bool, not, List, [], ◌∷◌, filter, map, any, str_eq,
}
use adms_server.Common.Text.{of_ℕ, ◌+++◌}

-- The year and the month, counted from 0.
abbrev pub YearMonth : Type 0
YearMonth = ℕ × ℕ

-- `shift(1)`
unfoldable pub shift_next : YearMonth → YearMonth
shift_next (year, month) = (year + (month + 1) / 12, (month + 1) % 12)

-- `shift(-1)`: at month 0, `Math.floor` of -1 twelfths is -1, and the remainder is moved to 11. Years
-- are natural numbers, so the year 0 stands for those before it.
unfoldable pub shift_back : YearMonth → YearMonth
shift_back (year, zero) = (year - 1, 11)
shift_back (year, suc m) = (year + m / 12, m % 12)

-- `FIXED_HOLIDAYS`: the month and the day, and the Thai name.
abbrev pub fixed_holidays : List (String × String)
fixed_holidays =
    ("01-01", "วันขึ้นปีใหม่")
    ∷ ("04-06", "วันจักรี")
    ∷ ("04-13", "วันสงกรานต์")
    ∷ ("04-14", "วันสงกรานต์")
    ∷ ("04-15", "วันสงกรานต์")
    ∷ ("05-04", "วันฉัตรมงคล")
    ∷ ("06-03", "วันเฉลิมพระชนมพรรษาสมเด็จพระราชินี")
    ∷ ("07-28", "วันเฉลิมพระชนมพรรษา ร.10")
    ∷ ("08-12", "วันแม่แห่งชาติ")
    ∷ ("10-13", "วันนวมินทรมหาราช")
    ∷ ("10-23", "วันปิยมหาราช")
    ∷ ("12-05", "วันพ่อแห่งชาติ")
    ∷ ("12-10", "วันรัฐธรรมนูญ")
    ∷ ("12-31", "วันสิ้นปี")
    ∷ []

-- `byDate.has(d)`
abbrev pub has_date : List (String × String) → String → Bool
has_date known d = any (λ h. str_eq d h.0) known

abbrev pub dated : ℕ → String × String → String × String
dated year (md, name) = (of_ℕ year +++ "-" +++ md, name)

-- `fillFixed`: the calls of `setHoliday` that it makes when all are accepted, from the holidays that
-- are known.
unfoldable pub fill_fixed : ℕ → List (String × String) → List (String × String)
fill_fixed year known = filter (λ h. not (has_date known h.0)) (map (dated year) fixed_holidays)
