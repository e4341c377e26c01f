-- ===== src/Overview/Weekdays/Laws.antt =====
-- The days that the week's chart asks for.
use adms_server.Common.{
  ℕ, zero, suc, ◌+◌, ◌-◌, ◌*◌, ◌≤◌, ◌<◌, ◌≡◌, refl, inl, inr, List, [], ◌∷◌, arith, ltb, ◌==◌,
  if◌then◌else◌, Bool-cases, length, filter,
}
use adms_server.Overview.Weekdays.{get_day, is_weekday, weekdays_loop, recent_weekdays}

-- The next days after a day, in order.
abbrev days_after : ℕ → ℕ → List ℕ
days_after d zero = []
days_after d (suc k) = suc d ∷ days_after (suc d) k

-- How many days to go back to a weekday.
abbrev to_weekday : ℕ → ℕ
to_weekday d = if get_day d == 0 then 2 else if get_day d == 6 then 1 else 0

-- What the loop gives when it ends by its test: the weekdays of some last days, as many as asked.
abbrev pub LastWeekdays : ℕ → ℕ → List ℕ → Type 0
LastWeekdays n today out =
    (m : ℕ) × (k : ℕ) × (m + k ≡ today)
    × (out ≡ filter is_weekday (days_after m k))
    × (length out ≡ n)

loop-LastWeekdays :
    (fuel n d k : ℕ) (out : List ℕ) (today : ℕ)
    → d + k ≡ today
    → out ≡ filter is_weekday (days_after d k)
    → length out ≤ n
    → fuel ≤ d
    → (length out < n → 3 * (n - length out) + to_weekday d ≤ fuel + 2)
    → LastWeekdays n today (weekdays_loop fuel n d out)
loop-LastWeekdays zero n d k out today sum same few deep enough = (d, k, sum, same, ground arith)
loop-LastWeekdays (suc fuel) n zero k out today sum same few deep enough = absurd (omega arith)
loop-LastWeekdays (suc fuel) n (suc d) k out today sum same few deep enough =
    let before : suc d - 1 ≡ d = omega arith in
    elim (Bool-cases (ltb (length out) n)) [
      | inr done ↦ rw done (suc d, k, sum, same, ground arith)
      | inl more ↦ elim (Bool-cases (is_weekday (suc d))) [
        | inl day ↦
            rw (more, day, before)
              (loop-LastWeekdays fuel n d (suc k) (suc d ∷ out) today (omega arith) (ground arith)
                (ground arith) (omega arith) (λ h. ground arith))
        | inr end ↦
            rw (more, end, before)
              (loop-LastWeekdays fuel n d (suc k) out today (omega arith) (ground arith) few
                (omega arith) (λ h. ground arith))
      ]
    ]

-- On a day with at least three days since 1970 for each weekday that is asked for, the loop ends,
-- and what it gives are all weekdays of some last days up to that day, in order, and as many as
-- were asked for.
pub recent_weekdays_lem :
    (n today : ℕ) → 3 * n ≤ today → LastWeekdays n today (recent_weekdays n today)
unfolding recent_weekdays
recent_weekdays_lem n today late =
    loop-LastWeekdays (3 * n) n today 0 [] today (omega arith) refl (omega arith) late
      (λ h. ground arith)
