-- ===== src/Overview/Tests.antt =====
-- The week before a Monday.
use adms_server.Common.{◌≡◌, refl, [], ◌∷◌, arith}
use adms_server.Overview.Weekdays.{recent_weekdays}
use adms_server.Overview.Weekdays.Laws.{LastWeekdays, recent_weekdays_lem}

recent_weekdays_lem_example : LastWeekdays 7 20458 (recent_weekdays 7 20458)
recent_weekdays_lem_example = recent_weekdays_lem 7 20458 (omega arith)

-- Day 20458 is Monday, the 5th of January 2026.
recent_run : recent_weekdays 7 20458 ≡ 20448 ∷ 20451 ∷ 20452 ∷ 20453 ∷ 20454 ∷ 20455 ∷ 20458 ∷ []
unfolding recent_weekdays
recent_run = refl
