-- ===== src/Absences/Register/Laws.antt =====
-- The page number over the events.
use adms_server.Common.{
  ℕ, ◌*◌, ◌≤◌, ◌<◌, Bool, false, List, [], ◌∷◌, ◌≡◌, refl, ◌⊎◌, inl, arith, All,
}
use adms_server.Absences.Register.{
  Filters, RegisterState, RegisterEvent, set_scope, set_show_cancelled, set_search, back, next,
  register_step, register_run, limit, has_pager,
}

-- The page holds a record, or it is the first one.
abbrev InRange : (Filters → ℕ) → RegisterState → Type 0
InRange total s = (s.page ≡ 0) ⊎ (s.page * limit < total s.filters)

-- An event other than the box for cancelled records.
abbrev KeepsCancelled : RegisterEvent → Type 0
KeepsCancelled (set_show_cancelled v) = ⊥
KeepsCancelled (set_scope v) = Unit
KeepsCancelled (set_search v) = Unit
KeepsCancelled back = Unit
KeepsCancelled next = Unit

step-InRange :
    (total : Filters → ℕ) (s : RegisterState) (e : RegisterEvent)
    → KeepsCancelled e
    → InRange total s
    → InRange total (register_step total s e)
unfolding register_step
step-InRange total s (set_scope v) k h = inl refl
step-InRange total s (set_show_cancelled v) k h = absurd k
step-InRange total s (set_search v) k h = inl refl
step-InRange total s back k h = ground arith
step-InRange total s next k h = ground arith

-- As long as the box for cancelled records is not touched, no events lead to a page behind the last
-- record: the page is the first one, or it begins before the server's count for the filters.
page-InRange :
    (total : Filters → ℕ) (s : RegisterState) (es : List RegisterEvent)
    → InRange total s
    → All KeepsCancelled es
    → InRange total (register_run total s es)
unfolding register_run
page-InRange total s [] h k = h
page-InRange total s (e ∷ es) h (first, rest) =
    page-InRange total (register_step total s e) es (step-InRange total s e first h) rest

-- The box for cancelled records keeps the page: if the page is not the first one and the records left
-- fit on one page, the page is behind them all, and both page buttons are gone, so that neither
-- changes anything.
page_stuck :
    (total : Filters → ℕ) (s : RegisterState) (v : Bool)
    → 0 < s.page
    → total (register_step total s (set_show_cancelled v)).filters ≤ limit
    → let left = register_step total s (set_show_cancelled v) in
      (total left.filters ≤ left.page * limit)
      × (has_pager (total left.filters) ≡ false)
      × (register_step total left back ≡ left)
      × (register_step total left next ≡ left)
unfolding register_step
page_stuck total s v h few = (ground arith, ground arith, ground arith, ground arith)
