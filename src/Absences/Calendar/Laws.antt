-- ===== src/Absences/Calendar/Laws.antt =====
-- The calendar's months, and the filling.
use adms_server.Common.{
  ℕ, zero, suc, ◌+◌, ◌-◌, ◌<◌, String, Bool, true, false, not, List, [], ◌∷◌, ◌++◌, ◌≡◌, refl, sym,
  ap, ◌∙◌, ◌⊎◌, inl, inr, arith, filter, map, any, str_eq, eq_iff, All, Bool-cases, ◌||◌,
}
use adms_server.Absences.Calendar.{
  YearMonth, shift_next, shift_back, has_date, dated, fixed_holidays, fill_fixed,
}

same_month : {a b c d : ℕ} → a ≡ c → b ≡ d → ◌≡◌ {A = YearMonth} (a, b) (c, d)
same_month e f = rw (e, f) refl

next_within : (year month : ℕ) → month + 1 < 12 → shift_next (year, month) ≡ (year, suc month)
unfolding shift_next
next_within year month h = same_month (omega arith) (omega arith)

back_within : (year m : ℕ) → m < 12 → shift_back (year, suc m) ≡ (year, m)
unfolding shift_back
back_within year m h = same_month (omega arith) (omega arith)

-- The last month is followed by the next year's first one.
next_last : (year month : ℕ) → month ≡ 11 → shift_next (year, month) ≡ (suc year, 0)
unfolding shift_next
next_last year month h = same_month (omega arith) (omega arith)

next_back :
    (year month : ℕ) → 0 < year → month < 12 → shift_next (shift_back (year, month)) ≡ (year, month)
unfolding shift_back
next_back zero month h k = absurd (omega arith)
next_back (suc year) zero h k = next_last (suc year - 1) 11 refl ∙ same_month (omega arith) refl
next_back (suc year) (suc m) h k =
    ap shift_next (back_within (suc year) m (omega arith)) ∙ next_within (suc year) m (omega arith)

back_next : (year month : ℕ) → month < 12 → shift_back (shift_next (year, month)) ≡ (year, month)
unfolding shift_back
back_next year month k = elim (last_or month k) [
  | inl e ↦ ap shift_back (next_last year month e) ∙ same_month (omega arith) (sym e)
  | inr h ↦ ap shift_back (next_within year month h) ∙ back_within year month k
]
  where
    last_or : (m : ℕ) → m < 12 → (m ≡ 11) ⊎ (m + 1 < 12)
    last_or m h = omega arith

back_in_year : (year month : ℕ) → month < 12 → (shift_back (year, month)).1 < 12
unfolding shift_back
back_in_year year zero h = omega arith
back_in_year year (suc m) h = omega arith

-- From a month of a year after the year 0, one month on and one month back lead to the same month
-- again, in both orders, and both stay within the twelve months.
shift_roundtrip :
    (year month : ℕ)
    → 0 < year
    → month < 12
    → (shift_back (shift_next (year, month)) ≡ (year, month))
      × (shift_next (shift_back (year, month)) ≡ (year, month))
      × ((shift_next (year, month)).1 < 12)
      × ((shift_back (year, month)).1 < 12)
unfolding shift_next shift_back
shift_roundtrip year month some_year in_year = (
  back_next year month in_year,
  next_back year month some_year in_year,
  unfold shift_next in omega arith,
  back_in_year year month in_year,
)

any-append {ℓ} :
    {A : Type ℓ} (p : A → Bool) (xs ys : List A) → any p (xs ++ ys) ≡ (any p xs || any p ys)
any-append p [] ys = refl
any-append p (x ∷ xs) ys = rw (any-append p xs ys) (ground arith)

abbrev missing : List (String × String) → List (String × String) → List (String × String)
missing known hs = filter (λ h. not (has_date known h.0)) hs

-- Filling with what is missing leaves nothing missing.
missing_or :
    (known hs : List (String × String)) (d : String)
    → has_date hs d ≡ true
    → (has_date (missing known hs) d ≡ true) ⊎ (has_date known d ≡ true)
missing_or known [] d h = cc
missing_or known ((k, n) ∷ hs) d h = elim (Bool-cases (str_eq d k)) [
  | inl e ↦
      let same : d ≡ k = (eq_iff d k).0 e in
      elim (Bool-cases (has_date known k)) [
        | inl there ↦ inr (rw same there)
        | inr absent ↦ inl (rw (absent, e) refl)
      ]
  | inr e ↦ ground (arith, missing_or known hs d (rw e at h))
]

has_filled :
    (known hs : List (String × String)) (d : String)
    → has_date hs d ≡ true
    → has_date (missing known hs ++ known) d ≡ true
has_filled known hs d h =
    ground (arith, missing_or known hs d h, any-append (λ x. str_eq d x.0) (missing known hs) known)

has_all :
    (known hs : List (String × String))
    → ((d : String) → has_date hs d ≡ true → has_date known d ≡ true)
    → missing known hs ≡ []
has_all known [] h = refl
has_all known ((k, n) ∷ hs) h =
    let here : has_date known k ≡ true = h k (ground (arith, eq_iff k k)) in
    rw here (has_all known hs (λ d e. h d (ground arith)))

missing-All :
    (known hs : List (String × String)) → All (λ h. has_date known h.0 ≡ false) (missing known hs)
missing-All known [] = tt
missing-All known ((k, n) ∷ hs) = elim (Bool-cases (has_date known k)) [
  | inl e ↦ rw e (missing-All known hs)
  | inr e ↦ rw e (e, missing-All known hs)
]

-- Filling a year twice makes no call the second time, and filling never sets a date again that has a
-- holiday already.
fill_fixed_once :
    (year : ℕ) (known : List (String × String))
    → (fill_fixed year (fill_fixed year known ++ known) ≡ [])
      × All (λ h. has_date known h.0 ≡ false) (fill_fixed year known)
unfolding fill_fixed
fill_fixed_once year known = (
  has_all _ (map (dated year) fixed_holidays) (has_filled known (map (dated year) fixed_holidays)),
  missing-All known (map (dated year) fixed_holidays),
)
