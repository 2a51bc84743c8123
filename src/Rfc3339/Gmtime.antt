-- ===== src/Rfc3339/Gmtime.antt =====
-- `gmtime` gives dates of the calendar, and `timegm` takes them back.
use cloudstorageapi.Prelude.{
  ℕ, zero, suc, ◌+◌, ◌-◌, ◌*◌, ◌/◌, ◌≡◌, refl, ap, ◌∙◌, subst, ◌≤◌, ◌<◌, Bool, true, false, arith,
  inl, inr, Bool-cases, ltb, ltb→lt, not-ltb→le, if◌then◌else◌, pos, -ℤ_parts, eq_of_parts,
}
use cloudstorageapi.Rfc3339.Calendar.{
  is_leap, days_in_year, days_before_year, month_length, days_before_month, Tm, epoch_days,
  seconds_of, timegm, find_year, find_month, date_of, gmtime,
}

pub days_in_year_bounds : (year : ℕ) → (365 ≤ days_in_year year) × (days_in_year year ≤ 366)
unfolding days_in_year
days_in_year_bounds year = ground arith

abbrev IsYearOf : ℕ → ℕ × ℕ → Type 0
IsYearOf n (year, d) = (days_before_year year + d ≡ n) × (d < days_in_year year)

find_year-IsYearOf :
    (fuel year d : ℕ)
    → d < fuel * 365
    → IsYearOf (days_before_year year + d) (find_year fuel year d)
unfolding find_year days_before_year
find_year-IsYearOf zero year d h = absurd (omega arith)
find_year-IsYearOf (suc fuel) year d h = elim (Bool-cases (ltb d (days_in_year year))) [
  | inl l ↦ rw (l) (refl, ltb→lt d (days_in_year year) l)
  | inr l ↦ rw (l) (
      let le = not-ltb→le d (days_in_year year) l in
      let (sum, within) =
        find_year-IsYearOf fuel (suc year) (d - days_in_year year)
          (omega (arith, le, days_in_year_bounds year)) in
      (omega (arith, sum, le), within))
]

pub month_length_bounds :
    (leap : Bool) (month : ℕ) → (1 ≤ month_length leap month) × (month_length leap month ≤ 31)
unfolding month_length
month_length_bounds leap month = ground arith

lengths : (b : Bool) → days_before_month b 12 ≡ (if b then 366 else 365)
unfolding days_before_month month_length
lengths true = refl
lengths false = refl

-- The months of a year.
year_length : (year : ℕ) → days_before_month (is_leap year) 12 ≡ days_in_year year
unfolding days_in_year
year_length year = lengths (is_leap year)

abbrev IsMonthOf : Bool → ℕ → ℕ × ℕ → Type 0
IsMonthOf leap n (month, d) =
    (days_before_month leap month + d ≡ n) × (d < month_length leap month) × (month < 12)

find_month-IsMonthOf :
    (leap : Bool) (fuel month d : ℕ)
    → month + fuel ≡ 12
    → days_before_month leap month + d < days_before_month leap 12
    → IsMonthOf leap (days_before_month leap month + d) (find_month leap fuel month d)
unfolding find_month days_before_month
find_month-IsMonthOf leap zero month d e h =
    absurd (omega (arith, ap (days_before_month leap) (add_zero month ∙ e)))
  where
    add_zero : (n : ℕ) → n ≡ n + 0
    add_zero n = omega arith
find_month-IsMonthOf leap (suc fuel) month d e h =
    elim (Bool-cases (ltb d (month_length leap month))) [
      | inl l ↦ rw (l) (refl, ltb→lt d (month_length leap month) l, omega arith)
      | inr l ↦ rw (l) (
          let le = not-ltb→le d (month_length leap month) l in
          let (sum, within, small) =
            find_month-IsMonthOf leap fuel (suc month) (d - month_length leap month) (omega arith)
              (omega (arith, le)) in
          (omega (arith, sum, le), within, small))
    ]

-- What a `tm` of the calendar is.
pub record IsTm (t : Tm) : Type 0 where
  pub month_in : t.month < 12
  pub day_in : (1 ≤ t.day) × (t.day ≤ month_length (is_leap t.year) t.month)
  pub hour_in : t.hour < 24
  pub minute_in : t.minute < 60
  pub second_in : t.second < 60

unfoldable pub IsGmtime : ℕ → Tm → Type 0
IsGmtime t m = IsTm m × (seconds_of m ≡ t + epoch_days * 86400)

date_of-IsGmtime :
    (t n : ℕ) (year month : ℕ × ℕ)
    → n ≡ t / 86400 + epoch_days
    → IsYearOf n year
    → IsMonthOf (is_leap year.0) year.1 month
    → IsGmtime t (date_of t year month)
unfolding IsGmtime date_of seconds_of
date_of-IsGmtime t n (year, d) (month, e) h (sum, within) (sum', within', small) = (
  record {
    month_in = small;
    day_in = (omega arith, within');
    hour_in = omega arith;
    minute_in = omega arith;
    second_in = omega arith;
  },
  omega (arith, sum, sum', h),
)

-- Nothing is before the first year and the first month.
no_year : days_before_year 0 ≡ 0
unfolding days_before_year
no_year = refl

no_month : (leap : Bool) → days_before_month leap 0 ≡ 0
unfolding days_before_month
no_month leap = refl

pub gmtime-IsGmtime : (t : ℕ) → IsGmtime t (gmtime t)
unfolding gmtime
gmtime-IsGmtime t = date_of-IsGmtime t days year month refl year_found month_found
  where
    days : ℕ
    days = t / 86400 + epoch_days

    year : ℕ × ℕ
    year = find_year (days / 365 + 1) 0 days

    month : ℕ × ℕ
    month = find_month (is_leap year.0) 12 0 year.1

    year_found : IsYearOf days year
    year_found =
        subst (λ k. IsYearOf k year) (omega (arith, no_year))
          (find_year-IsYearOf (days / 365 + 1) 0 days (omega arith))

    month_found : IsMonthOf (is_leap year.0) year.1 month
    month_found =
        subst (λ k. IsMonthOf (is_leap year.0) k month) (omega (arith, no_month (is_leap year.0)))
          (find_month-IsMonthOf (is_leap year.0) 12 0 year.1 (omega arith)
            (omega (arith, no_month (is_leap year.0), year_found.1, year_length year.0)))

-- `gmtime` gives a date and time of the calendar, and `timegm` gives the time back.
pub timegm-gmtime : (t : ℕ) → IsTm (gmtime t) × (timegm (gmtime t) ≡ pos t)
unfolding timegm IsGmtime
timegm-gmtime t =
    let (is_tm, sum) = gmtime-IsGmtime t in
    (
      is_tm,
      eq_of_parts _ (pos t)
          (omega (arith, sum, -ℤ_parts (pos (seconds_of (gmtime t))) (pos (epoch_days * 86400)))),
    )
