-- ===== src/Rfc3339/Years.antt =====
-- The years of the times that 64 bits of nanoseconds hold: four digits tell them.
use cloudstorageapi.Prelude.{ℕ, zero, suc, ◌+◌, ◌*◌, ◌≤◌, ◌<◌, Bool, arith}
use cloudstorageapi.Rfc3339.Calendar.{
  Tm, gmtime, is_leap, year_zero, seconds_of, days_before_year, days_before_month,
}
use cloudstorageapi.Rfc3339.Gmtime.{
  IsGmtime, gmtime-IsGmtime, days_in_year_bounds, month_length_bounds,
}

days_before_year_bounds :
    (year : ℕ) → (365 * year ≤ days_before_year year) × (days_before_year year ≤ 366 * year)
unfolding days_before_year
days_before_year_bounds zero = (omega arith, omega arith)
days_before_year_bounds (suc year) =
    let (low, high) = days_before_year_bounds year in
    let (short, long) = days_in_year_bounds year in (omega arith, omega arith)

days_before_month_bound : (leap : Bool) (month : ℕ) → days_before_month leap month ≤ 31 * month
unfolding days_before_month
days_before_month_bound leap zero = omega arith
days_before_month_bound leap (suc month) =
    omega (arith, days_before_month_bound leap month, month_length_bounds leap month)

years_of :
    (t : ℕ) (m : Tm)
    → t < 10000000000
    → IsGmtime t m
    → (year_zero ≤ m.year) × (m.year < year_zero + 10000)
unfolding IsGmtime seconds_of
years_of t m h (is_tm, sum) =
    let (low, high) = days_before_year_bounds m.year in
    let before = days_before_month_bound (is_leap m.year) m.month in
    let small = is_tm.month_in in
    let last = is_tm.day_in.1 in
    let length = (month_length_bounds (is_leap m.year) m.month).1 in
    let hour = is_tm.hour_in in
    let minute = is_tm.minute_in in let second = is_tm.second_in in (omega arith, omega arith)

pub gmtime_year :
    (t : ℕ)
    → t < 10000000000
    → (year_zero ≤ (gmtime t).year) × ((gmtime t).year < year_zero + 10000)
gmtime_year t h = years_of t (gmtime t) h (gmtime-IsGmtime t)
