-- ===== src/Rfc3339/Calendar.antt =====
-- The calendar of the C library: `timegm`, that is `mktime` in UTC, and `gmtime_r`. Years are counted
-- from the year -1200, which is three cycles of the calendar before the year 0, so that those that a
-- text of four characters can tell are not negative.
use cloudstorageapi.Prelude.{
  ℕ, zero, suc, ◌+◌, ◌-◌, ◌*◌, ◌/◌, ◌%◌, ◌≡◌, refl, Bool, not, ◌&&◌, ◌||◌, ◌==◌, ltb, if◌then◌else◌,
  ℤ, pos, ◌-ℤ◌,
}

abbrev pub year_zero : ℕ
year_zero = 1200

-- `IsLeapYear`.
unfoldable pub is_leap : ℕ → Bool
is_leap year = (year % 4 == 0) && (not (year % 100 == 0) || (year % 400 == 0))

unfoldable pub days_in_year : ℕ → ℕ
days_in_year year = if is_leap year then 366 else 365

unfoldable pub days_before_year : ℕ → ℕ
days_before_year zero = 0
days_before_year (suc year) = days_before_year year + days_in_year year

-- Months are counted from 0.
unfoldable pub month_length : Bool → ℕ → ℕ
month_length leap month =
    if month == 1
    then (if leap then 29 else 28)
    else if (month == 3) || (month == 5) || (month == 8) || (month == 10)
    then 30
    else 31

unfoldable pub days_before_month : Bool → ℕ → ℕ
days_before_month leap zero = 0
days_before_month leap (suc month) = days_before_month leap month + month_length leap month

-- `struct tm`, with `month` and `day` as `tm_mon` and `tm_mday`.
pub record Tm : Type 0 where
  pub year : ℕ
  pub month : ℕ
  pub day : ℕ
  pub hour : ℕ
  pub minute : ℕ
  pub second : ℕ

-- The days from the first of all years to 1970.
abbrev pub epoch_days : ℕ
epoch_days = 1157819

epoch_is_1970 : days_before_year (year_zero + 1970) ≡ epoch_days
unfolding days_before_year days_in_year is_leap
epoch_is_1970 = refl

unfoldable pub seconds_of : Tm → ℕ
seconds_of t =
    (days_before_year t.year + days_before_month (is_leap t.year) t.month + (t.day - 1)) * 86400
    + (t.hour * 3600 + t.minute * 60 + t.second)

unfoldable pub timegm : Tm → ℤ
timegm t = pos (seconds_of t) -ℤ pos (epoch_days * 86400)

-- The year and the day in it, from the day number, and likewise the month.
unfoldable pub find_year : ℕ → ℕ → ℕ → ℕ × ℕ
find_year zero year d = (year, d)
find_year (suc fuel) year d =
    let rest = find_year fuel (suc year) (d - days_in_year year) in
    if ltb d (days_in_year year) then (year, d) else rest

unfoldable pub find_month : Bool → ℕ → ℕ → ℕ → ℕ × ℕ
find_month leap zero month d = (month, d)
find_month leap (suc fuel) month d =
    let rest = find_month leap fuel (suc month) (d - month_length leap month) in
    if ltb d (month_length leap month) then (month, d) else rest

unfoldable pub date_of : ℕ → ℕ × ℕ → ℕ × ℕ → Tm
date_of t (year, d) (month, e) = record {
  year = year;
  month = month;
  day = suc e;
  hour = t % 86400 / 3600;
  minute = t % 3600 / 60;
  second = t % 60;
}

-- For a time that is not before 1970.
unfoldable pub gmtime : ℕ → Tm
unfolding date_of find_year find_month
gmtime t =
    let days = t / 86400 + epoch_days in
    let year = find_year (days / 365 + 1) 0 days in
    date_of t year (find_month (is_leap year.0) 12 0 year.1)
