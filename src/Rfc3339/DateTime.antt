-- ===== src/Rfc3339/DateTime.antt =====
-- The date and the time: what `strftime` prints, `ParseDateTime` reads.
use cloudstorageapi.Prelude.{
  ℕ, ◌+◌, ◌-◌, ◌≡◌, refl, ap, ◌∙◌, ◌≤◌, ◌<◌, Bool, true, false, none, some, String, ◌∷◌, ◌++◌,
  arith, ◌==◌, length, if◌then◌else◌, ℤ, pos, ◌+ℤ◌, ltb_ℤ, ◌||◌, ◌&&◌, not,
}
use cloudstorageapi.Status.{value}
use cloudstorageapi.Rfc3339.Calendar.{Tm, year_zero, is_leap, month_length}
use cloudstorageapi.Rfc3339.Gmtime.{IsTm, month_length_bounds}
use cloudstorageapi.Rfc3339.Digits.{scan_int-padded, c_str-padded}
use cloudstorageapi.Rfc3339.{
  date_time_error, max_days_in_month, tm_of, parse_date_time, c_str, padded, format_date_time,
  shifted, report_error, scanned_date_time, checked_date_time, mktime,
}
use cloudstorageapi.Rfc3339.Scan.{Bytes, Fields, scan_char, scan_any, scan_fields}

-- The seven fields that `tm` fills, and what follows.
abbrev fields_of : Tm → Bytes → Fields
fields_of t rest = record {
  year = pos (t.year - year_zero);
  month = pos (t.month + 1);
  day = pos t.day;
  separator = b'T';
  hours = pos t.hour;
  minutes = pos t.minute;
  seconds = pos t.second;
  left = rest;
}

unfoldable pub date_time : Tm → Bytes → Bytes
date_time t rest =
    padded 4 (t.year - year_zero)
    ++ (b'-'
        ∷ (padded 2 (t.month + 1)
            ++ (b'-'
                ∷ (padded 2 t.day
                    ++ (b'T'
                        ∷ (padded 2 t.hour
                            ++ (b':'
                                ∷ (padded 2 t.minute ++ (b':' ∷ (padded 2 t.second ++ rest))))))))))

pub format_date_time-date_time :
    (t : Tm) (rest : Bytes) → format_date_time t ++ rest ≡ date_time t rest
unfolding format_date_time date_time padded
format_date_time-date_time t rest = refl

-- A date and time that four digits and the calendar can tell.
unfoldable pub IsPrintable : Tm → Type 0
IsPrintable t = IsTm t × (year_zero ≤ t.year) × (t.year < year_zero + 10000)

scan_fields-date_time :
    (t : Tm) (rest : Bytes)
    → IsPrintable t
    → scan_fields (date_time t rest) ≡ some (fields_of t rest)
unfolding scan_fields date_time scan_char scan_any IsPrintable
scan_fields-date_time t rest (is_tm, low, high) =
    let short = (month_length_bounds (is_leap t.year) t.month).1 in
    let days = is_tm.day_in.1 in
    let hours = is_tm.hour_in in
    let minutes = is_tm.minute_in in
    let seconds = is_tm.second_in in
    let months = is_tm.month_in in
    rw (scan_int-padded 3 (t.year - year_zero) _ (omega arith)) (
      rw (scan_int-padded 1 (t.month + 1) _ (omega arith)) (
        rw (scan_int-padded 1 t.day _ (omega arith)) (
          rw (scan_int-padded 1 t.hour _ (omega arith)) (
            rw (scan_int-padded 1 t.minute _ (omega arith))
              (rw (scan_int-padded 1 t.second rest (omega arith)) refl)))))

length-date_time : (t : Tm) (rest : Bytes) → length (date_time t rest) ≡ length rest + 19
unfolding date_time padded
length-date_time t rest = omega arith

pub c_str-date_time :
    (t : Tm) (rest : Bytes) → c_str rest ≡ rest → c_str (date_time t rest) ≡ date_time t rest
unfolding date_time c_str
c_str-date_time t rest h = rw (c_str-padded 4 (t.year - year_zero) _) (
    rw (c_str-padded 2 (t.month + 1) _) (
      rw (c_str-padded 2 t.day _) (
        rw (c_str-padded 2 t.hour _)
          (rw (c_str-padded 2 t.minute _) (rw (c_str-padded 2 t.second rest) (rw (h) refl))))))

max_days_in_month-month_length :
    (m : ℕ) → max_days_in_month (pos (m + 1)) ≡ pos (month_length true m)
unfolding max_days_in_month month_length
max_days_in_month-month_length m = ground arith

in_month : (m : ℕ) → m < 12 → (ltb_ℤ (pos (m + 1)) (pos 1) || ltb_ℤ (pos 12) (pos (m + 1))) ≡ false
in_month m h = ground arith

longest : (leap : Bool) (m : ℕ) → month_length leap m ≤ month_length true m
unfolding month_length
longest leap m = ground arith

in_days :
    (leap : Bool) (m d : ℕ)
    → (1 ≤ d) × (d ≤ month_length leap m)
    → (ltb_ℤ (pos d) (pos 1) || ltb_ℤ (max_days_in_month (pos (m + 1))) (pos d)) ≡ false
in_days leap m d h =
    rw (max_days_in_month-month_length m) (test (month_length true m) (longest leap m))
  where
    test :
        (k : ℕ) → month_length leap m ≤ k → (ltb_ℤ (pos d) (pos 1) || ltb_ℤ (pos k) (pos d)) ≡ false
    test k h' = ground arith

in_february :
    (leap : Bool) (m d : ℕ)
    → d ≤ month_length leap m
    → ((m + 1 == 2) && ltb_ℤ (pos 28) (pos d) && not leap) ≡ false
unfolding month_length
in_february leap m d h = ground arith

in_range : (h n : ℕ) → h < n → (ltb_ℤ (pos h) (pos 0) || not (ltb_ℤ (pos h) (pos n))) ≡ false
in_range h n lt = ground arith

in_minute : (s : ℕ) → s < 60 → (ltb_ℤ (pos s) (pos 0) || ltb_ℤ (pos 60) (pos s)) ≡ false
in_minute s lt = ground arith

shifted-year : (year : ℕ) → year_zero ≤ year → shifted (pos (year - year_zero)) ≡ year
unfolding ◌+ℤ◌
shifted-year year h = ground arith

date_time_error-fields_of :
    (t : Tm) (rest : Bytes) → IsPrintable t → date_time_error (fields_of t rest) ≡ none
unfolding date_time_error IsPrintable
date_time_error-fields_of t rest (is_tm, low, high) = rw (in_month t.month is_tm.month_in) (
    rw (in_days (is_leap t.year) t.month t.day is_tm.day_in) (
      rw (shifted-year t.year low) (
        rw (in_february (is_leap t.year) t.month t.day is_tm.day_in.1) (
          rw (in_range t.hour 24 is_tm.hour_in) (
            rw (in_range t.minute 60 is_tm.minute_in)
              (rw (in_minute t.second is_tm.second_in) refl))))))

tm_of-fields_of : (t : Tm) (rest : Bytes) → IsPrintable t → tm_of (fields_of t rest) ≡ t
unfolding tm_of IsPrintable
tm_of-fields_of t rest (is_tm, low, high) = rw (shifted-year t.year low) (
    ap
      (λ m. record {
        year = t.year;
        month = m;
        day = t.day;
        hour = t.hour;
        minute = t.minute;
        second = t.second;
      })
      (omega arith))

same : (m n : ℕ) → m ≡ n → (m == n) ≡ true
same m n e = ground arith

pub parse_date_time-date_time :
    (zone : Tm → ℤ) (timestamp : String) (t : Tm) (rest : Bytes)
    → IsPrintable t
    → parse_date_time zone timestamp (date_time t rest) ≡ value (mktime zone t, rest)
unfolding parse_date_time
parse_date_time-date_time zone timestamp t rest h =
    ap (scanned_date_time zone timestamp (date_time t rest)) (scan_fields-date_time t rest h)
    ∙ ap
        (λ b.
          if not b
          then report_error timestamp
              "Invalid format for RFC 3339 timestamp detected while parsing the base date and time portion."
          else checked_date_time zone timestamp (fields_of t rest)
              (date_time_error (fields_of t rest)))
        (same (length (date_time t rest)) (length rest + 19) (length-date_time t rest))
    ∙ ap (checked_date_time zone timestamp (fields_of t rest)) (date_time_error-fields_of t rest h)
    ∙ ap (λ u. value (mktime zone u, rest)) (tm_of-fields_of t rest h)
