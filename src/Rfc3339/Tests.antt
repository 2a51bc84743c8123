-- ===== src/Rfc3339/Tests.antt =====
-- Times of RFC 3339, parsed and formatted.
use cloudstorageapi.Prelude.{
  codes, arith, ◌≡◌, refl, ℤ, pos, ◌+ℤ◌, ◌-ℤ◌, scaled, leb, if◌then◌else◌,
}
use cloudstorageapi.Status.{StatusOrVal, value}
use cloudstorageapi.Rfc3339.RoundTrip.{parse_rfc3339-format_rfc3339}
use cloudstorageapi.Rfc3339.Calendar.{
  Tm, gmtime, timegm, seconds_of, days_in_year, days_before_year, is_leap, month_length,
  days_before_month,
}
use cloudstorageapi.Rfc3339.{parse_rfc3339, format_rfc3339, date_time_error, tm_of}
use cloudstorageapi.Rfc3339.Scan.{Bytes, scan_any, scan_char, scan_fields}

formatted : format_rfc3339 1526640000123000000 ≡ codes "2018-05-18T10:40:00.123Z"
unfolding format_rfc3339 gmtime days_in_year is_leap month_length
formatted = refl

abbrev hour_ahead : Tm → ℤ
hour_ahead t = pos 3600

abbrev parsed : Bytes → StatusOrVal ℤ
parsed = parse_rfc3339 hour_ahead 1500000000 "t"

parsed_fraction :
    parse_rfc3339 hour_ahead 1500000000 "t" (codes "2018-05-18T14:42:03.5+00:00")
    ≡ value (pos 1526654523500000000)
unfolding parse_rfc3339 scan_any scan_char scan_fields date_time_error tm_of gmtime timegm
    seconds_of days_in_year days_before_year is_leap month_length days_before_month ◌+ℤ◌ ◌-ℤ◌ scaled
parsed_fraction = refl

-- `sscanf` skips a blank before the digits, which RFC 3339 does not know.
parsed_blank :
    parse_rfc3339 hour_ahead 1500000000 "t" (codes "2018- 5-18T10:40: 3Z")
    ≡ value (pos 1526640003000000000)
unfolding parse_rfc3339 scan_any scan_char scan_fields date_time_error tm_of gmtime timegm
    seconds_of days_in_year days_before_year is_leap month_length days_before_month ◌+ℤ◌ ◌-ℤ◌ scaled
parsed_blank = refl

-- A zone that moved its clocks by an hour in 2018, years being counted from -1200.
abbrev moving : Tm → ℤ
moving t = if leb 3218 t.year then pos 7200 else pos 3600

-- What was printed in 2018 is an hour early to a program that started in 2017.
parse_rfc3339-format_rfc3339_example :
    parse_rfc3339 moving 1500000000 "t" (format_rfc3339 1526640000123000000)
    ≡ value (pos 1526636400123000000)
unfolding gmtime days_in_year is_leap month_length ◌+ℤ◌ ◌-ℤ◌ scaled
parse_rfc3339-format_rfc3339_example =
    parse_rfc3339-format_rfc3339 moving 1500000000 "t" 1526640000123000000 (omega arith)
