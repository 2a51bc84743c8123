-- ===== src/Rfc3339.antt =====
-- Times of RFC 3339: src/rfc3339_time.cpp. A text is the list of its bytes. A time is a number of
-- nanoseconds since the epoch, as the system clock of libstdc++ counts them, but without a bound;
-- times before the epoch are parsed, and are not formatted here. The calendar of the C library is in
-- Rfc3339.Calendar. What the C library knows of the zone of the process is a parameter: how many
-- seconds standard time is ahead of UTC at a local date, as both calls of `mktime` ask for standard
-- time (`tm_isdst` is 0).
pub mod Scan
pub mod Calendar
pub mod Gmtime
pub mod Digits
pub mod Years
pub mod Fraction
pub mod DateTime
pub mod RoundTrip
mod Tests
use cloudstorageapi.Prelude.{
  ℕ, zero, suc, ◌+◌, ◌-◌, ◌*◌, ◌/◌, ◌%◌, Bool, true, false, not, ◌&&◌, ◌||◌, Option, none, some,
  String, List, [], ◌∷◌, ◌++◌, concat, ◌==◌, leb, ltb, length, if◌then◌else◌, ℤ, pos, negsuc,
  pos_part, ◌+ℤ◌, ◌-ℤ◌, scaled, ltb_ℤ,
}
use cloudstorageapi.Status.{Status, StatusOrVal, value, failure, invalid_argument}
use cloudstorageapi.Rfc3339.Scan.{
  Bytes, is_space, is_digit, positive, scan_digits, skip_space, scan_sign, scan_int, scan_char,
  scan_any, ◌>>=◌, Fields, scan_fields,
}
use cloudstorageapi.Rfc3339.Calendar.{Tm, is_leap, year_zero, timegm, gmtime}

-- `ReportError`.
abbrev pub report_error : {A : Type 0} → String → String → StatusOrVal A
report_error timestamp msg = failure (record {
  code = invalid_argument;
  message = concat (
      "Error parsing RFC 3339 timestamp: " ∷ msg
      ∷ " Valid format is YYYY-MM-DD[Tt]HH:MM:SS[.s+](Z|[+-]HH:MM), got=" ∷ timestamp ∷ []);
})

-- `MaxDaysInMonth`, with 29 days for February, at a month from 1 on.
unfoldable pub max_days_in_month : ℤ → ℤ
max_days_in_month month =
    let m = pos_part month in
    if m == 2
    then pos 29
    else if (m == 4) || (m == 6) || (m == 9) || (m == 11)
    then pos 30
    else pos 31

-- The year as the calendar counts it.
abbrev pub shifted : ℤ → ℕ
shifted year = pos_part (year +ℤ pos year_zero)

-- The tests of `ParseDateTime`: the message of the first that fails.
unfoldable pub date_time_error : Fields → Option String
unfolding max_days_in_month
date_time_error f =
    if not (f.separator == b'T') && not (f.separator == b't')
    then some "Invalid date-time separator, expected 'T' or 't'."
    else if ltb_ℤ f.month (pos 1) || ltb_ℤ (pos 12) f.month
    then some "Out of range month."
    else if ltb_ℤ f.day (pos 1) || ltb_ℤ (max_days_in_month f.month) f.day
    then some "Out of range day for given month."
    else if (pos_part f.month == 2) && ltb_ℤ (pos 28) f.day && not (is_leap (shifted f.year))
    then some "Out of range day for given month."
    else if ltb_ℤ f.hours (pos 0) || not (ltb_ℤ f.hours (pos 24))
    then some "Out of range hour."
    else if ltb_ℤ f.minutes (pos 0) || not (ltb_ℤ f.minutes (pos 60))
    then some "Out of range minute."
    else if ltb_ℤ f.seconds (pos 0) || ltb_ℤ (pos 60) f.seconds
    then some "Out of range second."
    else none

-- The `tm` that `ParseDateTime` fills; its fields are not negative after the tests.
unfoldable pub tm_of : Fields → Tm
tm_of f = record {
  year = shifted f.year;
  month = pos_part f.month - 1;
  day = pos_part f.day;
  hour = pos_part f.hours;
  minute = pos_part f.minutes;
  second = pos_part f.seconds;
}

-- `mktime`, in a zone that is `zone t` seconds ahead of UTC at the local date `t`.
abbrev pub mktime : (Tm → ℤ) → Tm → ℤ
mktime zone t = timegm t -ℤ zone t

abbrev pub checked_date_time : (Tm → ℤ) → String → Fields → Option String → StatusOrVal (ℤ × Bytes)
checked_date_time zone timestamp f (some msg) = report_error timestamp msg
checked_date_time zone timestamp f none = value (mktime zone (tm_of f), f.left)

abbrev pub scanned_date_time : (Tm → ℤ) → String → Bytes → Option Fields → StatusOrVal (ℤ × Bytes)
scanned_date_time zone timestamp s none =
    report_error timestamp
      "Invalid format for RFC 3339 timestamp detected while parsing the base date and time portion."
scanned_date_time zone timestamp s (some f) =
    if not (length s == length f.left + 19)
    then report_error timestamp
        "Invalid format for RFC 3339 timestamp detected while parsing the base date and time portion."
    else checked_date_time zone timestamp f (date_time_error f)

-- `ParseDateTime`: seconds, and what is left.
unfoldable pub parse_date_time : (Tm → ℤ) → String → Bytes → StatusOrVal (ℤ × Bytes)
unfolding scan_fields date_time_error tm_of
parse_date_time zone timestamp s = scanned_date_time zone timestamp s (scan_fields s)

-- The loop that makes nanoseconds of the digits.
unfoldable pub times_ten : ℕ → ℤ → ℤ
times_ten zero z = z
times_ten (suc n) z = times_ten n (scaled 10 z)

unfoldable pub skip_digits : Bytes → Bytes
skip_digits [] = []
skip_digits (c ∷ s) = let more = skip_digits s in if is_digit c then more else c ∷ s

abbrev pub fraction_of : String → Bytes → Option (ℤ × Bytes) → StatusOrVal (ℤ × Bytes)
fraction_of timestamp s none = report_error timestamp "Invalid fractional seconds component."
fraction_of timestamp s (some (z, rest)) =
    value (times_ten (9 - (length s - length rest)) z, skip_digits rest)

-- `ParseFractionalSeconds`.
unfoldable pub parse_fractional_seconds : String → Bytes → StatusOrVal (ℤ × Bytes)
unfolding scan_int times_ten skip_digits
parse_fractional_seconds timestamp [] = value (pos 0, [])
parse_fractional_seconds timestamp (c ∷ s) =
    if not (c == b'.') then value (pos 0, c ∷ s) else fraction_of timestamp s (scan_int 9 s)

-- `"%2d:%2d%n"`.
scan_offset : Bytes → Option (ℤ × ℤ × Bytes)
unfolding scan_int scan_char
scan_offset s0 = do
  (hours, s1) ← scan_int 2 s0
  s2 ← scan_char b':' s1
  (minutes, s3) ← scan_int 2 s2
  some (hours, minutes, s3)

abbrev offset_of : String → Bool → Bytes → Option (ℤ × ℤ × Bytes) → StatusOrVal (ℤ × Bytes)
offset_of timestamp plus s none =
    report_error timestamp "Invalid timezone offset, expected [+-]HH:MM."
offset_of timestamp plus s (some (hours, minutes, rest)) =
    let seconds = scaled 3600 hours +ℤ scaled 60 minutes in
    if not (length s == length rest + 5)
    then report_error timestamp "Invalid timezone offset, expected [+-]HH:MM."
    else if ltb_ℤ hours (pos 0) || not (ltb_ℤ hours (pos 24))
    then report_error timestamp "Out of range offset hour."
    else if ltb_ℤ minutes (pos 0) || not (ltb_ℤ minutes (pos 60))
    then report_error timestamp "Out of range offset minute."
    else value (if plus then seconds else pos 0 -ℤ seconds, rest)

-- `ParseOffset`; the text ends where the source finds its NUL.
unfoldable pub parse_offset : String → Bytes → StatusOrVal (ℤ × Bytes)
unfolding scan_offset
parse_offset timestamp [] = report_error timestamp "Invalid timezone offset, expected 'Z' or 'z'."
parse_offset timestamp (c ∷ s) =
    if (c == b'+') || (c == b'-')
    then offset_of timestamp (c == b'+') s (scan_offset s)
    else if not (c == b'Z') && not (c == b'z')
    then report_error timestamp "Invalid timezone offset, expected 'Z' or 'z'."
    else value (pos 0, s)

-- `c_str()` as the functions of C read it.
unfoldable pub c_str : Bytes → Bytes
c_str [] = []
c_str (c ∷ s) = let more = c_str s in if c == 0 then [] else c ∷ more

-- The local offset that `ParseRfc3339` computes once, at the time `now`.
abbrev pub local_time_offset : (Tm → ℤ) → ℕ → ℤ
local_time_offset zone now = mktime zone (gmtime now) -ℤ pos now

abbrev pub with_offset : String → ℤ → ℤ → ℤ → StatusOrVal (ℤ × Bytes) → StatusOrVal ℤ
with_offset timestamp local point fraction (failure e) = failure e
with_offset timestamp local point fraction (value (offset, [])) =
    value
      (scaled 1000000000 point +ℤ fraction -ℤ scaled 1000000000 offset -ℤ scaled 1000000000 local)
with_offset timestamp local point fraction (value (offset, c ∷ s)) =
    report_error timestamp "Additional text after RFC 3339 date."

abbrev pub with_fraction : String → ℤ → ℤ → StatusOrVal (ℤ × Bytes) → StatusOrVal ℤ
with_fraction timestamp local point (failure e) = failure e
with_fraction timestamp local point (value (fraction, s)) =
    with_offset timestamp local point fraction (parse_offset timestamp s)

abbrev pub with_date_time : String → ℤ → StatusOrVal (ℤ × Bytes) → StatusOrVal ℤ
with_date_time timestamp local (failure e) = failure e
with_date_time timestamp local (value (point, s)) =
    with_fraction timestamp local point (parse_fractional_seconds timestamp s)

-- `ParseRfc3339` of the text whose bytes are `s`, in nanoseconds since the epoch.
unfoldable pub parse_rfc3339 : (Tm → ℤ) → ℕ → String → Bytes → StatusOrVal ℤ
unfolding c_str parse_date_time parse_fractional_seconds parse_offset
parse_rfc3339 zone now timestamp s =
    with_date_time timestamp (local_time_offset zone now) (parse_date_time zone timestamp (c_str s))

-- The decimal digits of a number, as many as `%0<width>lld` gives for a number that has no more.
unfoldable pub padded : ℕ → ℕ → Bytes
padded zero n = []
padded (suc width) n = padded width (n / 10) ++ (b'0' + n % 10) ∷ []

-- `FormatFractional`, of less than a second.
unfoldable pub format_fractional : ℕ → Bytes
unfolding padded
format_fractional ns =
    if ns == 0
    then []
    else if ns % 1000000 == 0
    then b'.' ∷ padded 3 (ns / 1000000)
    else if ns % 1000 == 0
    then b'.' ∷ padded 6 (ns / 1000)
    else b'.' ∷ padded 9 ns

-- `strftime` with `"%Y-%m-%dT%H:%M:%S"`, for a year of four digits.
unfoldable pub format_date_time : Tm → Bytes
unfolding padded
format_date_time t =
    padded 4 (t.year - year_zero)
    ++ (b'-'
        ∷ (padded 2 (t.month + 1)
            ++ (b'-'
                ∷ (padded 2 t.day
                    ++ (b'T'
                        ∷ (padded 2 t.hour
                            ++ (b':' ∷ (padded 2 t.minute ++ (b':' ∷ padded 2 t.second)))))))))

-- `FormatRfc3339`, of a time that is not before the epoch.
unfoldable pub format_rfc3339 : ℕ → Bytes
unfolding format_date_time format_fractional
format_rfc3339 ns =
    format_date_time (gmtime (ns / 1000000000))
    ++ (format_fractional (ns % 1000000000) ++ b'Z' ∷ [])
