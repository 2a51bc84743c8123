-- ===== src/Rfc3339/RoundTrip.antt =====
-- What `FormatRfc3339` prints, `ParseRfc3339` reads.
use cloudstorageapi.Prelude.{
  ℕ, ◌+◌, ◌*◌, ◌/◌, ◌%◌, ◌≡◌, ap, ◌∙◌, ◌<◌, ◌^◌, String, ◌++◌, arith, ℤ, pos, scaled, scaled_parts,
  eq_of_parts, ◌-ℤ◌, ◌+ℤ◌, -ℤ_parts, +ℤ_parts,
}
use cloudstorageapi.Status.{value}
use cloudstorageapi.Rfc3339.Calendar.{Tm, gmtime}
use cloudstorageapi.Rfc3339.Gmtime.{timegm-gmtime}
use cloudstorageapi.Rfc3339.Fraction.{
  z_only, parse_fractional_seconds-format_fractional, c_str-format_fractional,
}
use cloudstorageapi.Rfc3339.Years.{gmtime_year}
use cloudstorageapi.Rfc3339.DateTime.{
  IsPrintable, format_date_time-date_time, c_str-date_time, parse_date_time-date_time,
}
use cloudstorageapi.Rfc3339.{
  parse_date_time, parse_offset, c_str, format_fractional, format_rfc3339, parse_rfc3339,
  with_date_time, with_fraction, local_time_offset, mktime,
}
use cloudstorageapi.Rfc3339.Scan.{Bytes}

-- A time in seconds and the rest of it, as `ParseRfc3339` puts them together.
abbrev put_together : ℤ → ℤ → ℤ → ℤ
put_together point fraction local =
    scaled 1000000000 point +ℤ fraction -ℤ scaled 1000000000 (pos 0) -ℤ scaled 1000000000 local

-- The offsets at the two dates stay, and the rest goes out.
put_together-zone :
    (z y : ℤ) (s now f : ℕ)
    → put_together (pos s -ℤ z) (pos f) (pos now -ℤ y -ℤ pos now)
      ≡ pos (s * 1000000000 + f) +ℤ scaled 1000000000 (y -ℤ z)
put_together-zone z y s now f =
    let a = -ℤ_parts (pos s) z in
    let n = -ℤ_parts (pos now) y in
    let l = -ℤ_parts (pos now -ℤ y) (pos now) in
    let local = pos now -ℤ y -ℤ pos now in
    let point = scaled 1000000000 (pos s -ℤ z) in
    let none = scaled 1000000000 (pos 0) in
    let k1 = scaled_parts 1000000000 (pos s -ℤ z) in
    let k2 = scaled_parts 1000000000 (pos 0) in
    let k3 = scaled_parts 1000000000 local in
    let k4 = scaled_parts 1000000000 (y -ℤ z) in
    let d = -ℤ_parts y z in
    let a1 = +ℤ_parts point (pos f) in
    let a2 = -ℤ_parts (point +ℤ pos f) none in
    let a3 = -ℤ_parts (point +ℤ pos f -ℤ none) (scaled 1000000000 local) in
    let a4 = +ℤ_parts (pos (s * 1000000000 + f)) (scaled 1000000000 (y -ℤ z)) in
    eq_of_parts _ (pos (s * 1000000000 + f) +ℤ scaled 1000000000 (y -ℤ z)) (omega arith)

-- Every time from the epoch on that 64 bits of nanoseconds hold is read back as it was printed, but
-- for the difference between the zone's offset at the date when the local offset was computed and its
-- offset at the date that is read: where these two offsets are the same, it is the same time.
pub parse_rfc3339-format_rfc3339 :
    (zone : Tm → ℤ) (now : ℕ) (timestamp : String) (ns : ℕ)
    → ns < 2 ^ 63
    → parse_rfc3339 zone now timestamp (format_rfc3339 ns)
      ≡ value (pos ns +ℤ scaled 1000000000 (zone (gmtime now) -ℤ zone (gmtime (ns / 1000000000))))
unfolding parse_rfc3339 format_rfc3339 parse_offset IsPrintable
parse_rfc3339-format_rfc3339 zone now timestamp ns h =
    ap (λ s. with_date_time timestamp local (parse_date_time zone timestamp (c_str s)))
      (format_date_time-date_time t rest)
    ∙ ap (λ s. with_date_time timestamp local (parse_date_time zone timestamp s))
        (c_str-date_time t rest (c_str-format_fractional (ns % 1000000000)))
    ∙ ap (with_date_time timestamp local)
        (parse_date_time-date_time zone timestamp t rest printable)
    ∙ ap (with_fraction timestamp local (mktime zone t))
        (parse_fractional_seconds-format_fractional (ns % 1000000000) timestamp (omega arith))
    ∙ ap (λ z. value (put_together z (pos (ns % 1000000000)) local)) {x = mktime zone t}
        {y = pos (ns / 1000000000) -ℤ zone t}
        (ap (λ z. z -ℤ zone t) (timegm-gmtime (ns / 1000000000)).1)
    ∙ ap
        (λ z. value (
          put_together (pos (ns / 1000000000) -ℤ zone t) (pos (ns % 1000000000))
            (z -ℤ zone (gmtime now) -ℤ pos now)))
        (timegm-gmtime now).1
    ∙ ap value
        (put_together-zone (zone t) (zone (gmtime now)) (ns / 1000000000) now (ns % 1000000000))
    ∙ ap (λ n. value (pos n +ℤ scaled 1000000000 (zone (gmtime now) -ℤ zone t))) (omega arith)
  where
    t : Tm
    t = gmtime (ns / 1000000000)

    rest : Bytes
    rest = format_fractional (ns % 1000000000) ++ z_only

    local : ℤ
    local = local_time_offset zone now

    printable : IsPrintable t
    printable =
        let (low, high) = gmtime_year (ns / 1000000000) (omega arith) in
        ((timegm-gmtime (ns / 1000000000)).0, low, high)
