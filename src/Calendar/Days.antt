-- ===== src/Calendar/Days.antt =====
-- `_parseDate` undoes `_convert_date`.
use firebirdsql_go.Base.{
  ℕ, ◌+◌, ◌-◌, ◌*◌, ◌/◌, ◌%◌, ◌≤◌, ◌<◌, ◌≡◌, [], int_laws, ap, arith, ◌⊎◌, pos, ◌+ℤ◌, ◌-ℤ◌, IsI32,
  some, append-nil,
}
use firebirdsql_go.Bytes.RoundTrip.{bint32_round_trip}
use firebirdsql_go.Calendar.{
  Date, day_number, convert_date, date_of_number, parse_date, civil_month, civil_year,
}
use firebirdsql_go.Calendar.Gregorian.{IsDate}
use firebirdsql_go.Calendar.Digits.{DayFits, date_of_Digits, Digits-of}

-- Where a date falls in the years that begin in March.
abbrev march_year : Date → ℕ
march_year t = t.year + (t.month + 9) / 12 - 1

abbrev march_month : Date → ℕ
march_month t = (t.month + 9) % 12

day_fits : (t : Date) → IsDate t → DayFits (march_month t) t.day
day_fits t v = ground arith

leap_end :
    (t : Date)
    → IsDate t
    → march_month t ≡ 11
    → t.day ≡ 29
    → (march_year t % 100 % 4 ≡ 3) × (march_year t % 100 ≡ 99 → march_year t / 100 % 4 ≡ 3)
leap_end t v h k = ground arith

abbrev century_of : Date → ℕ
century_of t = march_year t / 100

abbrev year_in_century : Date → ℕ
year_in_century t = march_year t - 100 * (march_year t / 100)

day_of_year_of : Date → ℕ
day_of_year_of t = (153 * march_month t + 2) / 5 + t.day

day_of_year_bounds :
    (t : Date)
    → IsDate t
    → (1 ≤ day_of_year_of t)
      × (day_of_year_of t ≤ 366)
      × (day_of_year_of t ≤ 365 ⊎ (march_month t ≡ 11 × t.day ≡ 29))
unfolding day_of_year_of
day_of_year_bounds t v = omega (arith, day_fits t v, v.day_low)

year_in_century_lem :
    (t : Date)
    → (year_in_century t < 100)
      × (year_in_century t ≡ march_year t % 100)
      × (century_of t * 100 + year_in_century t ≡ march_year t)
year_in_century_lem t = omega arith

leap_rest :
    (t : Date)
    → IsDate t
    → day_of_year_of t ≤ 365
      ⊎ ((year_in_century t % 4 ≡ 3) × (year_in_century t ≡ 99 → century_of t % 4 ≡ 3))
leap_rest t v = ground (arith, day_of_year_bounds t v, leap_end t v, year_in_century_lem t)

number_of_digits :
    (t : Date)
    → day_number t
      ≡ 146097 * century_of t / 4
        + (1461 * year_in_century t / 4 + ((153 * march_month t + 2) / 5 + t.day))
unfolding day_number
number_of_digits t = omega arith

civil_parts :
    (t : Date)
    → IsDate t
    → (civil_year (pos (march_year t)) (pos (march_month t)) ≡ pos t.year)
      × (civil_month (pos (march_month t)) ≡ pos t.month)
unfolding ◌+ℤ◌ ◌-ℤ◌
civil_parts t v = ground arith

date_of_day_number :
    (t : Date)
    → IsDate t
    → date_of_number (pos (day_number t)) ≡ (pos t.year, pos t.month, pos t.day)
unfolding day_of_year_of
date_of_day_number t v =
    let d =
      Digits-of (century_of t) (year_in_century t) (march_month t) t.day (year_in_century_lem t).0
        (omega arith) v.day_low (day_fits t v) (day_of_year_bounds t v).1 (leap_rest t v) in
    rw (
      number_of_digits t,
      date_of_Digits _ (century_of t) (year_in_century t) (march_month t) t.day d,
      (year_in_century_lem t).2,
      (civil_parts t v).0,
      (civil_parts t v).1,
    )

day_number_bounds :
    (t : Date) → IsDate t → t.year ≤ 9999 → (1 ≤ day_number t) × (day_number t ≤ 3652500)
unfolding day_of_year_of
day_number_bounds t v h = omega (arith, number_of_digits t, day_of_year_bounds t v)

-- `_parseDate` gives back the year, the month and the day of every date of the Gregorian calendar
-- from year 1 to 9999 that `_convert_date` encoded.
pub parse_date-convert_date :
    (t : Date)
    → IsDate t
    → t.year ≤ 9999
    → parse_date (convert_date t) ≡ some (pos t.year, pos t.month, pos t.day)
unfolding parse_date convert_date
parse_date-convert_date t v h =
    let (low, high) = day_number_bounds t v h in
    rw
      (
        rw append-nil at
            (bint32_round_trip (pos (day_number t) -ℤ pos 678882) [] (fits_i32 _ high)),
        back_to_number (day_number t),
      )
      (ap some (date_of_day_number t v))
  where
    fits_i32 : (n : ℕ) → n ≤ 3652500 → IsI32 (pos n -ℤ pos 678882)
    fits_i32 n k = unfold ◌-ℤ◌ in ground arith

    back_to_number : (n : ℕ) → pos n -ℤ pos 678882 +ℤ pos 678882 ≡ pos n
    back_to_number n = omega int_laws
