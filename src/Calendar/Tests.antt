-- ===== src/Calendar/Tests.antt =====
-- Dates and times at concrete values.
use firebirdsql_go.Base.{◌+◌, ◌≡◌, refl, arith, pos, some}
use firebirdsql_go.Calendar.{Date, Clock, day_number, convert_date, parse_date}
use firebirdsql_go.Calendar.Gregorian.{IsDate, next_day}
use firebirdsql_go.Calendar.Days.{parse_date-convert_date}
use firebirdsql_go.Calendar.Count.{day_number-next_day}

-- Day 0 of the wire format.
epoch : day_number (record { year = 1858; month = 11; day = 17 }) ≡ 678882
unfolding day_number
epoch = refl

abbrev leap_day : Date
leap_day = record { year = 2000; month = 2; day = 29 }

leap_day-IsDate : IsDate leap_day
leap_day-IsDate = record {
  from_one = omega arith;
  month_low = omega arith;
  month_high = omega arith;
  day_low = omega arith;
  day_high = omega arith;
}

parse_date-convert_date_example :
    parse_date (convert_date leap_day) ≡ some (pos 2000, pos 2, pos 29)
parse_date-convert_date_example = parse_date-convert_date leap_day leap_day-IsDate (omega arith)

day_number-next_day_example : day_number (next_day leap_day) ≡ day_number leap_day + 1
day_number-next_day_example = day_number-next_day leap_day leap_day-IsDate

abbrev late : Clock
late = record { hour = 23; minute = 59; second = 58; nanosecond = 123_456_789 }
