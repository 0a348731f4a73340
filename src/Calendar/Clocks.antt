-- ===== src/Calendar/Clocks.antt =====
-- `_parseTime` undoes `_convert_time`, to the tenth of a millisecond that the wire carries.
use firebirdsql_go.Base.{ℕ, ◌+◌, ◌*◌, ◌/◌, ◌%◌, ◌<◌, ◌≡◌, arith, [], pos, some, append-nil}
use firebirdsql_go.Bytes.RoundTrip.{bint32_round_trip}
use firebirdsql_go.Calendar.{Clock, convert_time, parse_time, time_of_number}

pub record IsClock (t : Clock) : Type 0 where
  pub hours : t.hour < 24
  pub minutes : t.minute < 60
  pub seconds : t.second < 60
  pub nanoseconds : t.nanosecond < 1_000_000_000

clock_digits :
    (h m s u : ℕ)
    → h < 24
    → m < 60
    → s < 60
    → u < 10000
    → let n = (h * 3600 + m * 60 + s) * 10000 + u in
      (n / 10000 / 60 / 60 ≡ h) × (n / 10000 / 60 % 60 ≡ m) × (n / 10000 % 60 ≡ s) × (n % 10000 ≡ u)
clock_digits h m s u h1 h2 h3 h4 = omega arith

-- Every time of day reads back, its nanoseconds cut to a multiple of 100000.
parse_time-convert_time :
    (t : Clock)
    → IsClock t
    → parse_time (convert_time t)
      ≡ some (pos t.hour, pos t.minute, pos t.second, pos (t.nanosecond / 100000 * 100000))
unfolding parse_time convert_time time_of_number
parse_time-convert_time t v =
    let u = t.nanosecond / 100000 in
    let n = (t.hour * 3600 + t.minute * 60 + t.second) * 10000 + u in
    let small : u < 10000 = omega arith in
    let (h, m, s, f) = clock_digits t.hour t.minute t.second u v.hours v.minutes v.seconds small in
    rw (rw append-nil at (bint32_round_trip (pos n) [] (omega arith)), h, m, s, f)
