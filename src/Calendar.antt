-- ===== src/Calendar.antt =====
-- Dates and times of day on the wire: `_convert_date`, `_convert_time` and `_convert_timestamp` of
-- utils.go, `_parseDate` and `_parseTime` of xsqlvar.go.
pub mod Gregorian
mod Digits
pub mod Days
pub mod Count
pub mod Clocks
mod Tests
use firebirdsql_go.Base.{
  ℕ, ◌+◌, ◌-◌, ◌*◌, ◌/◌, ◌%◌, ℤ, pos, negsuc, ◌+ℤ◌, ◌-ℤ◌, ◌/ℤ◌, ◌%ℤ◌, ◌*ℤ◌, ltb_ℤ, ◌>>=◌, Option,
  none, some, List, ◌++◌, if◌then◌else◌,
}
use firebirdsql_go.Bytes.{bint32_to_bytes, bytes_to_bint32}

-- The fields of a `time.Time` that the encoders read. Years are those from 1 on, so that `jy` below
-- is never negative.
pub record Date : Type 0 where
  pub year : ℕ
  pub month : ℕ
  pub day : ℕ

pub record Clock : Type 0 where
  pub hour : ℕ
  pub minute : ℕ
  pub second : ℕ
  pub nanosecond : ℕ

-- The sum in `_convert_date` before the epoch is taken off.
unfoldable pub day_number : Date → ℕ
day_number t =
    let i = t.month + 9 in
    let jy = t.year + i / 12 - 1 in
    let jm = i % 12 in
    let c = jy / 100 in 146097 * c / 4 + 1461 * (jy - 100 * c) / 4 + (153 * jm + 2) / 5 + t.day

unfoldable pub convert_date : Date → List ℕ
convert_date t = bint32_to_bytes (pos (day_number t) -ℤ pos 678882)

unfoldable pub convert_time : Clock → List ℕ
convert_time t =
    bint32_to_bytes
      (pos ((t.hour * 3600 + t.minute * 60 + t.second) * 10000 + t.nanosecond / 100000))

unfoldable pub convert_timestamp : Date → Clock → List ℕ
convert_timestamp d t = convert_date d ++ convert_time t

-- The months of a year that begins in March, from 0.
abbrev pub civil_month : ℤ → ℤ
civil_month month = if ltb_ℤ month (pos 10) then month +ℤ pos 3 else month -ℤ pos 9

abbrev pub civil_year : ℤ → ℤ → ℤ
civil_year year month = if ltb_ℤ month (pos 10) then year else year +ℤ pos 1

-- The arithmetic of `_parseDate`, in Go's signed integers: year, month, day.
unfoldable pub date_of_number : ℤ → ℤ × ℤ × ℤ
date_of_number nday =
    let century = (nday *ℤ 4 -ℤ pos 1) /ℤ 146097 in
    let nday1 = nday *ℤ 4 -ℤ pos 1 -ℤ century *ℤ 146097 in
    let day1 = nday1 /ℤ 4 in
    let nday2 = (day1 *ℤ 4 +ℤ pos 3) /ℤ 1461 in
    let day2 = (day1 *ℤ 4 +ℤ pos 3 -ℤ nday2 *ℤ 1461 +ℤ pos 4) /ℤ 4 in
    let month = (day2 *ℤ 5 -ℤ pos 3) /ℤ 153 in
    let day3 = (day2 *ℤ 5 -ℤ pos 3 -ℤ month *ℤ 153 +ℤ pos 5) /ℤ 5 in
    let year = century *ℤ 100 +ℤ nday2 in (civil_year year month, civil_month month, day3)

-- `none` is the panic on fewer than four bytes.
unfoldable pub parse_date : List ℕ → Option (ℤ × ℤ × ℤ)
parse_date raw = bytes_to_bint32 raw >>= λ n. some (date_of_number (n +ℤ pos 678882))

-- Hour, minute, second, nanosecond.
unfoldable pub time_of_number : ℤ → ℤ × ℤ × ℤ × ℤ
time_of_number n =
    let s = n /ℤ 10000 in let m = s /ℤ 60 in (m /ℤ 60, m %ℤ 60, s %ℤ 60, (n %ℤ 10000) *ℤ 100000)

unfoldable pub parse_time : List ℕ → Option (ℤ × ℤ × ℤ × ℤ)
parse_time raw = bytes_to_bint32 raw >>= λ n. some (time_of_number n)
