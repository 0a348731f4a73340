-- ===== src/Calendar/Gregorian.antt =====
-- The Gregorian calendar, as it is usually described.
use firebirdsql_go.Base.{ℕ, ◌+◌, ◌%◌, ◌≤◌, if◌then◌else◌, ltb, Bool, ◌==◌, ◌&&◌, ◌||◌, not}
use firebirdsql_go.Calendar.{Date}

-- The Gregorian calendar.
abbrev pub is_leap : ℕ → Bool
is_leap y = y % 4 == 0 && (not (y % 100 == 0) || y % 400 == 0)

abbrev pub days_in_month : ℕ → ℕ → ℕ
days_in_month y m =
    if m == 2
    then if is_leap y then 29 else 28
    else if m == 4 || m == 6 || m == 9 || m == 11
    then 30
    else 31

pub record IsDate (t : Date) : Type 0 where
  pub from_one : 1 ≤ t.year
  pub month_low : 1 ≤ t.month
  pub month_high : t.month ≤ 12
  pub day_low : 1 ≤ t.day
  pub day_high : t.day ≤ days_in_month t.year t.month

-- The day after a date.
abbrev pub next_day : Date → Date
next_day t =
    if ltb t.day (days_in_month t.year t.month)
    then record t { day = t.day + 1 }
    else if ltb t.month 12
    then record t { month = t.month + 1; day = 1 }
    else record { year = t.year + 1; month = 1; day = 1 }
