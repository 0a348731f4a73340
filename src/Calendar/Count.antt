-- ===== src/Calendar/Count.antt =====
-- `_convert_date` counts the days of the Gregorian calendar.
use firebirdsql_go.Base.{
  ℕ, ◌+◌, ◌-◌, ◌%◌, ◌≤◌, ◌<◌, ◌≡◌, Bool-cases, ltb→lt, ◌≢◌, sym, ap, ◌∙◌, arith, inl, inr, ltb,
  false,
}
use mathlib.Core.Path.{ap₂}
use native.Mathlib.Decide.{ℕ_discrete}
use firebirdsql_go.Calendar.{Date, day_number}
use firebirdsql_go.Calendar.Gregorian.{days_in_month, IsDate, next_day}

abbrev date : ℕ → ℕ → ℕ → Date
date y m d = record { year = y; month = m; day = d }

same_month : (y m d : ℕ) → day_number (date y m (d + 1)) ≡ day_number (date y m d) + 1
unfolding day_number
same_month y m d = omega arith

year_end : (y : ℕ) → 1 ≤ y → day_number (date (y + 1) 1 1) ≡ day_number (date y 12 31) + 1
unfolding day_number
year_end y h = omega arith

february_end :
    (y : ℕ) → 1 ≤ y → day_number (date y 3 1) ≡ day_number (date y 2 (days_in_month y 2)) + 1
unfolding day_number
february_end y h = ground arith

-- Other than February, whose end is above.
month_length : (y m : ℕ) → 1 ≤ m → m ≤ 12 → m ≢ 2 → days_in_month y m ≡ 31 - ((m + 9) % 12 % 5) % 2
month_length y m k l n = ground arith

month_end :
    (y m : ℕ)
    → 1 ≤ y
    → 1 ≤ m
    → m < 12
    → m ≢ 2
    → day_number (date y (m + 1) 1) ≡ day_number (date y m (days_in_month y m)) + 1
unfolding day_number
month_end y m h k l n = rw (month_length y m k (omega arith) n) (omega arith)

month_turn :
    (y m : ℕ)
    → 1 ≤ y
    → 1 ≤ m
    → m < 12
    → day_number (date y (m + 1) 1) ≡ day_number (date y m (days_in_month y m)) + 1
month_turn y m h k l = elim (ℕ_discrete m 2) [
  | yes feb ↦ rw feb (february_end y h)
  | no other ↦ month_end y m h k l other
]

-- The count is that of the calendar: the day after a date has the next number.
pub day_number-next_day : (t : Date) → IsDate t → day_number (next_day t) ≡ day_number t + 1
day_number-next_day t v = elim (Bool-cases (ltb t.day (days_in_month t.year t.month))) [
  | inl inside ↦ rw inside (same_month t.year t.month t.day)
  | inr last ↦
      let full : t.day ≡ days_in_month t.year t.month = at_most _ _ last v.day_high in
      elim (Bool-cases (ltb t.month 12)) [
        | inl before ↦
            rw (last, before)
              (month_turn t.year t.month v.from_one v.month_low (ltb→lt _ _ before)
                ∙ ap (λ d. day_number (date t.year t.month d) + 1) (sym full))
        | inr december ↦
            let twelve : t.month ≡ 12 = at_most _ _ december v.month_high in
            rw (last, december)
              (year_end t.year v.from_one
                ∙ ap₂ (λ m d. day_number (date t.year m d) + 1) (sym twelve)
                    (rw twelve at (sym full)))
      ]
]
  where
    at_most : (a b : ℕ) → ltb a b ≡ false → a ≤ b → a ≡ b
    at_most a b h k = ground arith
