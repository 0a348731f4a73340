-- ===== src/Calendar/Digits.antt =====
-- The arithmetic of `_parseDate` on a sum of centuries, years, months and days.
use firebirdsql_go.Base.{
  ℕ, ◌+◌, ◌-◌, ◌*◌, ◌/◌, ◌%◌, ◌≤◌, ◌<◌, ◌≡◌, arith, ◌⊎◌, inl, inr, pos, pos-+ℤ, pos--ℤ,
}
use firebirdsql_go.Calendar.{date_of_number, civil_month, civil_year}

-- The bound on a day by its month from March, in a form for linear arithmetic.
abbrev pub DayFits : ℕ → ℕ → Type 0
DayFits jm d = (jm ≡ 11 × d ≤ 29) ⊎ (jm < 11 × d ≤ 31 - (jm % 5) % 2)

-- The month and the day in a year that begins in March.
month_digits :
    (jm d : ℕ)
    → jm < 12
    → 1 ≤ d
    → DayFits jm d
    → let f = (153 * jm + 2) / 5 + d in
      ((f * 5 - 3) / 153 ≡ jm) × ((f * 5 - 3 - jm * 153 + 5) / 5 ≡ d)
month_digits jm d h k fits = omega arith

-- The year and the day in a century.
year_digits :
    (jy f : ℕ)
    → 1 ≤ f
    → f ≤ 366
    → (f ≤ 365 ⊎ jy % 4 ≡ 3)
    → let e = 1461 * jy / 4 + f in
      (((e - 1) * 4 + 3) / 1461 ≡ jy) × (((e - 1) * 4 + 3 - jy * 1461 + 4) / 4 ≡ f)
year_digits jy f h k leap = omega arith

-- The century and the day in it.
century_digits :
    (c e : ℕ)
    → 1 ≤ e
    → e ≤ 36525
    → (e ≤ 36524 ⊎ c % 4 ≡ 3)
    → let n = 146097 * c / 4 + e in
      ((n * 4 - 1) / 146097 ≡ c) × ((n * 4 - 1 - c * 146097) / 4 ≡ e - 1)
century_digits c e h k leap = omega arith

-- The digits of a day number: century, year in it, month from March, day.
pub record Digits (n c r jm d : ℕ) : Type 0 where
  day_of_year : ℕ
  day_of_century : ℕ
  positive : 1 ≤ n
  century : (n * 4 - 1) / 146097 ≡ c
  century_le : c * 146097 ≤ n * 4 - 1
  in_century : (n * 4 - 1 - c * 146097) / 4 ≡ day_of_century
  year : (day_of_century * 4 + 3) / 1461 ≡ r
  year_le : r * 1461 ≤ day_of_century * 4 + 3
  in_year : (day_of_century * 4 + 3 - r * 1461 + 4) / 4 ≡ day_of_year
  day_positive : 3 ≤ day_of_year * 5
  month : (day_of_year * 5 - 3) / 153 ≡ jm
  month_le : jm * 153 ≤ day_of_year * 5 - 3
  in_month : (day_of_year * 5 - 3 - jm * 153 + 5) / 5 ≡ d

pub date_of_Digits :
    (n c r jm d : ℕ)
    → Digits n c r jm d
    → date_of_number (pos n)
      ≡ (civil_year (pos (c * 100 + r)) (pos jm), civil_month (pos jm), pos d)
unfolding date_of_number
date_of_Digits n c r jm d g = rw (
  pos--ℤ (n * 4) 1 (omega (arith, g.positive)),
  g.century,
  pos--ℤ (n * 4 - 1) (c * 146097) g.century_le,
  g.in_century,
  pos-+ℤ (g.day_of_century * 4) 3,
  g.year,
  pos--ℤ (g.day_of_century * 4 + 3) (r * 1461) g.year_le,
  pos-+ℤ (g.day_of_century * 4 + 3 - r * 1461) 4,
  g.in_year,
  pos--ℤ (g.day_of_year * 5) 3 g.day_positive,
  g.month,
  pos--ℤ (g.day_of_year * 5 - 3) (jm * 153) g.month_le,
  pos-+ℤ (g.day_of_year * 5 - 3 - jm * 153) 5,
  g.in_month,
  pos-+ℤ (c * 100) r,
)

century_bounds :
    (c r f : ℕ)
    → r < 100
    → 1 ≤ f
    → f ≤ 366
    → (f ≤ 365 ⊎ ((r % 4 ≡ 3) × (r ≡ 99 → c % 4 ≡ 3)))
    → let e = 1461 * r / 4 + f in
      (1 ≤ e) × (e ≤ 36525) × (e ≤ 36524 ⊎ c % 4 ≡ 3) × (f ≤ 365 ⊎ r % 4 ≡ 3)
century_bounds c r f h h1 h2 (inl k) = omega arith
century_bounds c r f h h1 h2 (inr k) = ground arith

-- The digits from their bounds.
pub Digits-of :
    (c r jm d : ℕ)
    → r < 100
    → jm < 12
    → 1 ≤ d
    → DayFits jm d
    → let f = (153 * jm + 2) / 5 + d in
      (f ≤ 366)
      → (f ≤ 365 ⊎ ((r % 4 ≡ 3) × (r ≡ 99 → c % 4 ≡ 3)))
      → Digits (146097 * c / 4 + (1461 * r / 4 + f)) c r jm d
Digits-of c r jm d h k h1 fits h2 leap =
    let f = (153 * jm + 2) / 5 + d in
    let e = 1461 * r / 4 + f in
    let (e1, e2, e3, e4) = century_bounds c r f h (omega arith) h2 leap in
    let (c1, c2) = century_digits c e e1 e2 e3 in
    let (y1, y2) = year_digits r f (omega arith) h2 e4 in
    let (m1, m2) = month_digits jm d k h1 fits in
    record {
      day_of_year = f;
      day_of_century = e - 1;
      positive = omega arith;
      century = c1;
      century_le = omega (arith, c1);
      in_century = c2;
      year = y1;
      year_le = omega (arith, y1);
      in_year = y2;
      day_positive = omega arith;
      month = m1;
      month_le = omega (arith, m1);
      in_month = m2;
    }
