-- ===== src/DecFloat/Total.antt =====
-- Every sixteen bytes are a decimal of 128 bits, and every eight one of 64.
use firebirdsql_go.Base.{
  ℕ, ◌+◌, ◌*◌, ◌/◌, ◌%◌, ◌^◌, ◌<◌, ◌≡◌, refl, arith, ℤ, pos, negsuc, ◌-ℤ◌, ◌≤ℤ◌, int_laws, Bool,
  true, false, Option, none, some, List, ◌∷◌, IsByte, ltb, ◌==◌, ◌&&◌, if_cases,
}
use firebirdsql_go.Base.Tables.{holds_to, holds_to→holds}
use firebirdsql_go.DecFloat.{
  Decimal, decimal128_to_sign_digits_exponent, decimal128_number, decimal64_number, decimal64_parts,
  combination, special_of, nan, infinity,
}
use firebirdsql_go.DecFloat.Dpd.{calc_significand_total}

abbrev is_small : Option (ℕ × ℕ) → Bool
is_small none = false
is_small (some (high, prefix)) = ltb high 3 && ltb prefix 10

combination_table : holds_to (λ f. is_small (combination f)) 30 ≡ true
unfolding holds_to
combination_table = refl

combination_total :
    (f : ℕ)
    → f < 30
    → (high : ℕ) × (prefix : ℕ) × (combination f ≡ some (high, prefix)) × (high < 3) × (prefix < 10)
combination_total f h =
    by_value (combination f)
      (holds_to→holds (λ k. is_small (combination k)) 30 combination_table f h)
  where
    by_value :
        (o : Option (ℕ × ℕ))
        → is_small o ≡ true
        → (high : ℕ) × (prefix : ℕ) × (o ≡ some (high, prefix)) × (high < 3) × (prefix < 10)
    by_value none e = cc e
    by_value (some (high, prefix)) e = (high, prefix, refl, ground arith, ground arith)

-- A decimal of so many digits whose exponent is in this range, or none of a number.
abbrev pub Within : ℕ → ℤ → ℤ → Option Decimal → Type 0
Within bound low high o =
    (d : Decimal) × (o ≡ some d)
    × ((d.special ≡ none) → (d.coefficient < bound) × (low ≤ℤ d.exponent) × (d.exponent ≤ℤ high))

number128_total :
    (negative : Bool) (cf p : ℕ)
    → cf < 2 ^ 17
    → Within (10 ^ 34) (negsuc 6175) (pos 6111) (decimal128_number negative cf p)
unfolding decimal128_number
number128_total negative cf p h =
    if_cases (Within (10 ^ 34) (negsuc 6175) (pos 6111)) (cf / 2 ^ 12 == 31)
      (λ e. (special_of negative nan, refl, λ x. cc x))
      (λ e.
        if_cases (Within (10 ^ 34) (negsuc 6175) (pos 6111)) (cf / 2 ^ 12 == 30)
          (λ g. (special_of negative infinity, refl, λ x. cc x))
          (λ g.
            let (high, prefix, combined, hs, ps) =
              combination_total (cf / 2 ^ 12) (below (cf / 2 ^ 12) (omega arith) e g) in
            let (c, significant, lt) = (calc_significand_total prefix p ps).0 in
            let exponent = pos (high * 2 ^ 12 + cf % 2 ^ 12) -ℤ pos 6176 in
            (
              record { coefficient = c; exponent = exponent; negative = negative; special = none },
              rw (combined, significant) refl,
              λ x. (lt, omega int_laws, omega int_laws),
            )))
  where
    below : (f : ℕ) → f < 32 → (f == 31) ≡ false → (f == 30) ≡ false → f < 30
    below f h e g = ground arith

number64_total :
    (negative : Bool) (cf exponent p : ℕ)
    → cf < 32
    → exponent < 2 ^ 8
    → Within (10 ^ 16) (negsuc 397) (pos 369) (decimal64_number negative cf exponent p)
unfolding decimal64_number
number64_total negative cf exponent p h k =
    if_cases (Within (10 ^ 16) (negsuc 397) (pos 369)) (cf == 31)
      (λ e. (special_of negative nan, refl, λ x. cc x))
      (λ e.
        if_cases (Within (10 ^ 16) (negsuc 397) (pos 369)) (cf == 30)
          (λ g. (special_of negative infinity, refl, λ x. cc x))
          (λ g.
            let (high, prefix, combined, hs, ps) = combination_total cf (below cf h e g) in
            let (c, significant, lt) = (calc_significand_total prefix p ps).1 in
            (
              record {
                coefficient = c;
                exponent = pos (high * 2 ^ 8 + exponent) -ℤ pos 398;
                negative = negative;
                special = none;
              },
              rw (combined, significant) refl,
              λ x. (lt, omega int_laws, omega int_laws),
            )))
  where
    below : (f : ℕ) → f < 32 → (f == 31) ≡ false → (f == 30) ≡ false → f < 30
    below f h e g = ground arith

-- From any bytes, three at least, the readers of decimals give a result and no error: NaN, an
-- infinity, or a number of at most 34 digits with an exponent from -6176 to 6111, respectively of
-- 16 digits and from -398 to 369.
pub decimals_total :
    (b0 b1 b2 : ℕ) (rest : List ℕ)
    → IsByte b0
    → IsByte b1
    → IsByte b2
    → Within
        (10 ^ 34)
        (negsuc 6175)
        (pos 6111)
        (decimal128_to_sign_digits_exponent (b0 ∷ b1 ∷ b2 ∷ rest))
      × Within (10 ^ 16) (negsuc 397) (pos 369) (decimal64_parts (b0 ∷ b1 ∷ b2 ∷ rest))
unfolding decimal128_to_sign_digits_exponent decimal64_parts
decimals_total b0 b1 b2 rest h0 h1 h2 = (
  number128_total (b0 / 128 == 1) _ _ (omega arith),
  number64_total (b0 / 128 == 1) _ _ _ (omega arith) (omega arith),
)
