-- ===== src/DecFloat.antt =====
-- decfloat.go: decimal floating point numbers as the server sends them. A `big.Int` is a number, and
-- masks and shifts are remainders and quotients.
pub mod Dpd
pub mod Total
pub mod RoundTrip
mod Tests
use firebirdsql_go.Base.{
  ℕ, zero, suc, ◌+◌, ◌*◌, ◌/◌, ◌%◌, ◌^◌, ◌>>=◌, ℤ, pos, negsuc, ◌-ℤ◌, ◌+ℤ◌, neg_part, leb_ℤ, ◌-◌,
  ◌++◌, ltb, length, take, drop, replicate, bytes_of, true, false, Bool, ◌&&◌, Option, none, some,
  List, [], ◌∷◌, ◌==◌, if◌then◌else◌,
}
use firebirdsql_go.Texts.{digits, itoa}

-- Bit `i` of a number: `dpdBitToInt` with the mask of that bit.
abbrev pub bit : ℕ → ℕ → ℕ
bit n i = n / 2 ^ i % 2

-- Three digits of ten bits; no value is the error of an invalid encoding.
unfoldable pub dpd_to_int : ℕ → Option ℕ
dpd_to_int dpd =
    let b9 = bit dpd 9 in
    let b8 = bit dpd 8 in
    let b7 = bit dpd 7 in
    let b6 = bit dpd 6 in
    let b5 = bit dpd 5 in
    let b4 = bit dpd 4 in
    let b3 = bit dpd 3 in
    let b2 = bit dpd 2 in
    let b1 = bit dpd 1 in
    let b0 = bit dpd 0 in
    let high = b9 * 4 + b8 * 2 + b7 in
    let middle = b6 * 4 + b5 * 2 + b4 in
    if b3 == 0
    then three high middle (b2 * 4 + b1 * 2 + b0)
    else if b3 == 1 && (b2 == 0 && b1 == 0)
    then three high middle (8 + b0)
    else if b3 == 1 && (b2 == 0 && b1 == 1)
    then three high (8 + b4) (b6 * 4 + b5 * 2 + b0)
    else if b3 == 1 && (b2 == 1 && b1 == 0)
    then three (8 + b7) middle (b9 * 4 + b8 * 2 + b0)
    else if b6 == 0 && (b5 == 0 && (b3 == 1 && (b2 == 1 && b1 == 1)))
    then three (8 + b7) (8 + b4) (b9 * 4 + b8 * 2 + b0)
    else if b6 == 0 && (b5 == 1 && (b3 == 1 && (b2 == 1 && b1 == 1)))
    then three (8 + b7) (b9 * 4 + b8 * 2 + b4) (8 + b0)
    else if b6 == 1 && (b5 == 0 && (b3 == 1 && (b2 == 1 && b1 == 1)))
    then three high (8 + b4) (8 + b0)
    else if b6 == 1 && (b5 == 1 && (b3 == 1 && (b2 == 1 && b1 == 1)))
    then three (8 + b7) (8 + b4) (8 + b0)
    else none
  where
    three : ℕ → ℕ → ℕ → Option ℕ
    three d2 d1 d0 = some (d2 * 100 + d1 * 10 + d0)

-- The segments of the significand, the first one on top.
unfoldable pub segments : ℕ → ℕ → List ℕ → List ℕ
segments zero bits acc = acc
segments (suc n) bits acc = segments n (bits / 1024) (bits % 1024 ∷ acc)

unfoldable pub add_segments : ℕ → List ℕ → Option ℕ
add_segments v [] = some v
add_segments v (dpd ∷ rest) = dpd_to_int dpd >>= λ n. add_segments (v * 1000 + n) rest

unfoldable pub calc_significand : ℕ → ℕ → ℕ → Option ℕ
calc_significand prefix dpd_bits num_bits =
    add_segments prefix (segments (num_bits / 10) dpd_bits [])

-- `bytesToBigInt` of srp.go.
unfoldable pub bytes_to_big_int : ℕ → List ℕ → ℕ
bytes_to_big_int r [] = r
bytes_to_big_int r (b ∷ bs) = bytes_to_big_int (r * 256 + b) bs

-- A number, or one of the two that are none.
pub data Special : Type 0 where
  nan : Special
  infinity : Special

pub record Decimal : Type 0 where
  pub coefficient : ℕ
  pub exponent : ℤ
  pub negative : Bool
  pub special : Option Special

abbrev pub special_of : Bool → Special → Decimal
special_of negative s = record {
  coefficient = 0;
  exponent = pos 0;
  negative = negative;
  special = some s;
}

-- The high bits of the exponent and the first digit, of a combination field whose low bits belong to
-- the exponent; no value is the default branch.
abbrev pub combination : ℕ → Option (ℕ × ℕ)
combination cf =
    if cf / 8 == 0
    then some (0, cf % 8)
    else if cf / 8 == 1
    then some (1, cf % 8)
    else if cf / 8 == 2
    then some (2, cf % 8)
    else if cf / 2 == 12
    then some (0, 8 + cf % 2)
    else if cf / 2 == 13
    then some (1, 8 + cf % 2)
    else if cf / 2 == 14
    then some (2, 8 + cf % 2)
    else none

-- The switch on the combination field, and the significand.
unfoldable pub decimal128_number : Bool → ℕ → ℕ → Option Decimal
decimal128_number negative cf dpd_bits =
    if cf / 2 ^ 12 == 31
    then some (special_of negative nan)
    else if cf / 2 ^ 12 == 30
    then some (special_of negative infinity)
    else (combination (cf / 2 ^ 12) >>= λ (high, prefix).
        calc_significand prefix dpd_bits 110 >>= λ c. some record {
          coefficient = c;
          exponent = pos (high * 2 ^ 12 + cf % 2 ^ 12) -ℤ pos 6176;
          negative = negative;
          special = none;
        })

-- `none` are the errors, also the panic of a slice that is too short.
unfoldable pub decimal128_to_sign_digits_exponent : List ℕ → Option Decimal
decimal128_to_sign_digits_exponent (b0 ∷ b1 ∷ b2 ∷ rest) =
    decimal128_number (b0 / 128 == 1) (b0 % 128 * 2 ^ 10 + b1 * 4 + b2 / 64)
      (bytes_to_big_int 0 (b0 ∷ b1 ∷ b2 ∷ rest) % 2 ^ 110)
decimal128_to_sign_digits_exponent b = none

unfoldable pub decimal64_number : Bool → ℕ → ℕ → ℕ → Option Decimal
decimal64_number negative cf exponent dpd_bits =
    if cf == 31
    then some (special_of negative nan)
    else if cf == 30
    then some (special_of negative infinity)
    else (combination cf >>= λ (high, prefix). calc_significand prefix dpd_bits 50 >>= λ c.
        some record {
          coefficient = c;
          exponent = pos (high * 2 ^ 8 + exponent) -ℤ pos 398;
          negative = negative;
          special = none;
        })

-- What `decimal64ToString` reads before it writes the text.
unfoldable pub decimal64_parts : List ℕ → Option Decimal
decimal64_parts (b0 ∷ b1 ∷ rest) =
    decimal64_number (b0 / 128 == 1) (b0 / 4 % 32) (b0 % 4 * 2 ^ 6 + b1 / 4 % 2 ^ 6)
      (bytes_to_big_int 0 (b0 ∷ b1 ∷ rest) % 2 ^ 50)
decimal64_parts b = none

-- `coefficient.String()`: no coefficient has more than forty digits.
unfoldable pub big_string : ℕ → List ℕ
unfolding digits
big_string n = digits 40 n []

-- The point goes in front of the last `-exponent` digits; zeros make up for missing ones.
unfoldable pub format_plain : List ℕ → ℕ → List ℕ
format_plain ds zero = ds
format_plain ds (suc n) =
    let frac = suc n in
    if ltb frac (length ds)
    then take (length ds - frac) ds ++ b'.' ∷ drop (length ds - frac) ds
    else b'0' ∷ b'.' ∷ (replicate (frac - length ds) b'0' ++ ds)

-- `adjexp` is the exponent of the first digit.
abbrev pub mantissa : List ℕ → List ℕ
mantissa [] = []
mantissa (d ∷ []) = d ∷ []
mantissa (d ∷ e ∷ ds) = d ∷ b'.' ∷ e ∷ ds

unfoldable pub format_scientific : List ℕ → ℤ → List ℕ
unfolding itoa
format_scientific ds (pos n) = mantissa ds ++ (b'E' ∷ b'+' ∷ itoa (pos n))
format_scientific ds (negsuc n) = mantissa ds ++ (b'E' ∷ b'-' ∷ itoa (pos (suc n)))

abbrev pub special_name : Special → List ℕ
special_name nan = bytes_of "NaN"
special_name infinity = bytes_of "Infinity"

-- Of a finite number: plain if the exponent is not positive and the first digit not below 10 ^ -6.
unfoldable pub format_finite : ℕ → ℤ → List ℕ
unfolding big_string format_plain format_scientific
format_finite coefficient exponent =
    let ds = big_string coefficient in
    let adjexp = exponent +ℤ pos (length ds) -ℤ pos 1 in
    if leb_ℤ exponent (pos 0) && leb_ℤ (negsuc 5) adjexp
    then format_plain ds (neg_part exponent)
    else format_scientific ds adjexp

abbrev pub signed : Bool → List ℕ → List ℕ
signed true body = b'-' ∷ body
signed false body = body

unfoldable pub format_decimal_gda : ℕ → ℤ → Bool → Option Special → List ℕ
unfolding format_finite
format_decimal_gda coefficient exponent negative special =
    signed negative
      (elim special [ some s ↦ special_name s | none ↦ format_finite coefficient exponent ])

unfoldable pub decimal64_to_string : List ℕ → Option (List ℕ)
unfolding decimal64_parts format_decimal_gda
decimal64_to_string b = decimal64_parts b >>= λ d.
    some (format_decimal_gda d.coefficient d.exponent d.negative d.special)

unfoldable pub decimal128_to_string : List ℕ → Option (List ℕ)
unfolding decimal128_to_sign_digits_exponent format_decimal_gda
decimal128_to_string b = decimal128_to_sign_digits_exponent b >>= λ d.
    some (format_decimal_gda d.coefficient d.exponent d.negative d.special)

-- A fixed number takes its exponent from the column's scale.
unfoldable pub decimal_fixed_to_string : List ℕ → ℤ → Option (List ℕ)
unfolding decimal128_to_sign_digits_exponent format_decimal_gda
decimal_fixed_to_string b scale = decimal128_to_sign_digits_exponent b >>= λ d.
    some (format_decimal_gda d.coefficient scale d.negative d.special)
