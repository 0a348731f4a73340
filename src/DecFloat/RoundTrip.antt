-- ===== src/DecFloat/RoundTrip.antt =====
-- Numbers in the interchange formats of IEEE 754, as a server encodes them, read back.
use firebirdsql_go.Base.{
  ◌>>=◌, ℕ, zero, suc, ◌+◌, ◌-◌, ◌*◌, ◌/◌, ◌%◌, ◌^◌, ◌<◌, ◌≡◌, refl, ap, ◌∙◌, arith, pos, ◌-ℤ◌,
  Bool, false, none, some, List, [], ◌∷◌, ltb, ◌==◌, if◌then◌else◌,
}
use firebirdsql_go.DecFloat.{
  decimal128_to_sign_digits_exponent, decimal128_number, decimal64_number, decimal64_parts,
  combination, calc_significand, bytes_to_big_int,
}
use firebirdsql_go.DecFloat.Dpd.{
  thousands, top, pack, calc_significand-pack, calc_significand-pack64, pack_lt128, pack_lt64,
}

abbrev big_endian : ℕ → ℕ → List ℕ → List ℕ
big_endian zero n acc = acc
big_endian (suc k) n acc = big_endian k (n / 256) (n % 256 ∷ acc)

-- The first digit and the two high bits of the exponent in five bits.
abbrev field : ℕ → ℕ → ℕ
field first high = if ltb first 8 then high * 8 + first else 24 + high * 2 + (first - 8)

abbrev pub sign_bit : Bool → ℕ
sign_bit b = if b then 1 else 0

abbrev pub encode128 : Bool → ℕ → ℕ → List ℕ
encode128 negative c e =
    big_endian 16
      (sign_bit negative * 2 ^ 127
        + (field (top 11 c) (e / 2 ^ 12) * 2 ^ 12 + e % 2 ^ 12) * 2 ^ 110
        + pack (thousands 11 c))
      []

abbrev pub encode64 : Bool → ℕ → ℕ → List ℕ
encode64 negative c e =
    big_endian 8
      (sign_bit negative * 2 ^ 63
        + (field (top 5 c) (e / 2 ^ 8) * 2 ^ 8 + e % 2 ^ 8) * 2 ^ 50
        + pack (thousands 5 c))
      []

combination-field :
    (first high : ℕ)
    → first < 10
    → high < 3
    → (combination (field first high) ≡ some (high, first)) × (field first high < 30)
combination-field first high h k = ground arith

-- The bytes make up the number.
bytes_to_big_int-big_endian : (n : ℕ) → n < 2 ^ 128 → bytes_to_big_int 0 (big_endian 16 n []) ≡ n
unfolding bytes_to_big_int
bytes_to_big_int-big_endian n h = omega arith

bytes_to_big_int-big_endian64 : (n : ℕ) → n < 2 ^ 64 → bytes_to_big_int 0 (big_endian 8 n []) ≡ n
unfolding bytes_to_big_int
bytes_to_big_int-big_endian64 n h = omega arith

abbrev down : ℕ → ℕ → ℕ
down zero n = n
down (suc k) n = down k (n / 256)

-- The bits of the combination field, where the code looks for them.
abbrev combination_bits : ℕ → ℕ
combination_bits n = down 15 n % 256 % 128 * 2 ^ 10 + down 14 n % 256 * 4 + down 13 n % 256 / 64

abbrev exponent_bits : ℕ → ℕ
exponent_bits n = down 7 n % 256 % 4 * 2 ^ 6 + down 6 n % 256 / 4 % 2 ^ 6

-- The parts of a number of 128 bits.
parts128 :
    (s f lo p : ℕ)
    → s < 2
    → f < 32
    → lo < 2 ^ 12
    → p < 2 ^ 110
    → let n = s * 2 ^ 127 + (f * 2 ^ 12 + lo) * 2 ^ 110 + p in
      (n < 2 ^ 128)
      × (down 15 n % 256 / 128 ≡ s)
      × (combination_bits n ≡ f * 2 ^ 12 + lo)
      × (n % 2 ^ 110 ≡ p)
parts128 s f lo p hs hf hl hp = omega arith

parts64 :
    (s f lo p : ℕ)
    → s < 2
    → f < 32
    → lo < 2 ^ 8
    → p < 2 ^ 50
    → let n = s * 2 ^ 63 + (f * 2 ^ 8 + lo) * 2 ^ 50 + p in
      (n < 2 ^ 64)
      × (down 7 n % 256 / 128 ≡ s)
      × (down 7 n % 256 / 4 % 32 ≡ f)
      × (exponent_bits n ≡ lo)
      × (n % 2 ^ 50 ≡ p)
parts64 s f lo p hs hf hl hp = omega arith

sign_bit_lem : (b : Bool) → (sign_bit b < 2) × ((sign_bit b == 1) ≡ b)
sign_bit_lem b = ground arith

number128_lem :
    (negative : Bool) (f lo p : ℕ)
    → f < 30
    → lo < 2 ^ 12
    → decimal128_number negative (f * 2 ^ 12 + lo) p ≡ (
        combination f >>= λ (high, prefix). calc_significand prefix p 110 >>= λ c. some record {
          coefficient = c;
          exponent = pos (high * 2 ^ 12 + lo) -ℤ pos 6176;
          negative = negative;
          special = none;
        })
unfolding decimal128_number
number128_lem negative f lo p hf hl =
    rw (quotient f lo hl, remainder f lo hl, not_nan f hf, not_infinite f hf) refl
  where
    quotient : (f lo : ℕ) → lo < 2 ^ 12 → (f * 2 ^ 12 + lo) / 2 ^ 12 ≡ f
    quotient f lo h = omega arith

    remainder : (f lo : ℕ) → lo < 2 ^ 12 → (f * 2 ^ 12 + lo) % 2 ^ 12 ≡ lo
    remainder f lo h = omega arith

    not_nan : (f : ℕ) → f < 30 → (f == 31) ≡ false
    not_nan f h = ground arith

    not_infinite : (f : ℕ) → f < 30 → (f == 30) ≡ false
    not_infinite f h = ground arith

number64_lem :
    (negative : Bool) (f lo p : ℕ)
    → f < 30
    → decimal64_number negative f lo p ≡ (
        combination f >>= λ (high, prefix). calc_significand prefix p 50 >>= λ c. some record {
          coefficient = c;
          exponent = pos (high * 2 ^ 8 + lo) -ℤ pos 398;
          negative = negative;
          special = none;
        })
unfolding decimal64_number
number64_lem negative f lo p hf = rw (not_nan f hf, not_infinite f hf) refl
  where
    not_nan : (f : ℕ) → f < 30 → (f == 31) ≡ false
    not_nan f h = ground arith

    not_infinite : (f : ℕ) → f < 30 → (f == 30) ≡ false
    not_infinite f h = ground arith

-- A finite decimal of 128 bits in the encoding of IEEE 754 with densely packed digits reads back
-- as its sign, coefficient and exponent, for each coefficient of at most 34 digits and each
-- exponent of the format.
pub decimal128-encode128 :
    (negative : Bool) (c e : ℕ)
    → c < 10 ^ 34
    → e < 3 * 2 ^ 12
    → decimal128_to_sign_digits_exponent (encode128 negative c e)
      ≡ some record {
        coefficient = c;
        exponent = pos e -ℤ pos 6176;
        negative = negative;
        special = none;
      }
unfolding decimal128_to_sign_digits_exponent
decimal128-encode128 negative c e hc he =
    let first = top 11 c in
    let high = e / 2 ^ 12 in
    let lo = e % 2 ^ 12 in
    let p = pack (thousands 11 c) in
    let (combined, small) = combination-field first high (first_digit c hc) (omega arith) in
    let (bit, sign) = sign_bit_lem negative in
    let f = field first high in
    let (bound, s, cf, low) =
      parts128 (sign_bit negative) f lo p bit (omega arith) (omega arith) (pack_lt128 c) in
    let n = sign_bit negative * 2 ^ 127 + (f * 2 ^ 12 + lo) * 2 ^ 110 + p in
    ap
      (λ b.
        decimal128_number b (combination_bits n)
          (bytes_to_big_int 0 (big_endian 16 n []) % 2 ^ 110))
      (ap (λ t. t == 1) s ∙ sign)
    ∙ ap (λ t. decimal128_number negative t (bytes_to_big_int 0 (big_endian 16 n []) % 2 ^ 110)) cf
    ∙ ap (λ t. decimal128_number negative (f * 2 ^ 12 + lo) t)
        (ap (λ t. t % 2 ^ 110) (bytes_to_big_int-big_endian n bound) ∙ low)
    ∙ number128_lem negative f lo p small (omega arith)
    ∙ rw (combined, calc_significand-pack c)
        (ap
          (λ x. some record {
            coefficient = c;
            exponent = pos x -ℤ pos 6176;
            negative = negative;
            special = none;
          })
          (omega arith))
  where
    first_digit : (c : ℕ) → c < 10 ^ 34 → top 11 c < 10
    first_digit c h = omega arith

-- A finite decimal of 64 bits in the encoding of IEEE 754 with densely packed digits reads back
-- as its sign, coefficient and exponent, for each coefficient of at most 16 digits and each
-- exponent of the format.
pub decimal64-encode64 :
    (negative : Bool) (c e : ℕ)
    → c < 10 ^ 16
    → e < 3 * 2 ^ 8
    → decimal64_parts (encode64 negative c e)
      ≡ some record {
        coefficient = c;
        exponent = pos e -ℤ pos 398;
        negative = negative;
        special = none;
      }
unfolding decimal64_parts
decimal64-encode64 negative c e hc he =
    let first = top 5 c in
    let high = e / 2 ^ 8 in
    let lo = e % 2 ^ 8 in
    let p = pack (thousands 5 c) in
    let (combined, small) = combination-field first high (first_digit c hc) (omega arith) in
    let (bit, sign) = sign_bit_lem negative in
    let f = field first high in
    let (bound, s, cf, low, rest) =
      parts64 (sign_bit negative) f lo p bit (omega arith) (omega arith) (pack_lt64 c) in
    let n = sign_bit negative * 2 ^ 63 + (f * 2 ^ 8 + lo) * 2 ^ 50 + p in
    let packed = bytes_to_big_int 0 (big_endian 8 n []) % 2 ^ 50 in
    ap (λ b. decimal64_number b (down 7 n % 256 / 4 % 32) (exponent_bits n) packed)
      (ap (λ t. t == 1) s ∙ sign)
    ∙ ap (λ t. decimal64_number negative t (exponent_bits n) packed) cf
    ∙ ap (λ t. decimal64_number negative f t packed) low
    ∙ ap (decimal64_number negative f lo)
        (ap (λ t. t % 2 ^ 50) (bytes_to_big_int-big_endian64 n bound) ∙ rest)
    ∙ number64_lem negative f lo p small
    ∙ rw (combined, calc_significand-pack64 c)
        (ap
          (λ x. some record {
            coefficient = c;
            exponent = pos x -ℤ pos 398;
            negative = negative;
            special = none;
          })
          (omega arith))
  where
    first_digit : (c : ℕ) → c < 10 ^ 16 → top 5 c < 10
    first_digit c h = omega arith
