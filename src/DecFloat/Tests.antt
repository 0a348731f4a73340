-- ===== src/DecFloat/Tests.antt =====
-- Decimals on concrete bytes.
use firebirdsql_go.Base.{
  ◌≡◌, refl, arith, ◌^◌, pos, negsuc, ◌-ℤ◌, ◌+ℤ◌, true, false, none, some, [], ◌∷◌, bytes_of,
}
use firebirdsql_go.Texts.{digits, itoa}
use firebirdsql_go.DecFloat.{
  decimal128_to_sign_digits_exponent, decimal64_number, decimal64_parts, calc_significand, segments,
  add_segments, dpd_to_int, bytes_to_big_int, format_decimal_gda, format_finite, format_plain,
  format_scientific, big_string, decimal64_to_string,
}
use firebirdsql_go.DecFloat.RoundTrip.{
  encode128, encode64, decimal128-encode128, decimal64-encode64,
}
use firebirdsql_go.DecFloat.Total.{Within, decimals_total}

plain_text : format_decimal_gda 123 (negsuc 4) true none ≡ bytes_of "-0.00123"
unfolding format_decimal_gda format_finite format_plain format_scientific big_string digits ◌+ℤ◌
    ◌-ℤ◌
plain_text = refl

scientific_text : format_decimal_gda 12345 (pos 3) false none ≡ bytes_of "1.2345E+7"
unfolding format_decimal_gda format_finite format_plain format_scientific big_string digits itoa
    ◌+ℤ◌ ◌-ℤ◌
scientific_text = refl

-- -1.23 in eight bytes.
text_of_bytes :
    decimal64_to_string (162 ∷ 48 ∷ 0 ∷ 0 ∷ 0 ∷ 0 ∷ 0 ∷ 163 ∷ []) ≡ some (bytes_of "-1.23")
unfolding decimal64_to_string decimal64_parts decimal64_number calc_significand segments
    add_segments dpd_to_int bytes_to_big_int format_decimal_gda format_finite format_plain
    format_scientific big_string digits ◌+ℤ◌ ◌-ℤ◌
text_of_bytes = refl

decimal128-encode128_example :
    decimal128_to_sign_digits_exponent (encode128 true 123456789 6170)
    ≡ some record {
      coefficient = 123456789;
      exponent = pos 6170 -ℤ pos 6176;
      negative = true;
      special = none;
    }
decimal128-encode128_example = decimal128-encode128 true 123456789 6170 (omega arith) (omega arith)

decimal64-encode64_example :
    decimal64_parts (encode64 false 9876543210123456 398)
    ≡ some record {
      coefficient = 9876543210123456;
      exponent = pos 398 -ℤ pos 398;
      negative = false;
      special = none;
    }
decimal64-encode64_example =
    decimal64-encode64 false 9876543210123456 398 (omega arith) (omega arith)

decimals_total_example :
    Within
      (10 ^ 34)
      (negsuc 6175)
      (pos 6111)
      (decimal128_to_sign_digits_exponent (162 ∷ 48 ∷ 0 ∷ 0 ∷ 0 ∷ 0 ∷ 0 ∷ 163 ∷ []))
    × Within
        (10 ^ 16)
        (negsuc 397)
        (pos 369)
        (decimal64_parts (162 ∷ 48 ∷ 0 ∷ 0 ∷ 0 ∷ 0 ∷ 0 ∷ 163 ∷ []))
decimals_total_example =
    decimals_total 162 48 0 (0 ∷ 0 ∷ 0 ∷ 0 ∷ 163 ∷ []) (omega arith) (omega arith) (omega arith)
