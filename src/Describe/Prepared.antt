-- ===== src/Describe/Prepared.antt =====
-- The description of a prepared statement as a server writes it: its type, its number of columns, and
-- the columns.
use firebirdsql_go.Base.{
  ℕ, suc, ◌+◌, ◌-◌, ◌^◌, ◌<◌, ◌≡◌, ◌≢◌, refl, ap, ◌∙◌, arith, ℤ, pos, ◌||◌, none, List, [], ◌∷◌,
  ◌++◌, length, map, drop, ltb, if_cases, IsI32, All,
}
use firebirdsql_go.Bytes.{int32_to_bytes, bytes_to_uint16}
use firebirdsql_go.Bytes.RoundTrip.{int32_round_trip}
use firebirdsql_go.Wire.{Result, ok, err, Recv, Stream, ◌>>=◌, return, or_panic, malformed}
use firebirdsql_go.Describe.{XsqlVar}
use firebirdsql_go.Describe.Columns.{Fits, kept, encode_columns, parse_select_items-encode_columns}
use firebirdsql_go.Describe.Statement.{
  starts, column_count, continue_select, statement_type, select_header, select_columns, xsqlda_loop,
  parse_xsqlda,
}

abbrev pub encode_statement : ℤ → List XsqlVar → List ℕ
encode_statement t cs =
    21
    ∷ 4
    ∷ 0
    ∷ (int32_to_bytes t
        ++ 4 ∷ 7 ∷ 4 ∷ 0 ∷ (int32_to_bytes (pos (length cs)) ++ encode_columns 0 cs []))

column_count_fits : (n : ℕ) (s : Stream) → n < 2 ^ 16 → column_count (pos n) s ≡ ok (n, s)
unfolding column_count
column_count_fits n s h = ground arith

-- A description that needs no continuation.
continue_select_done :
    (more : ℕ → Recv (List ℕ)) (fuel : ℕ) (buf : List ℕ) (xs : List XsqlVar) (s : Stream)
    → continue_select more (fuel + 1) buf (none, xs) s ≡ ok ((xs, buf), s)
unfolding continue_select
continue_select_done more fuel buf xs s = let e : fuel + 1 ≡ suc fuel = omega arith in rw e refl

module _ (t : ℤ) (cs : List XsqlVar) (s : Stream) where
  abbrev buf : List ℕ
  buf = encode_statement t cs

  statement_type-encode : IsI32 t → statement_type buf 0 s ≡ ok ((t, 7), s)
  unfolding statement_type int32_to_bytes bytes_to_uint16
  statement_type-encode h =
      if_cases {A = Recv (ℤ × ℕ)} (λ m. m s ≡ ok ((t, 7), s)) (ltb 4 4 || ltb (length buf) 7)
        (λ short. absurd (ground arith))
        (λ _. ap (λ o. (or_panic o >>= λ z. return (z, 7)) s) (int32_round_trip t [] h))

  select_header-encode : length cs < 2 ^ 16 → select_header buf 7 s ≡ ok ((length cs, 15), s)
  unfolding select_header int32_to_bytes bytes_to_uint16
  select_header-encode h =
      let P : Recv (ℕ × ℕ) → Type 0 = λ m. m s ≡ ok ((length cs, 15), s) in
      if_cases P (ltb (length buf) (7 + 2 + 2)) (λ short. absurd (ground arith))
        λ _.
          if_cases P (ltb 4 4 || ltb (length buf) 15) (λ short. absurd (ground arith))
            λ _.
              ap (λ o. (or_panic o >>= λ z. column_count z >>= λ n. return (n, 15)) s)
                (int32_round_trip (pos (length cs)) [] (omega arith))
              ∙ rw (column_count_fits (length cs) s h, ◌>>=◌) refl

module _ (more : ℕ → Recv (List ℕ)) (t : ℤ) (cs : List XsqlVar) (s : Stream) (cs-Fit : All Fits cs)
    (few : length cs < 2 ^ 16) where
  select_columns-encode :
      select_columns more (encode_statement t cs) 7 s ≡ ok ((map kept cs, encode_statement t cs), s)
  unfolding select_columns int32_to_bytes
  select_columns-encode =
      rw (select_header-encode t cs s few, ◌>>=◌)
        (rw (parse_select_items-encode_columns cs [] cs-Fit few)
          (continue_select_done more (length s) (encode_statement t cs) (map kept cs) s))

  abbrev loop : ℕ → ℕ → ℤ → List XsqlVar → Result ((ℤ × List XsqlVar) × Stream)
  loop fuel i t' xs = xsqlda_loop more fuel (encode_statement t cs) i t' xs s

  type_round : (fuel : ℕ) → IsI32 t → loop (suc fuel) 0 (pos 0) [] ≡ loop fuel 7 t []
  unfolding xsqlda_loop int32_to_bytes
  type_round fuel h =
      if_cases {A = Recv (ℤ × List XsqlVar)} (λ m. m s ≡ loop fuel 7 t [])
        (ltb 0 (length (encode_statement t cs)))
        (λ _. rw (statement_type-encode t cs s h, ◌>>=◌) refl) (λ out. absurd (ground arith))

  select_round : (fuel : ℕ) → loop (suc fuel) 7 t [] ≡ loop fuel 11 t (map kept cs)
  unfolding xsqlda_loop int32_to_bytes
  select_round fuel =
      if_cases {A = Recv (ℤ × List XsqlVar)} (λ m. m s ≡ loop fuel 11 t (map kept cs))
        (ltb 7 (length (encode_statement t cs))) (λ _. rw (select_columns-encode, ◌>>=◌) refl)
        (λ out. absurd (ground arith))

  -- The loop goes on at the bytes of the count, which mean nothing to it.
  last_round :
      (fuel : ℕ) (xs : List XsqlVar)
      → length cs ≢ 1045
      → length cs ≢ 1796
      → loop (suc fuel) 11 t xs ≡ ok ((t, xs), s)
  unfolding xsqlda_loop int32_to_bytes
  last_round fuel xs h k =
      let P : Recv (ℤ × List XsqlVar) → Type 0 = λ m. m s ≡ ok ((t, xs), s) in
      if_cases P (ltb 11 (length (encode_statement t cs)))
        (λ _.
          if_cases P (starts (21 ∷ 4 ∷ 0 ∷ []) (drop 11 (encode_statement t cs)))
            (λ e. absurd (h (ground (arith, few))))
            λ _.
              if_cases P (starts (4 ∷ 7 ∷ []) (drop 11 (encode_statement t cs)))
                (λ e. absurd (k (ground (arith, few)))) (λ _. refl))
        (λ _. refl)

  -- The bytes of this count read as a second description, of a count of no bytes.
  count_round :
      (fuel : ℕ) (xs : List XsqlVar) → length cs ≡ 1796 → loop (suc fuel) 11 t xs ≡ err malformed
  unfolding xsqlda_loop int32_to_bytes select_columns select_header bytes_to_uint16
  count_round fuel xs e =
      let P : Recv (ℤ × List XsqlVar) → Type 0 = λ m. m s ≡ err malformed in
      if_cases P (ltb 11 (length (encode_statement t cs))) (λ _. rw e (ground arith))
        (λ out. absurd (ground arith))

  three_rounds :
      length (encode_statement t cs) + length s + 1
      ≡ suc (suc (suc (length (encode_statement t cs) + length s - 2)))
  unfolding int32_to_bytes
  three_rounds = omega arith

  first_rounds :
      IsI32 t
      → parse_xsqlda more (encode_statement t cs) s
        ≡ loop (suc (length (encode_statement t cs) + length s - 2)) 11 t (map kept cs)
  unfolding parse_xsqlda
  first_rounds h =
      ap (λ n. loop n 0 (pos 0) []) three_rounds
      ∙ type_round (suc (suc (length (encode_statement t cs) + length s - 2))) h
      ∙ select_round (suc (length (encode_statement t cs) + length s - 2))

  -- A statement's type and its columns come through, with the nullable flag taken off each type, and
  -- nothing is read from the network, unless there are 1045 or 1796 columns. There are fewer than 65536
  -- columns, which fit, and the type is of 32 bits.
  pub parse_xsqlda-encode_statement :
      IsI32 t
      → length cs ≢ 1045
      → length cs ≢ 1796
      → parse_xsqlda more (encode_statement t cs) s ≡ ok ((t, map kept cs), s)
  parse_xsqlda-encode_statement h k l =
      first_rounds h ∙ last_round (length (encode_statement t cs) + length s - 2) (map kept cs) k l

  -- A SELECT of 1796 columns is refused as malformed, however the server describes them: the bytes 4
  -- and 7 of the count are taken for the start of a second description. The columns fit, and the type is
  -- of 32 bits.
  parse_xsqlda_rereads_count :
      IsI32 t → length cs ≡ 1796 → parse_xsqlda more (encode_statement t cs) s ≡ err malformed
  parse_xsqlda_rereads_count h e =
      first_rounds h ∙ count_round (length (encode_statement t cs) + length s - 2) (map kept cs) e
