-- ===== src/Xpb/Tests.antt =====
-- Runs of the parameter block reader and writer, and their theorems at concrete values.
use firebirdsql_go.Base.{
  ℕ, ◌≡◌, refl, arith, pos, negsuc, ◌-◌, ◌^◌, true, none, some, List, [], ◌∷◌, map, bytes_of,
}
use firebirdsql_go.Xpb.{XpbReader, new_reader, at_end, skip}
use firebirdsql_go.Xpb.Bounds.{
  Call, next_call, string_call, int32_call, skip_call, reset_call, perform_all, reader_never_panics,
  InBounds,
}
use firebirdsql_go.Xpb.RoundTrip.{
  Field, tag_field, byte_field, int32_field, string_field, kind_of, put_fields, read_fields,
  read_fields-put_fields,
}

abbrev block : List Field
block =
    tag_field 2
    ∷ byte_field 5 1
    ∷ int32_field 7 (negsuc 41)
    ∷ string_field 9 (bytes_of "SYSDBA")
    ∷ []

read_fields-put_fields_example :
    (r : XpbReader) × (read_fields (map kind_of block) (new_reader (put_fields [] block))
      ≡ some (r, block))
    × (r.err ≡ none)
    × (at_end r ≡ true)
read_fields-put_fields_example =
    read_fields-put_fields block (tt, (tt, (omega arith, (omega arith, tt))))

-- A string that claims 300 bytes, in a block of five.
abbrev hostile : List ℕ
hostile = 1 ∷ 44 ∷ 1 ∷ 7 ∷ 7 ∷ []

abbrev calls : List Call
calls =
    next_call
    ∷ string_call
    ∷ next_call
    ∷ reset_call
    ∷ int32_call
    ∷ skip_call (pos 2)
    ∷ skip_call (negsuc 0)
    ∷ []

reader_never_panics_example :
    (q : XpbReader) × (perform_all (new_reader hostile) calls ≡ some q)
    × (q.buf ≡ hostile)
    × InBounds q
reader_never_panics_example =
    reader_never_panics hostile calls (omega arith)
      (tt, (tt, (tt, (tt, (tt, (omega arith, (tt, tt)))))))

-- Behind the first byte, Skip(math.MaxInt64) wraps.
wrapped : skip (record { buf = hostile; cursor = 1; err = none }) (pos (2 ^ 63 - 1)) ≡ none
unfolding skip
wrapped = refl
