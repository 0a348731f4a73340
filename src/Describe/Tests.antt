-- ===== src/Describe/Tests.antt =====
-- Descriptions at concrete values.
use firebirdsql_go.Base.{
  ℕ, zero, suc, ◌≡◌, arith, ℤ, Bool, pos, negsuc, true, none, List, [], ◌∷◌, replicate, All,
  bytes_of,
}
use firebirdsql_go.Wire.{ok, Recv, Stream}
use firebirdsql_go.Wire.{recv_handshake_blob}
use firebirdsql_go.Describe.{XsqlVar, blank, parse_select_items}
use firebirdsql_go.Describe.Safety.{Returns, InColumns, parse_select_items-Safe}
use firebirdsql_go.Describe.Columns.{Fits, kept, encode_columns, parse_select_items-encode_columns}
use firebirdsql_go.Describe.Statement.{parse_xsqlda}
use firebirdsql_go.Describe.Prepared.{encode_statement, parse_xsqlda-encode_statement}

abbrev id_column : XsqlVar
id_column = record {
  sqltype = pos 497;
  sqlsubtype = pos 0;
  sqlscale = negsuc 1;
  sqllen = pos 4;
  null_ok = true;
  fieldname = bytes_of "ID";
  relname = bytes_of "T";
  ownname = bytes_of "SYSDBA";
  aliasname = bytes_of "ID";
}

id_column-Fits : Fits id_column
id_column-Fits = record {
  type_fits = omega arith;
  subtype_fits = omega arith;
  scale_fits = omega arith;
  len_fits = omega arith;
  field_fits = omega arith;
  rel_fits = omega arith;
  own_fits = omega arith;
  alias_fits = omega arith;
}

repeated : (n : ℕ) → All Fits (replicate n id_column)
repeated zero = tt
repeated (suc n) = (id_column-Fits, repeated n)

-- The reply to a continuation, as a blob that comes next on the stream.
abbrev next_blob : ℕ → Recv (List ℕ)
next_blob k = recv_handshake_blob

parse_select_items-Safe_example :
    Returns (InColumns 1) (parse_select_items (9 ∷ 4 ∷ 0 ∷ 1 ∷ []) (blank ∷ []))
parse_select_items-Safe_example = parse_select_items-Safe (9 ∷ 4 ∷ 0 ∷ 1 ∷ []) (blank ∷ [])

parse_select_items-encode_columns_example :
    parse_select_items (encode_columns 0 (id_column ∷ []) (7 ∷ [])) (blank ∷ [])
    ≡ ok (none, kept id_column ∷ [])
parse_select_items-encode_columns_example =
    parse_select_items-encode_columns (id_column ∷ []) (7 ∷ []) (id_column-Fits, tt) (omega arith)

abbrev no_text : ℤ → List ℕ
no_text c = []

abbrev same_code : ℤ → ℤ
same_code c = c

abbrev always : Stream → Bool
always s = true

-- One column, whose description goes on in the next response, and a response that breaks off behind
-- op_dummy.
abbrev continued : List ℕ
continued = 4 ∷ 7 ∷ 4 ∷ 0 ∷ 1 ∷ 0 ∷ 0 ∷ 0 ∷ 9 ∷ 4 ∷ 0 ∷ 1 ∷ 0 ∷ 0 ∷ 0 ∷ 2 ∷ []

parse_xsqlda-encode_statement_example :
    parse_xsqlda next_blob (encode_statement (pos 1) (id_column ∷ [])) []
    ≡ ok ((pos 1, kept id_column ∷ []), [])
parse_xsqlda-encode_statement_example =
    parse_xsqlda-encode_statement next_blob (pos 1) (id_column ∷ []) [] (id_column-Fits, tt)
      (omega arith) (omega arith) (λ e. omega (arith, e)) (λ e. omega (arith, e))
