-- ===== src/Wire/Tests.antt =====
-- Runs of the receivers, and the theorems at concrete streams.
use firebirdsql_go.Base.{
  ℕ, ◌+◌, ◌≤◌, ◌≡◌, ◌↔◌, refl, arith, ℤ, pos, true, none, some, List, [], ◌∷◌, length, All,
  bytes_of, bytes_eq,
}
use firebirdsql_go.Texts.{replace_first, itoa, digits}
use firebirdsql_go.Wire.{ok, Stream, recv_loop}
use firebirdsql_go.Wire.Safety.{Safe}
use firebirdsql_go.Wire.Status.{
  Parser, Arg, gds, warning, number, string, interpreted, sql_state_arg, other, parse_status_vector,
  new_parser, apply_arg, substitute, fill,
}
use firebirdsql_go.Wire.Status.RoundTrip.{
  encode_args, Fits, run_args, parse_status_vector-encode_args,
}
use firebirdsql_go.Wire.Status.Safety.{parse_status_vector-Safe}
use firebirdsql_go.Wire.Status.Collected.{Holds, codes_sent, warnings_sent, collects}
use firebirdsql_go.Wire.Status.Warnings.{SameError, warning_keeps_error}
use firebirdsql_go.Wire.Response.{Response, parse_op_response}
use firebirdsql_go.Wire.Response.Outcome.{encode_response, parse_op_response_outcome}
use firebirdsql_go.Blob.Segments.{concat}
use firebirdsql_go.Wire.InlineBlob.{parse_inline_blob_payload}
use firebirdsql_go.Wire.InlineBlob.Delivery.{encode_inline_blob, parse_inline_blob-encode}

-- One message for all codes.
abbrev one_message : ℤ → List ℕ
one_message c = bytes_of "table @1 has @2"

abbrev no_state : ℤ → List ℕ
no_state c = bytes_of "42000"

abbrev no_code : ℤ → ℤ
no_code c = pos 104

abbrev sample_args : List Arg
sample_args =
    gds (pos 335544569)
    ∷ string (bytes_of "T")
    ∷ number (pos 12)
    ∷ sql_state_arg (bytes_of "42S02")
    ∷ warning (pos 335544321)
    ∷ string (bytes_of "dropped")
    ∷ other (pos 7)
    ∷ []

sample_args-Fits : All Fits sample_args
sample_args-Fits = (
  omega arith,
  (
    omega arith,
    (
      omega arith,
      (
        omega arith,
        (
          omega arith,
          (
            omega arith,
            ((omega arith, (refl, (refl, (refl, (refl, (refl, (refl, (refl, tt)))))))), tt),
          ),
        ),
      ),
    ),
  ),
)

-- What the parser leaves: the message with its placeholders replaced.
abbrev sample_parser : Parser
sample_parser = record {
  sv = record {
    gds_codes = pos 335544569 ∷ [];
    sql_code = pos 0;
    sql_state = bytes_of "42S02";
    params = (bytes_of "T" ∷ bytes_of "12" ∷ []) ∷ [];
    warnings = pos 335544321 ∷ [];
    message = bytes_of "table T has 12";
  };
  gds_code = pos 335544569;
  num_arg = 1;
  current_idx = some 0;
  in_warning = true;
}

sample_run : run_args one_message new_parser sample_args ≡ some sample_parser
unfolding apply_arg substitute fill replace_first itoa digits bytes_eq
sample_run = refl

three_chunks :
    recv_loop 4 ((1 ∷ []) ∷ (2 ∷ 3 ∷ []) ∷ (4 ∷ 5 ∷ []) ∷ []) []
    ≡ ok (1 ∷ 2 ∷ 3 ∷ 4 ∷ [], (5 ∷ []) ∷ [])
unfolding recv_loop
three_chunks = refl

abbrev chunked : List (List ℕ)
chunked = (1 ∷ []) ∷ (2 ∷ 3 ∷ []) ∷ (4 ∷ 5 ∷ []) ∷ []

abbrev hostile : Stream
hostile = 255 ∷ 0 ∷ 0 ∷ 0 ∷ 1 ∷ []

parse_status_vector-Safe_example :
    Safe
      (λ sv rest. (length sv.params ≡ length sv.gds_codes) × (length rest + 4 ≤ length hostile))
      (parse_status_vector one_message hostile)
parse_status_vector-Safe_example = parse_status_vector-Safe one_message hostile

parse_status_vector-encode_args_example :
    (q : Parser) × (run_args one_message new_parser sample_args ≡ some q)
    × (parse_status_vector one_message (encode_args sample_args (9 ∷ [])) ≡ ok (q.sv, 9 ∷ []))
parse_status_vector-encode_args_example =
    parse_status_vector-encode_args one_message sample_args (9 ∷ []) sample_args-Fits

collects_example :
    (sample_parser.sv.gds_codes ≡ codes_sent sample_args)
    × (sample_parser.sv.warnings ≡ warnings_sent sample_args)
    × (sample_parser.sv.gds_codes ≡ [] → sample_parser.sv.sql_code ≡ pos 0)
collects_example = collects one_message sample_args sample_parser sample_run

warning_keeps_error_example : Holds (SameError sample_parser) (
    run_args one_message sample_parser
      (warning (pos 7) ∷ number (pos 3) ∷ interpreted (bytes_of "x") ∷ []))
warning_keeps_error_example =
    warning_keeps_error one_message sample_parser (pos 7)
      (number (pos 3) ∷ interpreted (bytes_of "x") ∷ []) refl (tt, (tt, tt))

parse_op_response_outcome_example :
    (r : Response) × (parse_op_response one_message no_state no_code
        (encode_response (pos 3) (1 ∷ 2 ∷ 3 ∷ 4 ∷ 5 ∷ 6 ∷ 7 ∷ 8 ∷ []) (5 ∷ []) sample_args [])
      ≡ ok (r, []))
    × (r.handle ≡ pos 3)
    × (r.oid ≡ 1 ∷ 2 ∷ 3 ∷ 4 ∷ 5 ∷ 6 ∷ 7 ∷ 8 ∷ [])
    × (r.buf ≡ 5 ∷ [])
    × ((r.error ≡ none) ↔ (codes_sent sample_args ≡ []))
parse_op_response_outcome_example =
    parse_op_response_outcome one_message no_state no_code (pos 3)
      (1 ∷ 2 ∷ 3 ∷ 4 ∷ 5 ∷ 6 ∷ 7 ∷ 8 ∷ []) (5 ∷ []) sample_args [] (omega arith) refl (omega arith)
      sample_args-Fits

abbrev pieces : List (List ℕ)
pieces = (10 ∷ 11 ∷ []) ∷ (12 ∷ []) ∷ []

parse_inline_blob-encode_example :
    parse_inline_blob_payload (encode_inline_blob (pos 3) (pos 5) (1 ∷ []) pieces (9 ∷ []))
    ≡ ok (record { tx_handle = pos 3; blob_id = pos 5; content = concat pieces }, 9 ∷ [])
parse_inline_blob-encode_example =
    parse_inline_blob-encode (pos 3) (pos 5) (1 ∷ []) pieces (9 ∷ []) (omega arith) (omega arith)
      (omega arith) (omega arith) (omega arith, (omega arith, tt))
