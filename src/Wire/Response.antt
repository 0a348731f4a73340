-- ===== src/Wire/Response.antt =====
-- `_parse_op_response` of wireprotocol.go. The tables of codes, `gdsToSQLState` and `gdsToSQLCode`,
-- are parameters. An error of the wire keeps nothing of what was read before it.
pub mod Outcome
pub mod Answer
use firebirdsql_go.Base.{
  ℕ, ℤ, pos, Bool, true, false, not, ◌&&◌, ◌||◌, Option, none, some, List, [], ◌∷◌, take, drop,
  length, ltb, bytes_eq, if◌then◌else◌,
}
use firebirdsql_go.Bytes.{bytes_to_bint32}
use firebirdsql_go.Wire.{
  Recv, ◌>>=◌, return, or_panic, recv_packets, recv_alignment, checked_length,
}
use firebirdsql_go.Wire.Status.{StatusVector, is_zero, parse_status_vector}

pub record FbError : Type 0 where
  pub gds_codes : List ℤ
  pub sql_code : ℤ
  pub sql_state : List ℕ
  pub params : List (List (List ℕ))
  pub warnings : List ℤ
  pub message : List ℕ

pub record Response : Type 0 where
  pub handle : ℤ
  pub oid : List ℕ
  pub buf : List ℕ
  pub error : Option FbError

-- The buffer is read only if its length is positive.
unfoldable pub response_buffer : ℕ → Recv (List ℕ)
response_buffer n = if ltb 0 n then recv_alignment n else return []

module _ (errmsgs : ℤ → List ℕ) (gds_to_sql_state : ℤ → List ℕ) (gds_to_sql_code : ℤ → ℤ) where
  -- What the vector does not say is looked up by its first code.
  abbrev pub state_of : List ℤ → List ℕ → List ℕ
  state_of [] s = s
  state_of (c ∷ cs) s = if bytes_eq s [] then gds_to_sql_state c else s

  abbrev pub code_of : List ℤ → ℤ → ℤ
  code_of [] z = z
  code_of (c ∷ cs) z = if is_zero z then gds_to_sql_code c else z

  unfoldable pub response_error : StatusVector → Option FbError
  response_error sv =
      if ltb 0 (length sv.gds_codes) || not (is_zero sv.sql_code)
      then some record {
        gds_codes = sv.gds_codes;
        sql_code = code_of sv.gds_codes sv.sql_code;
        sql_state = state_of sv.gds_codes sv.sql_state;
        params = sv.params;
        warnings = sv.warnings;
        message = sv.message;
      }
      else none

  unfoldable pub parse_op_response : Recv Response
  parse_op_response = recv_packets 16 >>= λ b. or_panic (bytes_to_bint32 (take 4 b)) >>= λ h.
      or_panic (bytes_to_bint32 (drop 12 b)) >>= λ ln. checked_length ln >>= λ n.
      response_buffer n >>= λ buf. parse_status_vector errmsgs >>= λ sv.
      return record { handle = h; oid = take 8 (drop 4 b); buf = buf; error = response_error sv }
