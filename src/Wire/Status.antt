-- ===== src/Wire/Status.antt =====
-- `_parse_status_vector` of wireprotocol.go: a list of arguments that an end mark closes. The table
-- of messages, `errmsgs`, is a parameter.
pub mod Invariant
pub mod Collected
pub mod Warnings
pub mod RoundTrip
pub mod Safety
use firebirdsql_go.Base.{
  ℕ, zero, suc, ◌+◌, ◌^◌, ℤ, pos, negsuc, Bool, true, false, not, ◌&&◌, Option, none, some, List,
  [], ◌∷◌, ◌++◌, length, ◌==◌, if◌then◌else◌, bytes_of, bytes_eq,
}
use firebirdsql_go.Texts.{replace_first, itoa}
use firebirdsql_go.Wire.{
  Fault, panic, stuck, Result, ok, err, Recv, ◌>>=◌, return, fault, or_panic, recv_int32,
  recv_handshake_blob,
}

pub record StatusVector : Type 0 where
  pub gds_codes : List ℤ
  pub sql_code : ℤ
  pub sql_state : List ℕ
  pub params : List (List (List ℕ))
  pub warnings : List ℤ
  pub message : List ℕ

-- The vector and the local variables; `current_idx` is `none` for -1.
pub record Parser : Type 0 where
  pub sv : StatusVector
  pub gds_code : ℤ
  pub num_arg : ℕ
  pub current_idx : Option ℕ
  pub in_warning : Bool

-- One argument as it is read. Nothing is read for a kind that is not known.
pub data Arg : Type 0 where
  gds warning number : ℤ → Arg
  string interpreted sql_state_arg : List ℕ → Arg
  other : ℤ → Arg

abbrev pub is_arg : ℤ → ℕ → Bool
is_arg (pos n) k = n == k
is_arg (negsuc n) k = false

-- The lengths are checked and the bytes read as `recvHandshakeBlob` does.
unfoldable pub read_arg : ℤ → Recv Arg
read_arg n =
    if is_arg n 1
    then (recv_int32 >>= λ c. return (gds c))
    else if is_arg n 18
    then (recv_int32 >>= λ c. return (warning c))
    else if is_arg n 4
    then (recv_int32 >>= λ c. return (number c))
    else if is_arg n 2
    then (recv_handshake_blob >>= λ b. return (string b))
    else if is_arg n 5
    then (recv_handshake_blob >>= λ b. return (interpreted b))
    else if is_arg n 19
    then (recv_handshake_blob >>= λ b. return (sql_state_arg b))
    else return (other n)

-- `params[i] = append(params[i], s)`; an index out of range would be a panic.
abbrev pub append_at : List (List (List ℕ)) → ℕ → List ℕ → Option (List (List (List ℕ)))
append_at [] i s = none
append_at (p ∷ ps) zero s = some ((p ++ s ∷ []) ∷ ps)
append_at (p ∷ ps) (suc i) s = elim (append_at ps i s) [ none ↦ none | some qs ↦ some (p ∷ qs) ]

abbrev pub append_current : List (List (List ℕ)) → Option ℕ → List ℕ → Option (List (List (List ℕ)))
append_current ps none s = some ps
append_current ps (some i) s = append_at ps i s

abbrev pub placeholder : ℕ → List ℕ
placeholder n = b'@' ∷ itoa (pos n)

-- The placeholder `@N` is replaced, and the text recorded for the current code.
unfoldable pub fill : Parser → List ℕ → Option Parser
fill p s =
    let filled : List (List (List ℕ)) → Parser = λ ps. record p {
      sv = record (p.sv) {
        message = replace_first p.sv.message (placeholder p.num_arg) s;
        params = ps;
      };
    } in
    elim (append_current p.sv.params p.current_idx s) [ none ↦ none | some ps ↦ some (filled ps) ]

-- What a number and a string share.
unfoldable pub substitute : Parser → List ℕ → Option Parser
substitute p s =
    let counted : Parser = record p { num_arg = p.num_arg + 1 } in
    if p.in_warning then some counted else fill counted s

-- What a GDS code puts into the message.
abbrev pub code_message : (ℤ → List ℕ) → ℤ → List ℕ
code_message errmsgs c =
    if bytes_eq (errmsgs c) [] then bytes_of "unknown gds_code: " ++ itoa c else errmsgs c

abbrev pub is_zero : ℤ → Bool
is_zero z = is_arg z 0

abbrev pub isc_sqlerr : ℕ
isc_sqlerr = 335544436

unfoldable pub apply_arg : (ℤ → List ℕ) → Parser → Arg → Option Parser
apply_arg errmsgs p (gds c) =
    if is_zero c
    then some (record p { gds_code = c })
    else some record p {
      gds_code = c;
      in_warning = false;
      current_idx = some (length p.sv.gds_codes);
      num_arg = 0;
      sv = record (p.sv) {
        gds_codes = p.sv.gds_codes ++ c ∷ [];
        params = p.sv.params ++ [] ∷ [];
        message = p.sv.message ++ code_message errmsgs c;
      };
    }
apply_arg errmsgs p (warning c) =
    if is_zero c
    then some p
    else some record p {
      in_warning = true;
      num_arg = 0;
      sv = record (p.sv) { warnings = p.sv.warnings ++ c ∷ [] };
    }
apply_arg errmsgs p (number z) =
    if not p.in_warning && is_arg p.gds_code isc_sqlerr
    then substitute (record p { sv = record (p.sv) { sql_code = z } }) (itoa z)
    else substitute p (itoa z)
apply_arg errmsgs p (string s) = substitute p s
apply_arg errmsgs p (interpreted s) =
    if p.in_warning
    then some p
    else some (record p { sv = record (p.sv) { message = p.sv.message ++ s } })
apply_arg errmsgs p (sql_state_arg s) =
    if not p.in_warning && bytes_eq p.sv.sql_state []
    then some (record p { sv = record (p.sv) { sql_state = s } })
    else some p
apply_arg errmsgs p (other n) = some p

abbrev pub empty_vector : StatusVector
empty_vector = record {
  gds_codes = [];
  sql_code = pos 0;
  sql_state = [];
  params = [];
  warnings = [];
  message = [];
}

abbrev pub new_parser : Parser
new_parser = record {
  sv = empty_vector;
  gds_code = pos 0;
  num_arg = 0;
  current_idx = none;
  in_warning = false;
}

-- The loop, on the kind of the next argument.
unfoldable pub parse_args : (ℤ → List ℕ) → ℕ → ℤ → Parser → Recv StatusVector
parse_args errmsgs zero n p = fault stuck
parse_args errmsgs (suc fuel) n p =
    if is_zero n
    then return (p.sv)
    else (read_arg n >>= λ a.
        or_panic (apply_arg errmsgs p a) >>= λ q. recv_int32 >>= λ k. parse_args errmsgs fuel k q)

-- Each round reads a word at least, so that the length of what is left is fuel enough.
unfoldable pub parse_status_vector : (ℤ → List ℕ) → Recv StatusVector
parse_status_vector errmsgs s = (recv_int32 >>= λ n. parse_args errmsgs (length s) n new_parser) s
