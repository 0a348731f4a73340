-- ===== src/Wire/Status/RoundTrip.antt =====
-- A status vector as a server writes it, and what `_parse_status_vector` makes of it.
use firebirdsql_go.Base.{
  ℕ, zero, suc, ◌^◌, ◌<◌, ◌≤◌, ◌≡◌, refl, ◌∙◌, arith, ℤ, pos, false, Option, none, some, List, [],
  ◌∷◌, ◌++◌, length, length-append, All, IsI32,
}
use firebirdsql_go.Bytes.{bint32_to_bytes, xdr_bytes}
use firebirdsql_go.Wire.{ok, Recv, Stream, ◌>>=◌, return, recv_int32, recv_handshake_blob}
use firebirdsql_go.Wire.Receive.{bind_ok, recv_int32-word, recv_handshake_blob-xdr_bytes}
use firebirdsql_go.Wire.Status.{
  StatusVector, Parser, Arg, is_arg, is_zero, gds, warning, number, string, interpreted,
  sql_state_arg, other, read_arg, apply_arg, parse_args, parse_status_vector, new_parser,
}
use firebirdsql_go.Wire.Status.Invariant.{Valid, apply_arg-Valid, new_parser-Valid}

-- The protocol's form of an argument: its kind, and what follows the kind.
abbrev arg_kind : Arg → ℤ
arg_kind (gds c) = pos 1
arg_kind (string s) = pos 2
arg_kind (number z) = pos 4
arg_kind (interpreted s) = pos 5
arg_kind (warning c) = pos 18
arg_kind (sql_state_arg s) = pos 19
arg_kind (other n) = n

abbrev arg_body : Arg → List ℕ
arg_body (gds c) = bint32_to_bytes c
arg_body (string s) = xdr_bytes s
arg_body (number z) = bint32_to_bytes z
arg_body (interpreted s) = xdr_bytes s
arg_body (warning c) = bint32_to_bytes c
arg_body (sql_state_arg s) = xdr_bytes s
arg_body (other n) = []

-- The arguments and the end mark, in front of what follows.
abbrev pub encode_args : List Arg → Stream → Stream
encode_args [] rest = bint32_to_bytes (pos 0) ++ rest
encode_args (a ∷ more) rest = bint32_to_bytes (arg_kind a) ++ (arg_body a ++ encode_args more rest)

-- The numbers are of 32 bits, the strings within the cap, and an argument without a body is of a
-- kind that the parser does not know.
abbrev pub Fits : Arg → Type 0
Fits (gds c) = IsI32 c
Fits (string s) = length s ≤ 2 ^ 24
Fits (number z) = IsI32 z
Fits (interpreted s) = length s ≤ 2 ^ 24
Fits (warning c) = IsI32 c
Fits (sql_state_arg s) = length s ≤ 2 ^ 24
Fits (other n) = IsI32 n × All (λ k. is_arg n k ≡ false) (0 ∷ 1 ∷ 18 ∷ 4 ∷ 2 ∷ 5 ∷ 19 ∷ [])

-- The arguments applied one after the other.
abbrev pub run_args : (ℤ → List ℕ) → Parser → List Arg → Option Parser
run_args errmsgs p [] = some p
run_args errmsgs p (a ∷ more) = elim (apply_arg errmsgs p a) [
  | none ↦ none
  | some q ↦ run_args errmsgs q more
]

kind-Fits : (a : Arg) → Fits a → IsI32 (arg_kind a) × (is_zero (arg_kind a) ≡ false)
kind-Fits (gds c) h = (omega arith, refl)
kind-Fits (string s) h = (omega arith, refl)
kind-Fits (number z) h = (omega arith, refl)
kind-Fits (interpreted s) h = (omega arith, refl)
kind-Fits (warning c) h = (omega arith, refl)
kind-Fits (sql_state_arg s) h = (omega arith, refl)
kind-Fits (other n) h = (h.0, h.1.0)

word_back :
    (c : ℤ → Arg) (z : ℤ) (rest : Stream)
    → IsI32 z
    → (recv_int32 >>= λ k. return (c k)) (bint32_to_bytes z ++ rest) ≡ ok (c z, rest)
word_back c z rest h = bind_ok recv_int32 (λ k. return (c k)) _ (recv_int32-word z rest h)

blob_back :
    (c : List ℕ → Arg) (s : List ℕ) (rest : Stream)
    → length s ≤ 2 ^ 24
    → (recv_handshake_blob >>= λ b. return (c b)) (xdr_bytes s ++ rest) ≡ ok (c s, rest)
blob_back c s rest h =
    bind_ok recv_handshake_blob (λ b. return (c b)) _ (recv_handshake_blob-xdr_bytes s rest h)

read_arg-body :
    (a : Arg) (rest : Stream) → Fits a → read_arg (arg_kind a) (arg_body a ++ rest) ≡ ok (a, rest)
unfolding read_arg
read_arg-body (gds c) rest h = word_back gds c rest h
read_arg-body (string s) rest h = blob_back string s rest h
read_arg-body (number z) rest h = word_back number z rest h
read_arg-body (interpreted s) rest h = blob_back interpreted s rest h
read_arg-body (warning c) rest h = word_back warning c rest h
read_arg-body (sql_state_arg s) rest h = blob_back sql_state_arg s rest h
read_arg-body (other n) rest h =
    rw (h.1.1.0, h.1.1.1.0, h.1.1.1.1.0, h.1.1.1.1.1.0, h.1.1.1.1.1.1.0, h.1.1.1.1.1.1.1.0) refl

abbrev next_args : (ℤ → List ℕ) → ℕ → Parser → Recv StatusVector
next_args errmsgs fuel p = recv_int32 >>= λ n. parse_args errmsgs fuel n p

parse_args-encode_args :
    (errmsgs : ℤ → List ℕ) (args : List Arg) (fuel : ℕ) (p : Parser) (rest : Stream)
    → Valid p
    → All Fits args
    → length args < fuel
    → (q : Parser) × (run_args errmsgs p args ≡ some q)
      × (next_args errmsgs fuel p (encode_args args rest) ≡ ok (q.sv, rest))
unfolding parse_args
parse_args-encode_args errmsgs args zero p rest v h f = absurd (omega arith)
parse_args-encode_args errmsgs [] (suc fuel) p rest v h f = (
  p,
  refl,
  bind_ok recv_int32 (λ n. parse_args errmsgs (suc fuel) n p) _
      (recv_int32-word (pos 0) rest (omega arith)),
)
parse_args-encode_args errmsgs (a ∷ more) (suc fuel) p rest v h f =
    let (q, e, vq) = apply_arg-Valid errmsgs p a v in
    let (r, run, parsed) = parse_args-encode_args errmsgs more fuel q rest vq h.1 (omega arith) in
    let (fits, nonzero) = kind-Fits a h.0 in
    (
      r,
      rw (e, run_args) run,
      bind_ok recv_int32 (λ n. parse_args errmsgs (suc fuel) n p) _
            (recv_int32-word (arg_kind a) (arg_body a ++ encode_args more rest) fits)
          ∙ rw nonzero (
              bind_ok (read_arg (arg_kind a)) _ _ (read_arg-body a (encode_args more rest) h.0)
              ∙ rw (e, ◌>>=◌) parsed),
    )

length-encode_args :
    (args : List Arg) (rest : Stream) → length args < length (encode_args args rest)
unfolding bint32_to_bytes
length-encode_args [] rest = omega arith
length-encode_args (a ∷ more) rest =
    omega (arith, length-encode_args more rest, length-append (arg_body a) (encode_args more rest))

-- A vector that a server wrote is read to its end mark and no further, and gives what its
-- arguments give one after the other. The numbers are of 32 bits, and the strings within the cap.
pub parse_status_vector-encode_args :
    (errmsgs : ℤ → List ℕ) (args : List Arg) (rest : Stream)
    → All Fits args
    → (q : Parser) × (run_args errmsgs new_parser args ≡ some q)
      × (parse_status_vector errmsgs (encode_args args rest) ≡ ok (q.sv, rest))
unfolding parse_status_vector
parse_status_vector-encode_args errmsgs args rest h =
    parse_args-encode_args errmsgs args (length (encode_args args rest)) new_parser rest
      new_parser-Valid h (length-encode_args args rest)
