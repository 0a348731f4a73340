-- ===== src/Wire/Status/Safety.antt =====
-- `_parse_status_vector` on what any server sends: it ends, and no index is out of range.
use firebirdsql_go.Base.{ℕ, zero, suc, ◌+◌, ◌<◌, ◌≤◌, ◌≡◌, arith, ℤ, List, length, if_either}
use firebirdsql_go.Wire.{Recv, Stream, ◌>>=◌, return, recv_int32, recv_handshake_blob}
use firebirdsql_go.Wire.Safety.{Safe, weaken, bind-Safe, recv_int32-Safe, recv_handshake_blob-Safe}
use firebirdsql_go.Wire.Status.{
  StatusVector, Parser, Arg, is_arg, is_zero, gds, warning, number, string, interpreted,
  sql_state_arg, read_arg, parse_args, parse_status_vector, new_parser,
}
use firebirdsql_go.Wire.Status.Invariant.{Valid, apply_arg-Valid, new_parser-Valid}

-- The step takes bytes off the stream, or none.
abbrev Shorter : {A : Type 0} → Stream → A → Stream → Type 0
Shorter s a rest = length rest ≤ length s

word-Safe : (c : ℤ → Arg) (s : Stream) → Safe (Shorter s) ((recv_int32 >>= λ z. return (c z)) s)
word-Safe c s =
    bind-Safe (Shorter s) recv_int32 (λ z. return (c z)) s (recv_int32-Safe s)
      (λ z rest p. omega (arith, p))

blob-Safe :
    (c : List ℕ → Arg) (s : Stream)
    → Safe (Shorter s) ((recv_handshake_blob >>= λ b. return (c b)) s)
blob-Safe c s =
    bind-Safe (Shorter s) recv_handshake_blob (λ b. return (c b)) s (recv_handshake_blob-Safe s)
      (λ b rest p. omega (arith, p.1))

read_arg-Safe : (n : ℤ) (s : Stream) → Safe (Shorter s) (read_arg n s)
unfolding read_arg
read_arg-Safe n s =
    let P : Recv Arg → Type 0 = λ m. Safe (Shorter s) (m s) in
    if_either P (is_arg n 1) (word-Safe gds s) (
      if_either P (is_arg n 18) (word-Safe warning s) (
        if_either P (is_arg n 4) (word-Safe number s) (
          if_either P (is_arg n 2) (blob-Safe string s) (
            if_either P (is_arg n 5) (blob-Safe interpreted s)
              (if_either P (is_arg n 19) (blob-Safe sql_state_arg s) (omega arith))))))

-- One list of parameters for each code.
abbrev Ends : Stream → StatusVector → Stream → Type 0
Ends s sv rest = (length sv.params ≡ length sv.gds_codes) × (length rest ≤ length s)

parse_args-Safe :
    (errmsgs : ℤ → List ℕ) (fuel : ℕ) (n : ℤ) (p : Parser) (s : Stream)
    → Valid p
    → length s < fuel
    → Safe (Ends s) (parse_args errmsgs fuel n p s)
unfolding parse_args
parse_args-Safe errmsgs zero n p s v h = absurd (omega arith)
parse_args-Safe errmsgs (suc fuel) n p s v h =
    if_either {A = Recv StatusVector} (λ m. Safe (Ends s) (m s)) (is_zero n)
      (v.aligned, omega arith)
      (bind-Safe (Ends s) (read_arg n) _ s (read_arg-Safe n s) λ a s' short.
        let (q, e, vq) = apply_arg-Valid errmsgs p a v in
        rw (e, Safe)
          (bind-Safe (Ends s) recv_int32 (λ k. parse_args errmsgs fuel k q) s' (recv_int32-Safe s')
            λ k s'' less.
              weaken (parse_args errmsgs fuel k q s'')
                (λ sv rest t. (t.0, omega (arith, t.1, less, short)))
                (parse_args-Safe errmsgs fuel k q s'' vq (omega (arith, less, short, h)))))

-- On every stream the parser ends, without a panic. A vector that it returns has one list of
-- parameters for each of its codes, and its bytes were all sent.
pub parse_status_vector-Safe :
    (errmsgs : ℤ → List ℕ) (s : Stream)
    → Safe
        (λ sv rest. (length sv.params ≡ length sv.gds_codes) × (length rest + 4 ≤ length s))
        (parse_status_vector errmsgs s)
unfolding parse_status_vector
parse_status_vector-Safe errmsgs s =
    bind-Safe _ recv_int32 (λ n. parse_args errmsgs (length s) n new_parser) s (recv_int32-Safe s)
      λ n rest p.
        weaken (parse_args errmsgs (length s) n new_parser rest)
          (λ sv r t. (t.0, omega (arith, t.1, p)))
          (parse_args-Safe errmsgs (length s) n new_parser rest new_parser-Valid (omega (arith, p)))
