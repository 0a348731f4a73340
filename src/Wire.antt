-- ===== src/Wire.antt =====
-- Receiving from the wire: `recvPackets`, `recvPacketsAlignment` and `recvHandshakeBlob` of
-- wireprotocol.go.
pub mod Chunks
pub mod Receive
pub mod Safety
pub mod Status
pub mod Response
pub mod InlineBlob
mod Tests
use firebirdsql_go.Base.{
  ℕ, zero, suc, ◌+◌, ◌-◌, ◌%◌, ◌^◌, ℤ, pos, negsuc, Bool, true, false, Option, none, some, List, [],
  ◌∷◌, ◌++◌, length, take, drop, leb, ltb, ◌==◌, if◌then◌else◌,
}
use firebirdsql_go.Bytes.{bytes_to_bint32}

-- `closed` is the error of a read past what the server sends. `bad_length` is a claimed length that
-- is negative or over the cap, `malformed` a failure while an answer is parsed, and `refused` an
-- answer that is an error. `panic` and `stuck` are no errors of the code: a Go panic, and spent fuel.
pub data Fault : Type 0 where
  closed bad_length bad_segment malformed refused panic stuck : Fault

pub data Result {ℓ} (A : Type ℓ) : Type ℓ where
  ok : A → Result A
  err : Fault → Result A

-- The bytes that the server is still to send, and a step that takes some of them.
abbrev pub Stream : Type 0
Stream = List ℕ

abbrev pub Recv : Type 0 → Type 0
Recv A = Stream → Result (A × Stream)

infixl 5 ◌>>=◌
abbrev pub ◌>>=◌ : {A B : Type 0} → Recv A → (A → Recv B) → Recv B
◌>>=◌ m f s = elim (m s) [ ok (a, rest) ↦ f a rest | err e ↦ err e ]

abbrev pub return : {A : Type 0} → A → Recv A
return a s = ok (a, s)

abbrev pub fault : {A : Type 0} → Fault → Recv A
fault e s = err e

-- All of `n` bytes, or an error.
unfoldable pub recv_packets : ℕ → Recv (List ℕ)
recv_packets n s = if leb n (length s) then ok (take n s, drop n s) else err closed

-- The loop of `recvPackets` over what each `Read` of the connection returns: a chunk, or the part of
-- it that is still wanted. `got` is what is in the buffer.
unfoldable pub recv_loop : ℕ → List (List ℕ) → List ℕ → Result (List ℕ × List (List ℕ))
recv_loop zero chunks got = ok (got, chunks)
recv_loop (suc n) [] got = err closed
recv_loop (suc n) (c ∷ cs) got =
    let more = recv_loop (suc n - length c) cs (got ++ c) in
    if leb (length c) (suc n) then more else ok (got ++ take (suc n) c, drop (suc n) c ∷ cs)

unfoldable pub recv_alignment : ℕ → Recv (List ℕ)
recv_alignment n = do
  buf ← recv_packets (n + (if ltb 0 (n % 4) then 4 - n % 4 else 0))
  return (take n buf)

abbrev pub max_wire_payload : ℕ
max_wire_payload = 2 ^ 24

-- A big-endian int32; fewer than four bytes would be a panic.
abbrev pub or_panic : {A : Type 0} → Option A → Recv A
or_panic none = fault panic
or_panic (some a) = return a

unfoldable pub recv_int32 : Recv ℤ
recv_int32 = do b ← recv_packets 4; or_panic (bytes_to_bint32 b)

-- A length that is checked before anything is allocated.
unfoldable pub checked_length : ℤ → Recv ℕ
checked_length (negsuc n) = fault bad_length
checked_length (pos n) = if ltb max_wire_payload n then fault bad_length else return n

-- A length word and as many bytes, with their padding.
unfoldable pub recv_handshake_blob : Recv (List ℕ)
recv_handshake_blob = do ln ← recv_int32; n ← checked_length ln; recv_alignment n
