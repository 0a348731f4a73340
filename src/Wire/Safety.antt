-- ===== src/Wire/Safety.antt =====
-- Whatever the server sends, the receivers return: a value, or an error of the code.
use firebirdsql_go.Base.{
  ℕ, ◌+◌, ◌^◌, ◌≤◌, ◌≡◌, refl, ap, arith, ℤ, pos, negsuc, List, [], ◌∷◌, length, length-take,
  length-drop, take, leb, ltb, some, inl, inr, Bool-cases,
}
use firebirdsql_go.Bytes.{bytes_to_bint32}
use firebirdsql_go.Wire.{
  Fault, closed, bad_length, bad_segment, malformed, refused, panic, stuck, Result, ok, err, Recv,
  Stream, ◌>>=◌, return, or_panic, recv_packets, recv_int32, recv_alignment, checked_length,
  recv_handshake_blob, max_wire_payload,
}

-- The faults that the code reports, not the panic and the spent fuel of the model.
abbrev pub Expected : Fault → Type 0
Expected closed = Unit
Expected bad_length = Unit
Expected bad_segment = Unit
Expected malformed = Unit
Expected refused = Unit
Expected panic = ⊥
Expected stuck = ⊥

-- The result is an expected fault, or has the property.
abbrev pub Safe : {A : Type 0} → (A → Stream → Type 0) → Result (A × Stream) → Type 0
Safe P (ok (a, rest)) = P a rest
Safe P (err e) = Expected e

pub weaken :
    {A : Type 0} {P Q : A → Stream → Type 0} (r : Result (A × Stream))
    → ((a : A) (rest : Stream) → P a rest → Q a rest)
    → Safe P r
    → Safe Q r
weaken (ok (a, rest)) k p = k a rest p
weaken (err e) k p = p

continue-Safe :
    {A B : Type 0} {P : A → Stream → Type 0} (Q : B → Stream → Type 0) (r : Result (A × Stream))
    (f : A → Recv B)
    → ((a : A) (rest : Stream) → P a rest → Safe Q (f a rest))
    → Safe P r
    → Safe Q (elim r [ ok (a, rest) ↦ f a rest | err e ↦ err e ])
continue-Safe Q (ok (a, rest)) f k p = k a rest p
continue-Safe Q (err e) f k p = p

pub bind-Safe :
    {A B : Type 0} {P : A → Stream → Type 0} (Q : B → Stream → Type 0) (m : Recv A) (f : A → Recv B)
    (s : Stream)
    → Safe P (m s)
    → ((a : A) (rest : Stream) → P a rest → Safe Q (f a rest))
    → Safe Q ((m >>= f) s)
bind-Safe Q m f s h k = continue-Safe Q (m s) f k h

pub recv_packets-Safe :
    (n : ℕ) (s : Stream)
    → Safe (λ b rest. (length b ≡ n) × (length rest + n ≤ length s)) (recv_packets n s)
unfolding recv_packets
recv_packets-Safe n s = elim (Bool-cases (leb n (length s))) [
  | inl e ↦ rw e (ground (arith, length-take n s), ground (arith, length-drop n s))
  | inr e ↦ rw e tt
]

pub word_of : (b : List ℕ) → length b ≡ 4 → (z : ℤ) × (bytes_to_bint32 b ≡ some z)
unfolding bytes_to_bint32
word_of [] h = absurd (omega arith)
word_of (a ∷ []) h = absurd (omega arith)
word_of (a ∷ b ∷ []) h = absurd (omega arith)
word_of (a ∷ b ∷ c ∷ []) h = absurd (omega arith)
word_of (a ∷ b ∷ c ∷ d ∷ s) h = (_, refl)

pub recv_int32-Safe : (s : Stream) → Safe (λ z rest. length rest + 4 ≤ length s) (recv_int32 s)
unfolding recv_int32
recv_int32-Safe s =
    bind-Safe _ (recv_packets 4) (λ b. or_panic (bytes_to_bint32 b)) s (recv_packets-Safe 4 s)
      (λ b rest p. let (z, e) = word_of b p.0 in rw e p.1)

pub recv_alignment-Safe :
    (n : ℕ) (s : Stream)
    → Safe (λ b rest. (length b ≡ n) × (length rest + n ≤ length s)) (recv_alignment n s)
unfolding recv_alignment
recv_alignment-Safe n s =
    bind-Safe _ (recv_packets _) (λ buf. return (take n buf)) s (recv_packets-Safe _ s)
      (λ b rest p. (omega (arith, p.0, length-take n b), omega (arith, p.1)))

pub checked_length-Safe :
    (z : ℤ) (s : Stream) → Safe (λ n rest. (n ≤ 2 ^ 24) × (rest ≡ s)) (checked_length z s)
unfolding checked_length
checked_length-Safe (pos n) s = elim (Bool-cases (ltb max_wire_payload n)) [
  | inl e ↦ rw e tt
  | inr e ↦ rw e (ground arith, refl)
]
checked_length-Safe (negsuc n) s = tt

-- Whatever the server claims, the reader ends without a panic, and a blob that it returns is at
-- most the cap long and all of it was sent.
pub recv_handshake_blob-Safe :
    (s : Stream)
    → Safe
        (λ b rest. (length b ≤ 2 ^ 24) × (length rest + length b + 4 ≤ length s))
        (recv_handshake_blob s)
unfolding recv_handshake_blob
recv_handshake_blob-Safe s =
    bind-Safe _ recv_int32 (λ ln. checked_length ln >>= λ n. recv_alignment n) s (recv_int32-Safe s)
      (λ z s' p.
        bind-Safe _ (checked_length z) (λ n. recv_alignment n) s' (checked_length-Safe z s')
          (λ n s'' q.
            weaken (recv_alignment n s'')
              (λ b rest e. (omega (arith, e.0, q.0), omega (arith, e.0, e.1, p, ap length q.1)))
              (recv_alignment-Safe n s'')))
