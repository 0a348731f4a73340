-- ===== src/Wire/Chunks.antt =====
-- `recvPackets` does not depend on how the network cuts the stream into reads.
use firebirdsql_go.Base.{
  ℕ, zero, suc, ◌-◌, ◌≤◌, ◌≡◌, refl, sym, ap, ◌∙◌, arith, List, [], ◌∷◌, ◌++◌, length, take, drop,
  leb, append_assoc, append-nil, inl, inr, Bool-cases,
}
use native.Mathlib.Nat.{sub-zero, suc-sub-suc}
use firebirdsql_go.Wire.{Result, ok, err, closed, recv_packets, recv_loop}

abbrev pub joined : List (List ℕ) → List ℕ
joined [] = []
joined (c ∷ cs) = c ++ joined cs

-- The result, with the rest of the stream in one piece.
abbrev pub join_rest : Result (List ℕ × List (List ℕ)) → Result (List ℕ × List ℕ)
join_rest (ok (b, chunks)) = ok (b, joined chunks)
join_rest (err e) = err e

-- The same with what was already read put in front of the bytes.
abbrev pub prefixed : List ℕ → Result (List ℕ × List ℕ) → Result (List ℕ × List ℕ)
prefixed got (ok (b, rest)) = ok (got ++ b, rest)
prefixed got (err e) = err e

recv_packets-cons :
    (n x : ℕ) (s : List ℕ) → recv_packets (suc n) (x ∷ s) ≡ prefixed (x ∷ []) (recv_packets n s)
unfolding recv_packets
recv_packets-cons n x s = ground arith

prefixed-prefixed :
    (xs ys : List ℕ) (r : Result (List ℕ × List ℕ))
    → prefixed xs (prefixed ys r) ≡ prefixed (xs ++ ys) r
prefixed-prefixed xs ys (ok (b, rest)) = rw append_assoc
prefixed-prefixed xs ys (err e) = refl

prefixed_nil : (r : Result (List ℕ × List ℕ)) → prefixed [] r ≡ r
prefixed_nil (ok (b, rest)) = refl
prefixed_nil (err e) = refl

pub recv_packets-append :
    (n : ℕ) (c s : List ℕ)
    → length c ≤ n
    → recv_packets n (c ++ s) ≡ prefixed c (recv_packets (n - length c) s)
recv_packets-append n [] s h = rw (sub-zero, prefixed_nil)
recv_packets-append zero (x ∷ c) s h = elim h [ ]
recv_packets-append (suc n) (x ∷ c) s h =
    recv_packets-cons n x (c ++ s)
    ∙ rw (recv_packets-append n c s (omega arith), suc-sub-suc)
        (prefixed-prefixed (x ∷ []) c (recv_packets (n - length c) s))

pub recv_packets_zero : (s : List ℕ) → recv_packets 0 s ≡ ok ([], s)
unfolding recv_packets
recv_packets_zero s = ground arith

recv_packets_closed : (n : ℕ) → recv_packets (suc n) [] ≡ err closed
unfolding recv_packets
recv_packets_closed n = ground arith

-- A chunk that is longer than what is wanted keeps its tail.
recv_packets-within :
    (n : ℕ) (c s : List ℕ) → n ≤ length c → recv_packets n (c ++ s) ≡ ok (take n c, drop n c ++ s)
unfolding recv_packets
recv_packets-within zero c s h = ground arith
recv_packets-within (suc n) [] s h = elim h [ ]
recv_packets-within (suc n) (x ∷ c) s h =
    recv_packets-cons n x (c ++ s)
    ∙ ap (prefixed (x ∷ [])) (recv_packets-within n c s (omega arith))

recv_loop-recv_packets :
    (chunks : List (List ℕ)) (n : ℕ) (got : List ℕ)
    → join_rest (recv_loop n chunks got) ≡ prefixed got (recv_packets n (joined chunks))
unfolding recv_loop
recv_loop-recv_packets chunks zero got = rw (recv_packets_zero (joined chunks), append-nil got) refl
recv_loop-recv_packets [] (suc n) got = rw (recv_packets_closed n) refl
recv_loop-recv_packets (c ∷ cs) (suc n) got = elim (Bool-cases (leb (length c) (suc n))) [
  | inl all ↦ rw all (
      recv_loop-recv_packets cs (suc n - length c) (got ++ c)
      ∙ sym (
          ap (prefixed got) (recv_packets-append (suc n) c (joined cs) (ground arith))
          ∙ prefixed-prefixed got c (recv_packets (suc n - length c) (joined cs))))
  | inr part ↦ rw (part, recv_packets-within (suc n) c (joined cs) (ground arith)) refl
]

-- However the network cuts the stream into reads, the loop returns what one read of all of it
-- would, and leaves the same bytes unread.
recv_loop_chunking :
    (chunks : List (List ℕ)) (n : ℕ)
    → join_rest (recv_loop n chunks []) ≡ recv_packets n (joined chunks)
recv_loop_chunking chunks n =
    recv_loop-recv_packets chunks n [] ∙ prefixed_nil (recv_packets n (joined chunks))
