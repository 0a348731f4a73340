-- ===== src/Wire/Receive.antt =====
-- What the receivers of words, of aligned blobs and of the handshake's blobs give on what the
-- encoders of utils.go wrote.
use firebirdsql_go.Base.{
  ℕ, ◌^◌, ◌≤◌, ◌<◌, ◌≡◌, refl, ap, ◌∙◌, arith, ℤ, pos, List, [], ◌∷◌, ◌++◌, length, length-append,
  length-replicate, replicate, take, take-append, append-nil, append_assoc, IsI32,
}
use firebirdsql_go.Bytes.{xdr_bytes, xdr_padding, bint32_to_bytes, byte_at, bytes_to_bint32}
use firebirdsql_go.Bytes.RoundTrip.{bint32_round_trip}
use firebirdsql_go.Wire.{
  ok, Recv, Stream, ◌>>=◌, recv_packets, recv_int32, recv_alignment, checked_length,
  recv_handshake_blob, or_panic, return,
}
use firebirdsql_go.Wire.Chunks.{recv_packets-append, recv_packets_zero, prefixed}

-- A step that succeeds hands its value and what is left to the next one.
pub bind_ok :
    {A B : Type 0} (m : Recv A) (f : A → Recv B) (s : Stream) {a : A} {rest : Stream}
    → m s ≡ ok (a, rest)
    → (m >>= f) s ≡ f a rest
bind_ok m f s e = rw (e, ◌>>=◌) refl

-- What was asked for is at the front.
pub recv_packets_exact : (c s : List ℕ) {n : ℕ} → length c ≡ n → recv_packets n (c ++ s) ≡ ok (c, s)
recv_packets_exact c s {n = n} e =
    recv_packets-append n c s (omega arith)
    ∙ ap (λ k. prefixed c (recv_packets k s)) (omega arith)
    ∙ ap (prefixed c) (recv_packets_zero s)
    ∙ ap (λ t. ok (t, s)) (append-nil c)

pub recv_int32-word :
    (z : ℤ) (rest : List ℕ) → IsI32 z → recv_int32 (bint32_to_bytes z ++ rest) ≡ ok (z, rest)
unfolding recv_int32 bint32_to_bytes
recv_int32-word z rest h =
    bind_ok (recv_packets 4) (λ b. or_panic (bytes_to_bint32 b)) _
      (recv_packets_exact (bint32_to_bytes z) rest refl)
    ∙ ap (λ o. or_panic o rest) (bint32_round_trip z [] h)

pub recv_alignment_padded :
    (bs rest : List ℕ)
    → recv_alignment (length bs) ((bs ++ replicate (xdr_padding (length bs)) 0) ++ rest)
      ≡ ok (bs, rest)
unfolding recv_alignment
recv_alignment_padded bs rest =
    bind_ok (recv_packets _) (λ buf. return (take (length bs) buf)) _
      (recv_packets_exact (bs ++ replicate (xdr_padding (length bs)) 0) rest (
        ground (
          arith,
          length-append bs (replicate (xdr_padding (length bs)) 0),
          length-replicate {A = ℕ} (xdr_padding (length bs)) 0,
        )))
    ∙ ap (λ t. ok (t, rest)) (take-append bs (replicate (xdr_padding (length bs)) 0))

pub xdr_bytes-word :
    (bs : List ℕ)
    → length bs < 2 ^ 32
    → xdr_bytes bs
      ≡ bint32_to_bytes (pos (length bs)) ++ (bs ++ replicate (xdr_padding (length bs)) 0)
unfolding xdr_bytes bint32_to_bytes
xdr_bytes-word bs h =
    ap
      (λ n.
        byte_at n 24
        ∷ byte_at n 16
        ∷ byte_at n 8
        ∷ byte_at n 0
        ∷ (bs ++ replicate (xdr_padding (length bs)) 0))
      (omega arith)

pub checked_length_within : (n : ℕ) (s : Stream) → n ≤ 2 ^ 24 → checked_length (pos n) s ≡ ok (n, s)
unfolding checked_length
checked_length_within n s h = ground arith

-- Every blob up to the cap comes through whole, and the stream stands behind its padding.
pub recv_handshake_blob-xdr_bytes :
    (bs rest : List ℕ)
    → length bs ≤ 2 ^ 24
    → recv_handshake_blob (xdr_bytes bs ++ rest) ≡ ok (bs, rest)
unfolding recv_handshake_blob
recv_handshake_blob-xdr_bytes bs rest h =
    rw (xdr_bytes-word bs (omega arith), append_assoc)
      (bind_ok recv_int32 (λ ln. checked_length ln >>= λ n. recv_alignment n) _
          (recv_int32-word (pos (length bs)) _ (omega arith))
        ∙ bind_ok (checked_length (pos (length bs))) (λ n. recv_alignment n) _
            (checked_length_within (length bs) _ h)
        ∙ recv_alignment_padded bs rest)
