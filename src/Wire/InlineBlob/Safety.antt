-- ===== src/Wire/InlineBlob/Safety.antt =====
-- `parseInlineBlobPayload` on what any server sends.
use firebirdsql_go.Base.{
  ℕ, ◌≤◌, ◌≡◌, refl, ap, arith, ℤ, List, [], ◌∷◌, length, some, if_either, ltb, ◌==◌,
}
use firebirdsql_go.Bytes.{bytes_to_bint64}
use firebirdsql_go.Blob.{Decoded, done, header, segment, panic, stuck, decode_inline_segment_buffer}
use firebirdsql_go.Blob.Segments.{Ends}
use firebirdsql_go.Blob.InPlace.{decode_inline-Ends}
use firebirdsql_go.Wire.{
  Recv, Stream, ◌>>=◌, or_panic, recv_packets, recv_alignment, recv_int32, checked_length,
}
use firebirdsql_go.Wire.InlineBlob.{
  recv_int64, recv_field, decoded, decode_content, parse_inline_blob_payload,
}
use firebirdsql_go.Wire.Response.{response_buffer}
use firebirdsql_go.Wire.Safety.{
  Safe, bind-Safe, weaken, recv_int32-Safe, recv_packets-Safe, checked_length-Safe,
  recv_alignment-Safe,
}

abbrev Shorter : {A : Type 0} → Stream → A → Stream → Type 0
Shorter s a rest = length rest ≤ length s

long_of : (b : List ℕ) → length b ≡ 8 → (z : ℤ) × (bytes_to_bint64 b ≡ some z)
unfolding bytes_to_bint64
long_of [] h = absurd (omega arith)
long_of (a ∷ []) h = absurd (omega arith)
long_of (a ∷ b ∷ []) h = absurd (omega arith)
long_of (a ∷ b ∷ c ∷ []) h = absurd (omega arith)
long_of (a ∷ b ∷ c ∷ d ∷ []) h = absurd (omega arith)
long_of (a ∷ b ∷ c ∷ d ∷ e ∷ []) h = absurd (omega arith)
long_of (a ∷ b ∷ c ∷ d ∷ e ∷ f ∷ []) h = absurd (omega arith)
long_of (a ∷ b ∷ c ∷ d ∷ e ∷ f ∷ g ∷ []) h = absurd (omega arith)
long_of (a ∷ b ∷ c ∷ d ∷ e ∷ f ∷ g ∷ k ∷ s) h = (_, refl)

recv_int64-Safe : (s : Stream) → Safe (Shorter s) (recv_int64 s)
unfolding recv_int64
recv_int64-Safe s =
    bind-Safe (Shorter s) (recv_packets 8) (λ b. or_panic (bytes_to_bint64 b)) s
      (recv_packets-Safe 8 s)
      (λ b rest p. let (z, e) = long_of b p.0 in rw (e, Safe) (omega (arith, p.1)))

response_buffer-Safe : (n : ℕ) (s : Stream) → Safe (Shorter s) (response_buffer n s)
unfolding response_buffer
response_buffer-Safe n s =
    if_either {A = Recv (List ℕ)} (λ m. Safe (Shorter s) (m s)) (ltb 0 n)
      (weaken (recv_alignment n s) (λ b rest p. omega (arith, p.1)) (recv_alignment-Safe n s))
      (omega arith)

recv_field-Safe : (s : Stream) → Safe (Shorter s) (recv_field s)
unfolding recv_field
recv_field-Safe s =
    bind-Safe (Shorter s) recv_int32 (λ ln. checked_length ln >>= λ n. response_buffer n) s
      (recv_int32-Safe s)
      λ z s' p.
        bind-Safe (Shorter s) (checked_length z) (λ n. response_buffer n) s'
          (checked_length-Safe z s')
          λ n s'' q.
            weaken (response_buffer n s'') (λ b rest t. omega (arith, t, p, ap length q.1))
              (response_buffer-Safe n s'')

decoded-Safe : (d : Decoded) (s : Stream) → Ends d → Safe (Shorter s) (decoded d s)
decoded-Safe (done out) s h = omega arith
decoded-Safe header s h = tt
decoded-Safe segment s h = tt
decoded-Safe panic s h = elim h [ ]
decoded-Safe stuck s h = elim h [ ]

decode_content-Safe : (raw : List ℕ) (s : Stream) → Safe (Shorter s) (decode_content raw s)
unfolding decode_content
decode_content-Safe raw s =
    if_either {A = Recv (List ℕ)} (λ m. Safe (Shorter s) (m s)) (length raw == 0) (omega arith)
      (decoded-Safe (decode_inline_segment_buffer raw) s (decode_inline-Ends raw))

-- Whatever the server sends, the parser ends without a panic, and takes no byte that was not sent.
pub parse_inline_blob_payload-Safe :
    (s : Stream) → Safe (λ blob rest. length rest ≤ length s) (parse_inline_blob_payload s)
unfolding parse_inline_blob_payload
parse_inline_blob_payload-Safe s = bind-Safe _ recv_int32 _ s (recv_int32-Safe s) λ tx s1 p1.
    bind-Safe _ recv_int64 _ s1 (recv_int64-Safe s1) λ id s2 p2.
      bind-Safe _ recv_field _ s2 (recv_field-Safe s2) λ info s3 p3.
        bind-Safe _ recv_field _ s3 (recv_field-Safe s3) λ raw s4 p4.
          bind-Safe _ (decode_content raw) _ s4 (decode_content-Safe raw s4)
            λ out s5 p5. omega (arith, p1, p2, p3, p4, p5)
