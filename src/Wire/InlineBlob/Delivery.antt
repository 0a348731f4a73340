-- ===== src/Wire/InlineBlob/Delivery.antt =====
-- Inline BLOBs as a server writes them, and the parser on any other stream.
use firebirdsql_go.Base.{
  ℕ, ◌^◌, ◌≤◌, ◌≡◌, refl, ap, ◌∙◌, arith, ℤ, pos, List, [], ◌∷◌, ◌++◌, length, append_assoc, IsI32,
  IsI64, if_cases, All, ◌==◌,
}
use firebirdsql_go.Bytes.{bint32_to_bytes, bint64_to_bytes, xdr_bytes, bytes_to_bint64}
use firebirdsql_go.Bytes.RoundTrip.{bint64_round_trip}
use firebirdsql_go.Blob.Segments.{IsSegment, frames, concat}
use firebirdsql_go.Blob.InPlace.{decode_inline-frames}
use firebirdsql_go.Wire.{
  Recv, Stream, ok, ◌>>=◌, or_panic, recv_packets, recv_int32, checked_length,
}
use firebirdsql_go.Wire.InlineBlob.{
  recv_int64, recv_field, decoded, decode_content, parse_inline_blob_payload,
}
use firebirdsql_go.Wire.Response.{response_buffer}
use firebirdsql_go.Wire.Response.Outcome.{padded, response_buffer-padded}
use firebirdsql_go.Wire.Receive.{
  bind_ok, recv_packets_exact, recv_int32-word, xdr_bytes-word, checked_length_within,
}

recv_int64-word :
    (z : ℤ) (rest : Stream) → IsI64 z → recv_int64 (bint64_to_bytes z ++ rest) ≡ ok (z, rest)
unfolding recv_int64 bint64_to_bytes
recv_int64-word z rest h =
    bind_ok (recv_packets 8) (λ b. or_panic (bytes_to_bint64 b)) _
      (recv_packets_exact (bint64_to_bytes z) rest refl)
    ∙ ap (λ o. or_panic o rest) (bint64_round_trip z [] h)

recv_field-xdr_bytes :
    (bs : List ℕ) (rest : Stream)
    → length bs ≤ 2 ^ 24
    → recv_field (xdr_bytes bs ++ rest) ≡ ok (bs, rest)
unfolding recv_field
recv_field-xdr_bytes bs rest h =
    rw (xdr_bytes-word bs (omega arith), append_assoc)
      (bind_ok recv_int32 (λ ln. checked_length ln >>= λ n. response_buffer n) _
          (recv_int32-word (pos (length bs)) (padded bs ++ rest) (omega arith))
        ∙ bind_ok (checked_length (pos (length bs))) (λ n. response_buffer n) _
            (checked_length_within (length bs) (padded bs ++ rest) h)
        ∙ response_buffer-padded bs rest)

decode_content-frames :
    (ss : List (List ℕ)) (rest : Stream)
    → All IsSegment ss
    → decode_content (frames ss) rest ≡ ok (concat ss, rest)
unfolding decode_content
decode_content-frames [] rest h = refl
decode_content-frames (s ∷ ss) rest h =
    if_cases {A = Recv (List ℕ)} (λ m. m rest ≡ ok (concat (s ∷ ss), rest))
      (length (frames (s ∷ ss)) == 0) (λ e. absurd (ground arith))
      (λ e. ap (λ d. decoded d rest) (decode_inline-frames (s ∷ ss) h))

-- The payload of a server, in front of what follows.
abbrev pub encode_inline_blob : ℤ → ℤ → List ℕ → List (List ℕ) → Stream → Stream
encode_inline_blob tx id info ss rest =
    bint32_to_bytes tx
    ++ (bint64_to_bytes id ++ (xdr_bytes info ++ (xdr_bytes (frames ss) ++ rest)))

-- A BLOB that a server sends inline arrives under its handle and its id, with the concatenation of
-- its segments, and nothing behind it is read. The handle and the id are in range, the info and
-- the framed segments are within the cap, and each segment is shorter than 65536 bytes.
pub parse_inline_blob-encode :
    (tx id : ℤ) (info : List ℕ) (ss : List (List ℕ)) (rest : Stream)
    → IsI32 tx
    → IsI64 id
    → length info ≤ 2 ^ 24
    → length (frames ss) ≤ 2 ^ 24
    → All IsSegment ss
    → parse_inline_blob_payload (encode_inline_blob tx id info ss rest)
      ≡ ok (record { tx_handle = tx; blob_id = id; content = concat ss }, rest)
unfolding parse_inline_blob_payload
parse_inline_blob-encode tx id info ss rest t i n f h =
    rw
      (
        recv_int32-word tx
            (bint64_to_bytes id ++ (xdr_bytes info ++ (xdr_bytes (frames ss) ++ rest))) t,
        ◌>>=◌,
      )
      (rw (recv_int64-word id (xdr_bytes info ++ (xdr_bytes (frames ss) ++ rest)) i, ◌>>=◌)
        (rw (recv_field-xdr_bytes info (xdr_bytes (frames ss) ++ rest) n, ◌>>=◌)
          (rw (recv_field-xdr_bytes (frames ss) rest f, ◌>>=◌)
            (rw (decode_content-frames ss rest h, ◌>>=◌) refl))))
