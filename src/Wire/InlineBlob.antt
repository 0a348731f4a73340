-- ===== src/Wire/InlineBlob.antt =====
-- `parseInlineBlobPayload` and `consumeInlineBlobsStarting` of inline_blob.go: BLOBs that a server
-- sends along with a row.
pub mod Delivery
pub mod Safety
pub mod Consume
use firebirdsql_go.Base.{ℕ, zero, suc, ◌+◌, ℤ, pos, Bool, List, [], length, ◌==◌, if◌then◌else◌}
use firebirdsql_go.Bytes.{bytes_to_bint64}
use firebirdsql_go.Blob.{Decoded, done, header, segment, panic, stuck, decode_inline_segment_buffer}
use firebirdsql_go.Blob.Cache.{InlineBlobCache, add, int_eq}
use firebirdsql_go.Wire.{
  Recv, bad_segment, ◌>>=◌, return, fault, or_panic, recv_packets, recv_int32, checked_length,
}
use firebirdsql_go.Wire.Response.{response_buffer}

pub record InlineBlob : Type 0 where
  pub tx_handle : ℤ
  pub blob_id : ℤ
  pub content : List ℕ

unfoldable pub recv_int64 : Recv ℤ
recv_int64 = recv_packets 8 >>= λ b. or_panic (bytes_to_bint64 b)

-- A length word, its check, and the bytes, which are read if there are any.
unfoldable pub recv_field : Recv (List ℕ)
recv_field = recv_int32 >>= λ ln. checked_length ln >>= λ n. response_buffer n

abbrev pub decoded : Decoded → Recv (List ℕ)
decoded (done out) = return out
decoded header = fault bad_segment
decoded segment = fault bad_segment
decoded panic = fault firebirdsql_go.Wire.panic
decoded stuck = fault firebirdsql_go.Wire.stuck

unfoldable pub decode_content : List ℕ → Recv (List ℕ)
decode_content raw =
    if length raw == 0 then return [] else decoded (decode_inline_segment_buffer raw)

unfoldable pub parse_inline_blob_payload : Recv InlineBlob
parse_inline_blob_payload = recv_int32 >>= λ tx. recv_int64 >>= λ id. recv_field >>= λ info.
    recv_field >>= λ raw.
    decode_content raw >>= λ out. return record { tx_handle = tx; blob_id = id; content = out }

abbrev pub op_inline_blob : ℕ
op_inline_blob = 114

abbrev pub is_inline_blob : ℤ → Bool
is_inline_blob op = int_eq op (pos op_inline_blob)

-- The loop, on an opcode that was read: it ends at the first one that is another packet's.
unfoldable pub consume : ℕ → ℤ → InlineBlobCache → Recv (ℤ × InlineBlobCache)
consume zero op c = fault firebirdsql_go.Wire.stuck
consume (suc fuel) op c =
    if is_inline_blob op
    then (parse_inline_blob_payload >>= λ blob.
        recv_int32 >>= λ next. consume fuel next (add c blob.tx_handle blob.blob_id blob.content).0)
    else return (op, c)

-- Each packet takes bytes, so that the number of those left is fuel enough.
unfoldable pub consume_inline_blobs : ℤ → InlineBlobCache → Recv (ℤ × InlineBlobCache)
consume_inline_blobs op c s = consume (length s + 1) op c s
