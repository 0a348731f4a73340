-- ===== src/Packets/Blobs.antt =====
-- wireprotocol.go: the packets of BLOBs.
use firebirdsql_go.Base.{ℕ, ℤ, pos, List, length, replicate}
use firebirdsql_go.Bytes.{blr_padding}
use firebirdsql_go.Packets.{Send, ◌▷◌, append_bytes, pack_int, send, int32_of}
use firebirdsql_go.Packets.Consts

unfoldable pub op_open_blob : List ℕ → ℤ → Send
op_open_blob blob_id trans_handle p =
    p ▷ pack_int (pos Consts.op_open_blob) ▷ pack_int trans_handle ▷ append_bytes blob_id ▷ send

unfoldable pub op_open_blob2 : List ℕ → ℤ → Send
op_open_blob2 blob_id trans_handle p =
    p
    ▷ pack_int (pos Consts.op_open_blob2)
    ▷ pack_int (pos 0)
    ▷ pack_int trans_handle
    ▷ append_bytes blob_id
    ▷ send

unfoldable pub op_create_blob2 : ℤ → Send
op_create_blob2 trans_handle p =
    p
    ▷ pack_int (pos Consts.op_create_blob2)
    ▷ pack_int (pos 0)
    ▷ pack_int trans_handle
    ▷ pack_int (pos 0)
    ▷ pack_int (pos 0)
    ▷ send

unfoldable pub op_get_segment : ℤ → Send
op_get_segment blob_handle p =
    p
    ▷ pack_int (pos Consts.op_get_segment)
    ▷ pack_int blob_handle
    ▷ pack_int (pos 32000)
    ▷ pack_int (pos 0)
    ▷ send

unfoldable pub op_put_segment : ℤ → List ℕ → Send
op_put_segment blob_handle seg p =
    p
    ▷ pack_int (pos Consts.op_put_segment)
    ▷ pack_int blob_handle
    ▷ pack_int (int32_of (length seg))
    ▷ pack_int (int32_of (length seg))
    ▷ append_bytes seg
    ▷ append_bytes (replicate (blr_padding (length seg)) 0)
    ▷ send

unfoldable pub op_close_blob : ℤ → Send
op_close_blob blob_handle p = p ▷ pack_int (pos Consts.op_close_blob) ▷ pack_int blob_handle ▷ send
