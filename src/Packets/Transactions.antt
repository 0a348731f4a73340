-- ===== src/Packets/Transactions.antt =====
-- wireprotocol.go: the packets that start, end and ask about transactions.
use firebirdsql_go.Base.{ℕ, ℤ, pos, List}
use firebirdsql_go.Packets.{Send, ◌▷◌, pack_int, pack_bytes, send, buffer_len}
use firebirdsql_go.Packets.Consts

unfoldable pub op_transaction : List ℕ → Send
op_transaction tpb p =
    p ▷ pack_int (pos Consts.op_transaction) ▷ pack_int p.db_handle ▷ pack_bytes tpb ▷ send

unfoldable pub op_commit : ℤ → Send
op_commit trans_handle p = p ▷ pack_int (pos Consts.op_commit) ▷ pack_int trans_handle ▷ send

unfoldable pub op_commit_retaining : ℤ → Send
op_commit_retaining trans_handle p =
    p ▷ pack_int (pos Consts.op_commit_retaining) ▷ pack_int trans_handle ▷ send

unfoldable pub op_rollback : ℤ → Send
op_rollback trans_handle p = p ▷ pack_int (pos Consts.op_rollback) ▷ pack_int trans_handle ▷ send

unfoldable pub op_rollback_retaining : ℤ → Send
op_rollback_retaining trans_handle p =
    p ▷ pack_int (pos Consts.op_rollback_retaining) ▷ pack_int trans_handle ▷ send

unfoldable pub op_info_transaction : ℤ → List ℕ → Send
op_info_transaction trans_handle b p =
    p
    ▷ pack_int (pos Consts.op_info_transaction)
    ▷ pack_int trans_handle
    ▷ pack_int (pos 0)
    ▷ pack_bytes b
    ▷ pack_int buffer_len
    ▷ send
