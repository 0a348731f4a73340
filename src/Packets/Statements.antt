-- ===== src/Packets/Statements.antt =====
-- wireprotocol.go: the packets that allocate, prepare, run, fetch from and free statements.
use firebirdsql_go.Base.{ℕ, ℤ, pos, Bool, Option, none, some, List, [], ◌∷◌, leb_ℤ, if◌then◌else◌}
use firebirdsql_go.Bytes.{bint32_to_bytes}
use firebirdsql_go.Packets.{
  WireProtocol, Send, bad_parameter, ◌▷◌, append_bytes, pack_int, pack_bytes, pack_string, send,
  buffer_len,
}
use firebirdsql_go.Packets.Consts

-- `_INFO_SQL_SELECT_DESCRIBE_VARS` and `_INFO_SQL_BIND_DESCRIBE_VARS`: what to tell of each column,
-- or of each parameter.
abbrev describe_items : List ℕ
describe_items = 7 ∷ 9 ∷ 11 ∷ 12 ∷ 13 ∷ 14 ∷ 15 ∷ 16 ∷ 17 ∷ 18 ∷ 19 ∷ 8 ∷ []

abbrev pub info_sql_select_describe_vars : List ℕ
info_sql_select_describe_vars = 4 ∷ describe_items

abbrev pub info_sql_bind_describe_vars : List ℕ
info_sql_bind_describe_vars = 5 ∷ describe_items

unfoldable pub op_allocate_statement : Send
op_allocate_statement p =
    p ▷ pack_int (pos Consts.op_allocate_statement) ▷ pack_int p.db_handle ▷ send

unfoldable pub op_free_statement : ℤ → ℤ → Send
op_free_statement stmt_handle mode p =
    p ▷ pack_int (pos Consts.op_free_statement) ▷ pack_int stmt_handle ▷ pack_int mode ▷ send

unfoldable pub op_prepare_statement : ℤ → ℤ → List ℕ → Send
op_prepare_statement stmt_handle trans_handle query p =
    p
    ▷ pack_int (pos Consts.op_prepare_statement)
    ▷ pack_int trans_handle
    ▷ pack_int stmt_handle
    ▷ pack_int (pos 3)
    ▷ pack_string query
    ▷ pack_bytes (Consts.isc_info_sql_stmt_type ∷ info_sql_select_describe_vars)
    ▷ pack_int buffer_len
    ▷ send

-- execute_immediate.go: a statement that is not prepared.
unfoldable pub op_execute_immediate : ℤ → List ℕ → Send
op_execute_immediate trans_handle sql p =
    p
    ▷ pack_int (pos Consts.op_execute_immediate)
    ▷ pack_int trans_handle
    ▷ pack_int (pos 0)
    ▷ pack_int (pos 3)
    ▷ pack_string sql
    ▷ pack_bytes []
    ▷ pack_int (pos 0)
    ▷ send

unfoldable pub op_info_sql : ℤ → List ℕ → Send
op_info_sql stmt_handle vars p =
    p
    ▷ pack_int (pos Consts.op_info_sql)
    ▷ pack_int stmt_handle
    ▷ pack_int (pos 0)
    ▷ pack_bytes vars
    ▷ pack_int buffer_len
    ▷ send

unfoldable pub op_fetch : ℤ → List ℕ → Send
op_fetch stmt_handle blr p =
    p
    ▷ pack_int (pos Consts.op_fetch)
    ▷ pack_int stmt_handle
    ▷ pack_bytes blr
    ▷ pack_int (pos 0)
    ▷ pack_int (pos 400)
    ▷ send

unfoldable pub op_fetch_scroll : ℤ → List ℕ → ℤ → ℤ → ℤ → Send
op_fetch_scroll stmt_handle blr orientation offset count p =
    p
    ▷ pack_int (pos Consts.op_fetch_scroll)
    ▷ pack_int stmt_handle
    ▷ pack_bytes blr
    ▷ pack_int (pos 0)
    ▷ pack_int count
    ▷ pack_int orientation
    ▷ pack_int offset
    ▷ send

-- Protocol 16 has a timeout, 18 the flags of the cursor, and 19 the size of inline BLOBs.
abbrev pub append_if : Bool → ℤ → WireProtocol → WireProtocol
append_if b z p = if b then append_bytes (bint32_to_bytes z) p else p

unfoldable pub append_execute_trailers : WireProtocol → WireProtocol
append_execute_trailers p =
    p
    ▷ append_if (leb_ℤ (pos 16) p.protocol_version) (pos 0)
    ▷ append_if (leb_ℤ (pos 18) p.protocol_version) p.cursor_flags
    ▷ append_if (leb_ℤ (pos 19) p.protocol_version) p.max_inline_blob_size

-- The parameters of a statement: `none` are no parameters at all, and `some none` are parameters of
-- which one cannot be converted. The others come as their BLR and their values, those of
-- `paramsToBlr`.
abbrev pub Params : Type 0
Params = Option (Option (List ℕ × List ℕ))

-- An error leaves nothing of the packet in the buffer.
unfoldable pub op_execute : ℤ → ℤ → Params → Send
unfolding append_execute_trailers
op_execute stmt_handle trans_handle params p =
    let q = p ▷ pack_int (pos Consts.op_execute) ▷ pack_int stmt_handle ▷ pack_int trans_handle in
    elim params [
      | none ↦
          q
          ▷ pack_int (pos 0)
          ▷ pack_int (pos 0)
          ▷ pack_int (pos 0)
          ▷ append_execute_trailers
          ▷ send
      | some none ↦ (record q { buf = [] }, some bad_parameter)
      | some (some (blr, values)) ↦
          q
          ▷ pack_bytes blr
          ▷ pack_int (pos 0)
          ▷ pack_int (pos 1)
          ▷ append_bytes values
          ▷ append_execute_trailers
          ▷ send
    ]

unfoldable pub op_execute2 : ℤ → ℤ → Params → List ℕ → Send
unfolding append_execute_trailers
op_execute2 stmt_handle trans_handle params output_blr p =
    let q = p ▷ pack_int (pos Consts.op_execute2) ▷ pack_int stmt_handle ▷ pack_int trans_handle in
    elim params [
      | none ↦
          q
          ▷ pack_int (pos 0)
          ▷ pack_int (pos 0)
          ▷ pack_int (pos 0)
          ▷ pack_bytes output_blr
          ▷ pack_int (pos 0)
          ▷ append_execute_trailers
          ▷ send
      | some none ↦ (record q { buf = [] }, some bad_parameter)
      | some (some (blr, values)) ↦
          q
          ▷ pack_bytes blr
          ▷ pack_int (pos 0)
          ▷ pack_int (pos 1)
          ▷ append_bytes values
          ▷ pack_bytes output_blr
          ▷ pack_int (pos 0)
          ▷ append_execute_trailers
          ▷ send
    ]
