-- ===== src/Packets/Attachment.antt =====
-- wireprotocol.go: the packets of the authentication, of an attachment and of its end.
use firebirdsql_go.Base.{ℕ, ℤ, pos, i32, u32, List, bytes_of}
use firebirdsql_go.Texts.{hex_encode}
use firebirdsql_go.Packets.Blocks.{Host, resolve_client, create_dpb, attach_dpb}
use firebirdsql_go.Packets.{Send, ◌▷◌, pack_int, pack_bytes, pack_string, send, buffer_len}
use firebirdsql_go.Packets.Consts

unfoldable pub op_cont_auth : List ℕ → List ℕ → List ℕ → List ℕ → Send
op_cont_auth auth_bytes auth_plugin_name auth_plugin_list keys p =
    p
    ▷ pack_int (pos Consts.op_cont_auth)
    ▷ pack_string (hex_encode auth_bytes)
    ▷ pack_string auth_plugin_name
    ▷ pack_string auth_plugin_list
    ▷ pack_string keys
    ▷ send

unfoldable pub op_crypt : List ℕ → Send
op_crypt plugin p =
    p
    ▷ pack_int (pos Consts.op_crypt)
    ▷ pack_string plugin
    ▷ pack_string (bytes_of "Symmetric")
    ▷ send

unfoldable pub op_crypt_callback : Send
op_crypt_callback p =
    p ▷ pack_int (pos Consts.op_crypt_key_callback) ▷ pack_int (pos 0) ▷ pack_int buffer_len ▷ send

unfoldable pub op_create : List ℕ → List ℕ → List ℕ → List ℕ → Send
op_create db_name user password role p =
    p
    ▷ pack_int (pos Consts.op_create)
    ▷ pack_int (pos 0)
    ▷ pack_string db_name
    ▷ pack_bytes (create_dpb user password role p)
    ▷ send

unfoldable pub op_drop_database : Send
op_drop_database p = p ▷ pack_int (pos Consts.op_drop_database) ▷ pack_int p.db_handle ▷ send

unfoldable pub op_detach : Send
op_detach p = p ▷ pack_int (pos Consts.op_detach) ▷ pack_int p.db_handle ▷ send

unfoldable pub op_info_database : List ℕ → Send
op_info_database bs p =
    p
    ▷ pack_int (pos Consts.op_info_database)
    ▷ pack_int p.db_handle
    ▷ pack_int (pos 0)
    ▷ pack_bytes bs
    ▷ pack_int buffer_len
    ▷ send

unfoldable pub op_cancel : ℤ → Send
op_cancel kind p = p ▷ pack_int (pos Consts.op_cancel) ▷ pack_int (i32 (u32 kind)) ▷ send

unfoldable pub op_ping : Send
op_ping p = p ▷ pack_int (pos Consts.op_ping) ▷ send

-- The client's identification is resolved first, and stays in the connection.
unfoldable pub op_attach : Host → List ℕ → List ℕ → List ℕ → List ℕ → Send
op_attach h db_name user password role p =
    let q = resolve_client h p in
    q
    ▷ pack_int (pos Consts.op_attach)
    ▷ pack_int (pos 0)
    ▷ pack_string db_name
    ▷ pack_bytes (attach_dpb h user password role q)
    ▷ send
