-- ===== src/Packets/Services.antt =====
-- wireprotocol.go: the packets of the service manager and of events.
use firebirdsql_go.Base.{ℕ, ℤ, pos, List, leb_ℤ, bytes_of, if◌then◌else◌}
use firebirdsql_go.Packets.Blocks.{service_spb}
use firebirdsql_go.Packets.{Send, ◌▷◌, pack_int, pack_bytes, pack_string, send, buffer_len}
use firebirdsql_go.Packets.Consts

unfoldable pub op_connect_request : Send
op_connect_request p =
    p
    ▷ pack_int (pos Consts.op_connect_request)
    ▷ pack_int (pos Consts.p_req_async)
    ▷ pack_int p.db_handle
    ▷ pack_int (pos Consts.partner_identification)
    ▷ send

unfoldable pub op_que_events : ℤ → List ℕ → ℤ → Send
op_que_events aux_handle epb event_id p =
    p
    ▷ pack_int (pos Consts.op_que_events)
    ▷ pack_int aux_handle
    ▷ pack_bytes epb
    ▷ pack_int (pos Consts.address_of_ast_routine)
    ▷ pack_int (pos Consts.argument_to_ast_routine)
    ▷ pack_int event_id
    ▷ send

unfoldable pub op_cancel_events : ℤ → Send
op_cancel_events event_id p =
    p ▷ pack_int (pos Consts.op_cancel_events) ▷ pack_int p.db_handle ▷ pack_int event_id ▷ send

unfoldable pub op_service_attach : Send
op_service_attach p =
    p
    ▷ pack_int (pos Consts.op_service_attach)
    ▷ pack_int (pos 0)
    ▷ pack_string (bytes_of "service_mgr")
    ▷ pack_bytes (service_spb p)
    ▷ send

unfoldable pub op_service_detach : Send
op_service_detach p = p ▷ pack_int (pos Consts.op_service_detach) ▷ pack_int p.db_handle ▷ send

unfoldable pub op_service_info : List ℕ → List ℕ → ℤ → Send
op_service_info spb srb buffer_length p =
    p
    ▷ pack_int (pos Consts.op_service_info)
    ▷ pack_int p.db_handle
    ▷ pack_int (pos 0)
    ▷ pack_bytes spb
    ▷ pack_bytes srb
    ▷ pack_int (if leb_ℤ buffer_length (pos 0) then buffer_len else buffer_length)
    ▷ send

unfoldable pub op_service_start : List ℕ → Send
op_service_start spb p =
    p
    ▷ pack_int (pos Consts.op_service_start)
    ▷ pack_int p.db_handle
    ▷ pack_int (pos 0)
    ▷ pack_bytes spb
    ▷ send
