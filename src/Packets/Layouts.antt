-- ===== src/Packets/Layouts.antt =====
-- The code of the operation tells a server the items of a packet.
use firebirdsql_go.Base.{
  some_injective, ℕ, ◌≡◌, none, sym, ap, ◌∙◌, pos, All, some, List, ◌++◌, map, append_assoc,
}
use firebirdsql_go.Bytes.{bint32_to_bytes}
use firebirdsql_go.Wire.{ok, return, recv_int32}
use firebirdsql_go.Wire.Receive.{bind_ok, recv_int32-word}
use firebirdsql_go.Packets.{WireProtocol}
use firebirdsql_go.Packets.Sending.{IsReliable}
use firebirdsql_go.Packets.Requests.{
  perform, encode, Fits, Request, opcode, items, message, text, ask_cont_auth, ask_crypt,
  ask_crypt_callback, ask_create, ask_attach, ask_drop_database, ask_detach, ask_info_database,
  ask_cancel, ask_ping, ask_transaction, ask_commit, ask_commit_retaining, ask_rollback,
  ask_rollback_retaining, ask_info_transaction, ask_open_blob, ask_open_blob2, ask_create_blob2,
  ask_get_segment, ask_put_segment, ask_close_blob, ask_connect_request, ask_que_events,
  ask_cancel_events, ask_service_attach, ask_service_detach, ask_service_info, ask_service_start,
  ask_allocate_statement, ask_free_statement, ask_prepare_statement, ask_execute_immediate,
  ask_info_sql, ask_fetch, ask_fetch_scroll, ask_batch_exec, ask_execute, ask_execute2,
}
use firebirdsql_go.Packets.Server.{
  kind_of, Kind, read_items, layout, expect, by_code, receive_request,
}
use firebirdsql_go.Packets.Refinement.{read_items-encode, packet_sent}

-- The kinds of a request's items do not depend on the connection or on the arguments.
kinds_lem :
    (p : WireProtocol) (r : Request) (ks : List Kind)
    → layout (opcode r) ≡ some ks
    → map kind_of (items p r) ≡ ks
unfolding text
kinds_lem p (ask_cont_auth a n l k) ks known = some_injective known
kinds_lem p (ask_crypt plugin) ks known = some_injective known
kinds_lem p ask_crypt_callback ks known = some_injective known
kinds_lem p (ask_create d u w r) ks known = some_injective known
kinds_lem p (ask_attach h d u w r) ks known = some_injective known
kinds_lem p ask_drop_database ks known = some_injective known
kinds_lem p ask_detach ks known = some_injective known
kinds_lem p (ask_info_database bs) ks known = some_injective known
kinds_lem p (ask_cancel kind) ks known = some_injective known
kinds_lem p ask_ping ks known = some_injective known
kinds_lem p (ask_transaction tpb) ks known = some_injective known
kinds_lem p (ask_commit t) ks known = some_injective known
kinds_lem p (ask_commit_retaining t) ks known = some_injective known
kinds_lem p (ask_rollback t) ks known = some_injective known
kinds_lem p (ask_rollback_retaining t) ks known = some_injective known
kinds_lem p (ask_info_transaction t b) ks known = some_injective known
kinds_lem p (ask_open_blob id t) ks known = some_injective known
kinds_lem p (ask_open_blob2 id t) ks known = some_injective known
kinds_lem p (ask_create_blob2 t) ks known = some_injective known
kinds_lem p (ask_get_segment b) ks known = some_injective known
kinds_lem p (ask_put_segment b seg) ks known = cc known
kinds_lem p (ask_close_blob b) ks known = some_injective known
kinds_lem p ask_connect_request ks known = some_injective known
kinds_lem p (ask_que_events a epb id) ks known = some_injective known
kinds_lem p (ask_cancel_events id) ks known = some_injective known
kinds_lem p ask_service_attach ks known = some_injective known
kinds_lem p ask_service_detach ks known = some_injective known
kinds_lem p (ask_service_info spb srb n) ks known = some_injective known
kinds_lem p (ask_service_start spb) ks known = some_injective known
kinds_lem p ask_allocate_statement ks known = some_injective known
kinds_lem p (ask_free_statement s m) ks known = some_injective known
kinds_lem p (ask_prepare_statement s t q) ks known = some_injective known
kinds_lem p (ask_execute_immediate t q) ks known = some_injective known
kinds_lem p (ask_info_sql s vars) ks known = some_injective known
kinds_lem p (ask_fetch s blr) ks known = some_injective known
kinds_lem p (ask_fetch_scroll s blr d o n) ks known = some_injective known
kinds_lem p (ask_batch_exec s t) ks known = some_injective known
kinds_lem p (ask_execute s t ps) ks known = cc known
kinds_lem p (ask_execute2 s t ps out) ks known = cc known

receive_message :
    (p : WireProtocol) (r : Request) (ks : List Kind) (rest : List ℕ)
    → layout (opcode r) ≡ some ks
    → All Fits (message p r)
    → receive_request (encode (message p r) ++ rest) ≡ ok ((pos (opcode r), items p r), rest)
unfolding receive_request by_code expect
receive_message p r ks rest known fits =
    ap receive_request (append_assoc (bint32_to_bytes (pos (opcode r))) (encode (items p r)) rest)
    ∙ bind_ok recv_int32 by_code _ (recv_int32-word (pos (opcode r)) _ fits.0)
    ∙ bind_ok (expect (layout (opcode r))) (λ is. return (pos (opcode r), is)) _
        (ap (λ o. expect o (encode (items p r) ++ rest)) known
          ∙ ap (λ k. read_items k (encode (items p r) ++ rest)) (sym (kinds_lem p r ks known))
          ∙ read_items-encode (items p r) rest fits.1)

-- For every request but the executions and the segments, if no write fails, the packet that the
-- request adds to what was sent is read back by a server that knows only which items belong to
-- which code of operation, whatever follows it: the code is enough. Words are int32, counted
-- strings are shorter than 2 ^ 31 bytes, and the id of a BLOB has eight bytes.
pub code_tells_items :
    (p : WireProtocol) (r : Request) (ks : List Kind)
    → layout (opcode r) ≡ some ks
    → IsReliable p
    → All Fits (message p r)
    → (packet : List ℕ) × ((perform r p).1 ≡ none)
      × ((perform r p).0.sent ≡ p.sent ++ (p.buf ++ packet))
      × ((rest : List ℕ)
          → receive_request (packet ++ rest) ≡ ok ((pos (opcode r), items p r), rest))
code_tells_items p r ks known reliable fits =
    let (no_error, emptied, sent) = packet_sent p r reliable in
    (encode (message p r), no_error, sent, λ rest. receive_message p r ks rest known fits)
