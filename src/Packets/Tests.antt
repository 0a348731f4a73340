-- ===== src/Packets/Tests.antt =====
-- The packets on concrete connections.
use firebirdsql_go.Base.{
  ℕ, ◌≡◌, ◌⊎◌, refl, arith, pos, none, some, List, [], ◌∷◌, ◌++◌, map, bytes_of, take,
}
use firebirdsql_go.Bytes.{bint32_to_bytes}
use firebirdsql_go.Texts.{to_upper, hex_encode}
use firebirdsql_go.Wire.{ok}
use firebirdsql_go.Packets.{
  WireProtocol, accepts, fails, bad_conn, bad_parameter, flush_fails, flush, write_loop,
  send_packets, send, encode_string, pack_int,
}
use firebirdsql_go.Packets.Blocks.{Host, attach_dpb, create_dpb}
use firebirdsql_go.Packets.Transactions.{op_commit}
use firebirdsql_go.Packets.Statements.{op_execute}
use firebirdsql_go.Packets.Sending.{IsReliable, Delivers}
use firebirdsql_go.Packets.Requests.{
  Request, ask_commit, ask_prepare_statement, perform, message, items, encode, text,
}
use firebirdsql_go.Packets.Server.{kind_of, read_items, receive_request}
use firebirdsql_go.Packets.Refinement.{requests_delivered, failed_send_leaves_prefix}
use firebirdsql_go.Packets.Layouts.{code_tells_items}
use firebirdsql_go.Packets.Attached.{attachment_blocks_read_back}
use firebirdsql_go.Packets.Items.{attached, created}
use firebirdsql_go.Packets.Clumplets.{read_block}

-- A connection of protocol 19 that takes three bytes, then two, and then everything.
abbrev connection : WireProtocol
connection = record {
  buf = [];
  sent = [];
  conn = record { writes = accepts 3 ∷ accepts 2 ∷ []; flushes = []; delivered = [] };
  db_handle = pos 7;
  protocol_version = pos 19;
  user = bytes_of "sysdba";
  password = bytes_of "masterkey";
  timezone = bytes_of "UTC";
  charset = bytes_of "UTF8";
  client_version = bytes_of "firebirdsql-go";
  os_user = [];
  host_name = bytes_of "box";
  auth_data = some (10 ∷ 255 ∷ []);
  cursor_flags = pos 0;
  max_inline_blob_size = pos 65535;
  max_blob_cache_size = pos 1000;
  encode_charset = λ s. none;
}

abbrev host : Host
host = record {
  executable = some (bytes_of "/bin/app");
  pid = pos 42;
  uid = pos 0;
  hostname = bytes_of "box";
  default_client_version = bytes_of "firebirdsql-go";
}

-- Afterwards, with these bytes taken and those gone out.
abbrev after : List ℕ → List ℕ → WireProtocol
after taken out = record connection {
  sent = taken;
  conn = record { writes = []; flushes = []; delivered = out };
}

abbrev commit_packet : List ℕ
commit_packet = 0 ∷ 0 ∷ 0 ∷ 30 ∷ 0 ∷ 0 ∷ 0 ∷ 5 ∷ []

commit_is_sent : op_commit (pos 5) connection ≡ (after commit_packet commit_packet, none)
unfolding op_commit pack_int send send_packets write_loop flush bint32_to_bytes
commit_is_sent = refl

broken_commit :
    op_commit (pos 5) (record connection {
      conn = record { writes = accepts 3 ∷ fails 2 ∷ []; flushes = []; delivered = [] };
    })
    ≡ (after (0 ∷ 0 ∷ 0 ∷ 30 ∷ 0 ∷ []) (0 ∷ 0 ∷ 0 ∷ 30 ∷ 0 ∷ []), some bad_conn)
unfolding op_commit pack_int send send_packets write_loop flush bint32_to_bytes
broken_commit = refl

-- The flush lets six bytes through and fails: no error.
abbrev clogged : WireProtocol
clogged = record connection {
  conn = record { writes = []; flushes = flush_fails 6 ∷ []; delivered = [] };
}

clogged_commit : op_commit (pos 5) clogged ≡ (after commit_packet (take 6 commit_packet), none)
unfolding op_commit pack_int send send_packets write_loop flush bint32_to_bytes
clogged_commit = refl

-- A parameter that cannot be converted leaves no half of a packet behind.
unconverted : op_execute (pos 1) (pos 2) (some none) connection ≡ (connection, some bad_parameter)
unfolding op_execute pack_int bint32_to_bytes
unconverted = refl

requests_delivered_example :
    (packet : List ℕ) × ((perform (ask_commit (pos 5)) connection).1 ≡ none)
    × ((perform (ask_commit (pos 5)) connection).0.buf ≡ [])
    × ((perform (ask_commit (pos 5)) connection).0.sent ≡ [] ++ ([] ++ packet))
    × ((rest : List ℕ)
        → read_items (map kind_of (message connection (ask_commit (pos 5)))) (packet ++ rest)
          ≡ ok (message connection (ask_commit (pos 5)), rest))
requests_delivered_example =
    requests_delivered connection (ask_commit (pos 5)) (tt, (tt, tt))
      (omega arith, (omega arith, tt))

failed_send_leaves_prefix_example :
    (taken : List ℕ) × (rest : List ℕ) × (taken ++ rest
      ≡ [] ++ encode (message clogged (ask_commit (pos 5))))
    × ((perform (ask_commit (pos 5)) clogged).0.sent ≡ [] ++ taken)
    × ((perform (ask_commit (pos 5)) clogged).0.buf ≡ [])
    × ((perform (ask_commit (pos 5)) clogged).1 ≡ none → rest ≡ [])
    × (((perform (ask_commit (pos 5)) clogged).1 ≡ none)
        ⊎ ((perform (ask_commit (pos 5)) clogged).1 ≡ some bad_conn))
    × Delivers clogged.conn ([] ++ taken) (perform (ask_commit (pos 5)) clogged).0.conn.delivered
    × (IsReliable clogged → (perform (ask_commit (pos 5)) clogged).1 ≡ none)
failed_send_leaves_prefix_example = failed_send_leaves_prefix clogged (ask_commit (pos 5))

abbrev preparation : Request
preparation = ask_prepare_statement (pos 1) (pos 2) (bytes_of "select 1")

code_tells_items_example :
    (packet : List ℕ) × ((perform preparation connection).1 ≡ none)
    × ((perform preparation connection).0.sent ≡ [] ++ ([] ++ packet))
    × ((rest : List ℕ)
        → receive_request (packet ++ rest) ≡ ok ((pos 68, items connection preparation), rest))
unfolding text encode_string
code_tells_items_example =
    code_tells_items connection preparation _ refl (tt, (tt, tt))
      (
        omega arith,
        (
          omega arith,
          (omega arith, (omega arith, (omega arith, (omega arith, (omega arith, tt))))),
        ),
      )

attachment_blocks_read_back_example :
    (read_block (
        attach_dpb host
          (bytes_of "sysdba")
          (bytes_of "masterkey")
          (bytes_of "RDB$ADMIN")
          connection)
      ≡ some (
          attached host
            (bytes_of "sysdba")
            (bytes_of "masterkey")
            (bytes_of "RDB$ADMIN")
            connection))
    × (read_block
          (create_dpb (bytes_of "sysdba") (bytes_of "masterkey") (bytes_of "RDB$ADMIN") connection)
        ≡ some
            (created (bytes_of "sysdba") (bytes_of "masterkey") (bytes_of "RDB$ADMIN") connection))
unfolding to_upper hex_encode
attachment_blocks_read_back_example =
    attachment_blocks_read_back host (bytes_of "sysdba") (bytes_of "masterkey")
      (bytes_of "RDB$ADMIN") connection
      (omega arith, omega arith, omega arith, omega arith, (omega arith, tt), omega arith)
