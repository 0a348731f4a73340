-- ===== src/Connection/Tests.antt =====
-- A connection with a running transaction, and what becomes of it.
use firebirdsql_go.Base.{
  zero, suc, ◌<◌, subst, some_injective, ◌≡◌, refl, arith, ℕ, pos, true, false, none, some, List,
  [], ◌∷◌, ◌++◌, bytes_of, get_elem?,
}
use firebirdsql_go.Blob.Cache.{InlineBlobCache}
use firebirdsql_go.Bytes.{bint32_to_bytes, xdr_bytes}
use firebirdsql_go.Packets.{WireProtocol, pack_int, pack_bytes, send, send_packets, write_loop}
use firebirdsql_go.Packets.Requests.{Item, word, encode, message, ask_transaction}
use firebirdsql_go.Packets.Transactions.{op_transaction}
use firebirdsql_go.Packets.Consts
use firebirdsql_go.Connection.{Conn, Tx, answered, refused, broken, lost, op_response}
use firebirdsql_go.Connection.Isolation.{
  level_serializable, level_default, tpb_for_isolation_level, begin_level,
}
use firebirdsql_go.Connection.Transactions.{
  exchange, begun, begin, commit, rollback, new_tx, conn_begin, begin_tx, prepare, prepare_batch,
  close, open_conn,
}
use firebirdsql_go.Connection.Invariant.{
  do_begin_tx, do_prepare, do_commit, run, WellFormed, connections_stay_sound,
}
use firebirdsql_go.Connection.Sound.{contains}
use firebirdsql_go.Connection.Closing.{farewell, close_rolls_back_running}
use firebirdsql_go.Connection.Levels.{Serves, begin_tx-Serves}
use firebirdsql_go.Connection.Ends.{
  Finished, Restarted, BatchFails, commit_and_rollback_finish, failed_begin_leaves_nil,
  refused_commit_loses_handle,
}

abbrev wire : WireProtocol
wire = record {
  buf = [];
  sent = [];
  conn = record { writes = []; flushes = []; delivered = [] };
  db_handle = pos 7;
  protocol_version = pos 19;
  user = bytes_of "sysdba";
  password = bytes_of "masterkey";
  timezone = [];
  charset = bytes_of "UTF8";
  client_version = [];
  os_user = [];
  host_name = [];
  auth_data = none;
  cursor_flags = pos 0;
  max_inline_blob_size = pos 65535;
  max_blob_cache_size = pos 1000;
  encode_charset = λ s. none;
}

abbrev no_blobs : InlineBlobCache
no_blobs = record { max_size = pos 1000; size = 0; by_tx = [] }

abbrev first : Tx
first = record { isolation_level = 1; autocommit = true; trans_handle = pos 31; need_begin = false }

-- The first transaction runs; the server will refuse one request and answer the next.
abbrev running : Conn
running = record {
  wp = wire;
  replies = refused (pos 0) ∷ answered (pos 32) ∷ [];
  cache = no_blobs;
  txs = first ∷ [];
  tx = some 0;
  is_autocommit = true;
  transaction_set = 0 ∷ [];
}

abbrev idle : Conn
idle = record running { replies = broken ∷ [] }

running-WellFormed : WellFormed running
running-WellFormed = record {
  current = λ i e. current i e;
  known = λ i e. ground arith;
  running = λ i t e h. at i t e;
}
  where
    current : (i : ℕ) → some 0 ≡ some i → i < 1
    current i e = subst (λ k. k < 1) (some_injective e) (omega arith)

    at : (i : ℕ) (t : Tx) → get_elem? (first ∷ []) i ≡ some t → contains i (0 ∷ []) ≡ true
    at zero t e = refl
    at (suc i) t e = cc e

-- The connection opens, prepares, begins a transaction and commits it.
connections_stay_sound_example : WellFormed (
    run
      (do_prepare ∷ do_begin_tx false level_serializable ∷ do_commit 1 ∷ [])
      (open_conn wire (answered (pos 31) ∷ answered (pos 32) ∷ answered (pos 0) ∷ []) no_blobs))
connections_stay_sound_example =
    connections_stay_sound wire (answered (pos 31) ∷ answered (pos 32) ∷ answered (pos 0) ∷ [])
      no_blobs (do_prepare ∷ do_begin_tx false level_serializable ∷ do_commit 1 ∷ [])

close_rolls_back_running_example :
    ((close running).0.wp.sent ≡ [] ++ encode (farewell running))
    × ((i : ℕ) (t : Tx)
        → get_elem? (first ∷ []) i ≡ some t
        → t.need_begin ≡ false
        → (before : List Item) × (after : List Item) × (farewell running
            ≡ before ++ (word (pos Consts.op_rollback) ∷ word t.trans_handle ∷ after)))
close_rolls_back_running_example = close_rolls_back_running running running-WellFormed tt refl

begin_tx-Serves_example :
    (tpb : List ℕ) × Serves false level_serializable tpb
    × ((begin_tx false level_serializable running).0.wp.sent
        ≡ [] ++ encode (message wire (ask_transaction tpb)))
unfolding begin_level
begin_tx-Serves_example = begin_tx-Serves false level_serializable 3 running refl tt refl

commit_and_rollback_finish_example :
    Finished 0 first running (commit 0 running) × Finished 0 first running (rollback 0 running)
commit_and_rollback_finish_example = commit_and_rollback_finish 0 running first refl tt

failed_begin_leaves_nil_example :
    ((begin_tx false level_default idle).0.tx ≡ none)
    × ((prepare (begin_tx false level_default idle).0).1 ≡ some lost)
    × BatchFails (pos 19) (prepare_batch (begin_tx false level_default idle).0).1
unfolding begin_level begin_tx conn_begin new_tx begin begun exchange op_response op_transaction
    pack_int pack_bytes send send_packets write_loop bint32_to_bytes xdr_bytes
    tpb_for_isolation_level
failed_begin_leaves_nil_example = failed_begin_leaves_nil false level_default 1 idle lost refl refl

refused_commit_loses_handle_example : Restarted 0 first (pos 32) (prepare (commit 0 running).0)
unfolding tpb_for_isolation_level
refused_commit_loses_handle_example =
    refused_commit_loses_handle running 0 first (3 ∷ 9 ∷ 6 ∷ 15 ∷ 17 ∷ []) (pos 0) (pos 32) [] refl
      refl refl tt refl
