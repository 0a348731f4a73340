-- ===== src/Connection.antt =====
-- A connection and its transactions: connection.go and transaction.go, with the inline BLOB cache.
pub mod Isolation
pub mod Transactions
pub mod Sound
pub mod Invariant
pub mod Sends
pub mod Closing
pub mod Levels
pub mod Ends
mod Tests
use firebirdsql_go.Base.{ℕ, ℤ, pos, Bool, Option, none, some, List, [], ◌∷◌, get_elem?, set}
use firebirdsql_go.Blob.Cache.{InlineBlobCache}
use firebirdsql_go.Packets.{WireProtocol, Send, SendFault, bad_conn}

-- What `opResponse` gives next: the handle of an answer without an error, the error of an answer
-- with the handle in it, or an error of the wire. The last is also what a read past all of them gives.
pub data Reply : Type 0 where
  answered : ℤ → Reply
  refused : ℤ → Reply
  broken : Reply

-- `lost` is `driver.ErrBadConn` or an error of the wire, `refused_request` the server's error,
-- `bad_level` is `ErrInvalidIsolationLevel`, `unsupported_level` the error of `BeginTx`,
-- `old_protocol` the error of `PrepareBatch` below protocol 16, and `nil_panic` the use of a nil
-- transaction.
pub data ConnFault : Type 0 where
  lost : ConnFault
  refused_request : ConnFault
  bad_level : ConnFault
  unsupported_level : ConnFault
  old_protocol : ConnFault
  nil_panic : ConnFault

-- `firebirdsqlTx`, but for its connection.
pub record Tx : Type 0 where
  pub isolation_level : ℕ
  pub autocommit : Bool
  pub trans_handle : ℤ
  pub need_begin : Bool

-- `firebirdsqlConn`. Transactions are shared by pointers: `txs` is all that were made, and a pointer
-- is a position in it. `tx` is the current one, and `transaction_set` the keys of the map, in the
-- order in which a `range` gives them.
pub record Conn : Type 0 where
  pub wp : WireProtocol
  pub replies : List Reply
  pub cache : InlineBlobCache
  pub txs : List Tx
  pub tx : Option ℕ
  pub is_autocommit : Bool
  pub transaction_set : List ℕ

-- An operation, with its error.
abbrev pub Op : Type 0
Op = Conn → Conn × Option ConnFault

-- The packet goes out through the connection's `wireProtocol`.
abbrev pub send_with : Send → Conn → Conn × Option SendFault
send_with request fc = let r = request fc.wp in (record fc { wp = r.0 }, r.1)

-- The handle comes with every outcome: 0 if the wire broke.
abbrev pub next_reply : List Reply → List Reply × (ℤ × Option ConnFault)
next_reply [] = ([], (pos 0, some lost))
next_reply (answered h ∷ rs) = (rs, (h, none))
next_reply (refused h ∷ rs) = (rs, (h, some refused_request))
next_reply (broken ∷ rs) = (rs, (pos 0, some lost))

unfoldable pub op_response : Conn → Conn × (ℤ × Option ConnFault)
op_response fc = let r = next_reply fc.replies in (record fc { replies = r.0 }, r.1)
