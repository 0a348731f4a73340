-- ===== src/Connection/Transactions.antt =====
-- transaction.go and the uses of it in connection.go, driver_go18.go and batch.go.
use firebirdsql_go.Base.{
  ℕ, zero, suc, ℤ, pos, Bool, true, false, not, Option, none, some, List, [], ◌∷◌, ◌++◌, length,
  get_elem?, ◌==◌, if◌then◌else◌, ltb_ℤ,
}
use firebirdsql_go.Blob.Cache.{InlineBlobCache, clear_tx, clear_all}
use firebirdsql_go.Packets.{WireProtocol, Send}
use firebirdsql_go.Packets.Transactions.{
  op_transaction, op_commit, op_commit_retaining, op_rollback,
}
use firebirdsql_go.Packets.Attachment.{op_detach}
use firebirdsql_go.Connection.{
  Conn, Reply, Tx, Op, ConnFault, lost, bad_level, unsupported_level, old_protocol, nil_panic,
  send_with, op_response,
}
use firebirdsql_go.Connection.Isolation.{
  SqlLevel, tpb_for_isolation_level, begin_level, isolation_level_read_commited,
}

-- What stands at a pointer is read, and what is written through it is seen by all who hold it.
unfoldable pub modify : List Tx → ℕ → (Tx → Tx) → List Tx
modify [] i f = []
modify (t ∷ ts) zero f = f t ∷ ts
modify (t ∷ ts) (suc i) f = t ∷ modify ts i f

abbrev pub update : ℕ → (Tx → Tx) → Conn → Conn
update i f fc = record fc { txs = modify fc.txs i f }

-- A map's key is there once.
abbrev pub insert : ℕ → List ℕ → List ℕ
insert i [] = i ∷ []
insert i (j ∷ js) = if i == j then j ∷ js else j ∷ insert i js

-- A request and its answer: nothing if the request could not be sent.
unfoldable pub exchange : Send → Conn → Conn × Option (ℤ × Option ConnFault)
unfolding op_response
exchange request fc =
    let r = send_with request fc in
    let a = op_response r.0 in
    (elim r.1 [ some e ↦ r.0 | none ↦ a.0 ], elim r.1 [ some e ↦ none | none ↦ some a.1 ])

-- A handle is stored also if the answer is an error.
unfoldable pub begun : ℕ → Conn → Option (ℤ × Option ConnFault) → Conn × Option ConnFault
begun i fc none = (fc, some lost)
begun i fc (some (handle, some e)) = (update i (λ t. record t { trans_handle = handle }) fc, some e)
begun i fc (some (handle, none)) =
    let stored = update i (λ t. record t { trans_handle = handle; need_begin = false }) fc in
    (record stored { transaction_set = insert i fc.transaction_set }, none)

unfoldable pub begin : ℕ → Op
unfolding begun exchange
begin i fc = elim (get_elem? fc.txs i) [
  | none ↦ (fc, some nil_panic)
  | some t ↦ elim (tpb_for_isolation_level t.isolation_level) [
    | none ↦ (fc, some bad_level)
    | some tpb ↦ let r = exchange (op_transaction tpb) fc in begun i r.0 r.1
  ]
]

-- Behind the answer to a commit or a rollback, whatever it is, the BLOBs of the transaction are
-- dropped. Retaining keeps the transaction; otherwise it has to begin again.
unfoldable pub ended : ℕ → ℤ → Bool → Conn → Option (ℤ × Option ConnFault) → Conn × Option ConnFault
ended i handle retain fc none = (fc, some lost)
ended i handle retain fc (some (h, e)) =
    let auto = fc.is_autocommit in
    let kept =
      update i
        (λ t. record t { autocommit = auto; need_begin = if retain then t.need_begin else true })
        fc in
    (record kept { cache = clear_tx fc.cache handle }, e)

unfoldable pub end_with : (ℤ → Send) → Bool → ℕ → Op
unfolding ended exchange
end_with request retain i fc = elim (get_elem? fc.txs i) [
  | none ↦ (fc, some nil_panic)
  | some t ↦ let r = exchange (request t.trans_handle) fc in ended i t.trans_handle retain r.0 r.1
]

unfoldable pub commit_retainging : ℕ → Op
unfolding end_with
commit_retainging i fc = end_with op_commit_retaining true i fc

unfoldable pub commit : ℕ → Op
unfolding end_with
commit i fc = end_with op_commit false i fc

unfoldable pub rollback : ℕ → Op
unfolding end_with
rollback i fc = end_with op_rollback false i fc

-- `newFirebirdsqlTx`: the pointer, or nil with the error. Nothing holds a transaction that could not
-- begin, so it is no longer there.
unfoldable pub new_tx : ℕ → Bool → Bool → Conn → Conn × (Option ℕ × Option ConnFault)
unfolding begin
new_tx level auto with_begin fc =
    let i = length fc.txs in
    let made = record fc {
      txs =
          fc.txs
          ++ record {
            isolation_level = level;
            autocommit = auto;
            trans_handle = pos 0;
            need_begin = not with_begin;
          }
            ∷ [];
    } in
    let r = begin i made in
    if with_begin
    then elim r.1 [
      | none ↦ (r.0, (some i, none))
      | some e ↦ (record (r.0) { txs = fc.txs }, (none, some e))
    ]
    else (made, (some i, none))

-- `fc.begin`: a transaction that could not begin leaves nil as the current one.
unfoldable pub conn_begin : ℕ → Op
unfolding new_tx
conn_begin level fc = let r = new_tx level false true fc in (record (r.0) { tx = r.1.0 }, r.1.1)

unfoldable pub begin_tx : Bool → SqlLevel → Op
unfolding conn_begin begin_level
begin_tx read_only l fc = elim (begin_level read_only l) [
  | none ↦ (fc, some unsupported_level)
  | some level ↦ conn_begin level fc
]

-- `if tx.needBegin { tx.begin() }` in front of a request.
unfoldable pub begin_if_needed : ℕ → Op
unfolding begin
begin_if_needed i fc = elim (get_elem? fc.txs i) [
  | none ↦ (fc, some nil_panic)
  | some t ↦ if t.need_begin then begin i fc else (fc, none)
]

-- `fc.prepare` refuses a connection without a transaction.
unfoldable pub prepare : Op
unfolding begin_if_needed
prepare fc = elim fc.tx [ none ↦ (fc, some lost) | some i ↦ begin_if_needed i fc ]

-- `PrepareBatch` up to the start of a transaction. Here there is a connection with its
-- `wireProtocol`, for which it looks first; it does not look for a nil transaction.
unfoldable pub prepare_batch : Op
unfolding begin_if_needed
prepare_batch fc =
    if ltb_ℤ fc.wp.protocol_version (pos 16)
    then (fc, some old_protocol)
    else elim fc.tx [ none ↦ (fc, some nil_panic) | some i ↦ begin_if_needed i fc ]

-- The loop of `Close`: errors are ignored.
unfoldable pub rollback_all : List ℕ → Conn → Conn
unfolding rollback
rollback_all [] fc = fc
rollback_all (i ∷ is) fc = rollback_all is (rollback i fc).0

unfoldable pub detached : Conn × Option (ℤ × Option ConnFault) → Conn × Option ConnFault
detached (fc, none) = (fc, some lost)
detached (fc, some (h, e)) = (fc, e)

unfoldable pub close : Op
unfolding rollback_all exchange detached
close fc =
    let rolled = rollback_all fc.transaction_set fc in
    detached (exchange op_detach (record rolled { cache = clear_all rolled.cache }))

-- What `openFirebirdsqlConn` makes of an attached `wireProtocol`.
unfoldable pub open_conn : WireProtocol → List Reply → InlineBlobCache → Conn
unfolding new_tx
open_conn wp replies cache =
    let fc : Conn = record {
      wp = wp;
      replies = replies;
      cache = cache;
      txs = [];
      tx = none;
      is_autocommit = true;
      transaction_set = [];
    } in
    let r = new_tx isolation_level_read_commited true false fc in record (r.0) { tx = r.1.0 }
