-- ===== src/Connection/Ends.antt =====
-- What a commit, a rollback and a transaction that cannot begin leave behind.
use firebirdsql_go.Base.{
  ℕ, zero, suc, ◌≡◌, refl, sym, ap, ◌∙◌, subst, Bool, true, false, ℤ, pos, Option, option_cases,
  none, some, List, [], ◌∷◌, ◌++◌, length, get_elem?, All, if◌then◌else◌, ltb_ℤ,
}
use firebirdsql_go.Blob.Cache.{clear_tx}
use firebirdsql_go.Packets.{WireProtocol, Send}
use firebirdsql_go.Packets.Sending.{IsReliable, Accepts, send_reliable, send-Reliable}
use firebirdsql_go.Packets.Requests.{Request, perform, ask_commit, ask_rollback, ask_transaction}
use firebirdsql_go.Packets.Delivery.{perform-Packs}
use firebirdsql_go.Packets.Transactions.{op_transaction, op_commit, op_rollback}
use firebirdsql_go.Connection.{
  Conn, Reply, Tx, ConnFault, lost, nil_panic, unsupported_level, old_protocol, bad_level, answered,
  refused, next_reply, op_response,
}
use firebirdsql_go.Connection.Isolation.{SqlLevel, tpb_for_isolation_level, begin_level}
use firebirdsql_go.Connection.Transactions.{
  modify, exchange, begun, begin, ended, end_with, commit, rollback, new_tx, conn_begin, begin_tx,
  begin_if_needed, prepare, prepare_batch,
}

no_error : (p : WireProtocol) (r : Request) → IsReliable p → (perform r p).1 ≡ none
no_error p r reliable =
    let (q, performed, (sent, writes, buf)) = perform-Packs p r in
    ap (λ t. t.1) performed
    ∙ (send_reliable q (subst (λ c. All Accepts c.writes) (sym writes) reliable)).0

-- A request that goes out is answered by the next reply.
exchange_reliable :
    (request : Send) (fc : Conn)
    → (request fc.wp).1 ≡ none
    → exchange request fc ≡ (
      record fc { wp = (request fc.wp).0; replies = (next_reply fc.replies).0 },
      some (next_reply fc.replies).1,
    )
unfolding exchange op_response
exchange_reliable request fc e = rw e refl

get_elem?-modify :
    (ts : List Tx) (i : ℕ) (f : Tx → Tx) (t : Tx)
    → get_elem? ts i ≡ some t
    → get_elem? (modify ts i f) i ≡ some (f t)
unfolding modify
get_elem?-modify [] i f t e = cc e
get_elem?-modify (s ∷ ts) zero f t e = ap (λ o. elim o [ none ↦ none | some u ↦ some (f u) ]) e
get_elem?-modify (s ∷ ts) (suc i) f t e = get_elem?-modify ts i f t e

end_with_reliable :
    (request : ℤ → Send) (retain : Bool) (i : ℕ) (fc : Conn) (t : Tx)
    → get_elem? fc.txs i ≡ some t
    → (request t.trans_handle fc.wp).1 ≡ none
    → end_with request retain i fc
      ≡ ended i t.trans_handle retain
          (record fc { wp = (request t.trans_handle fc.wp).0; replies = (next_reply fc.replies).0 })
          (some (next_reply fc.replies).1)
unfolding end_with
end_with_reliable request retain i fc t at e =
    rw (end_with, at, exchange_reliable (request t.trans_handle) fc e) refl

abbrev pub Finished : ℕ → Tx → Conn → Conn × Option ConnFault → Type 0
Finished i t fc r =
    (r.1 ≡ (next_reply fc.replies).1.1)
    × (get_elem? r.0.txs i ≡ some (record t { autocommit = fc.is_autocommit; need_begin = true }))
    × (r.0.cache ≡ clear_tx fc.cache t.trans_handle)
    × (r.0.transaction_set ≡ fc.transaction_set)

finished :
    (request : ℤ → Send) (i : ℕ) (fc : Conn) (t : Tx)
    → get_elem? fc.txs i ≡ some t
    → (request t.trans_handle fc.wp).1 ≡ none
    → Finished i t fc (end_with request false i fc)
unfolding ended
finished request i fc t at e =
    subst (Finished i t fc) (sym (end_with_reliable request false i fc t at e))
      (refl, get_elem?-modify fc.txs i _ t at, refl, refl)

-- If the writes do not fail, Commit and Rollback give the error of the answer and no other, drop
-- the BLOBs that came with the transaction, and leave it to begin again, also if the server
-- refused.
pub commit_and_rollback_finish :
    (i : ℕ) (fc : Conn) (t : Tx)
    → get_elem? fc.txs i ≡ some t
    → IsReliable fc.wp
    → Finished i t fc (commit i fc) × Finished i t fc (rollback i fc)
unfolding commit rollback
commit_and_rollback_finish i fc t at reliable = (
  finished op_commit i fc t at (no_error fc.wp (ask_commit t.trans_handle) reliable),
  finished op_rollback i fc t at (no_error fc.wp (ask_rollback t.trans_handle) reliable),
)

conn_begin_failed :
    (level : ℕ) (fc : Conn) (e : ConnFault)
    → (conn_begin level fc).1 ≡ some e
    → (conn_begin level fc).0.tx ≡ none
unfolding conn_begin new_tx
conn_begin_failed level fc e =
    let new : Tx = record {
      isolation_level = level;
      autocommit = false;
      trans_handle = pos 0;
      need_begin = false;
    } in
    let made : Conn = record fc { txs = fc.txs ++ new ∷ [] } in
    option_cases {B = Conn × (Option ℕ × Option ConnFault)} (λ r. r.1.1 ≡ some e → r.1.0 ≡ none)
      (begin (length fc.txs) made).1 (λ x h. cc h) (λ y x h. refl)

prepare_nil : (fc : Conn) → fc.tx ≡ none → prepare fc ≡ (fc, some lost)
unfolding prepare
prepare_nil fc e = ap (λ o. elim o [ none ↦ (fc, some lost) | some i ↦ begin_if_needed i fc ]) e

-- What becomes of a batch on a connection without a transaction.
abbrev pub BatchFails : ℤ → Option ConnFault → Type 0
BatchFails version e =
    (ltb_ℤ version (pos 16) ≡ true → e ≡ some old_protocol)
    × (ltb_ℤ version (pos 16) ≡ false → e ≡ some nil_panic)

prepare_batch_nil :
    (fc : Conn) → fc.tx ≡ none → BatchFails fc.wp.protocol_version (prepare_batch fc).1
unfolding prepare_batch
prepare_batch_nil fc e = (λ old. rw old refl, λ new. rw (new, e) refl)

-- If BeginTx fails with a level that it supports, the connection has no current transaction
-- afterwards: preparing a statement gives an error, and preparing a batch panics from protocol 16
-- on, and gives the error of an old protocol below it.
pub failed_begin_leaves_nil :
    (ro : Bool) (l : SqlLevel) (level : ℕ) (fc : Conn) (e : ConnFault)
    → begin_level ro l ≡ some level
    → (begin_tx ro l fc).1 ≡ some e
    → ((begin_tx ro l fc).0.tx ≡ none)
      × ((prepare (begin_tx ro l fc).0).1 ≡ some lost)
      × BatchFails (begin_tx ro l fc).0.wp.protocol_version (prepare_batch (begin_tx ro l fc).0).1
unfolding begin_tx
failed_begin_leaves_nil ro l level fc e known failed =
    let fd = (begin_tx ro l fc).0 in
    let began : begin_tx ro l fc ≡ conn_begin level fc =
      ap (λ o. elim o [ none ↦ (fc, some unsupported_level) | some k ↦ conn_begin k fc ]) known in
    let nil : (begin_tx ro l fc).0.tx ≡ none =
      ap (λ r. r.0.tx) began ∙ conn_begin_failed level fc e (sym (ap (λ r. r.1) began) ∙ failed) in
    (nil, ap (λ r. r.1) (prepare_nil fd nil), prepare_batch_nil fd nil)

IsReliable-after : (p : WireProtocol) (r : Request) → IsReliable p → IsReliable (perform r p).0
IsReliable-after p r reliable =
    let (q, performed, (sent, writes, buf)) = perform-Packs p r in
    subst (λ t. IsReliable t.0) (sym performed)
      (send-Reliable q (subst (λ c. All Accepts c.writes) (sym writes) reliable))

prepare_reliable :
    (fc : Conn) (i : ℕ) (t : Tx) (tpb : List ℕ)
    → fc.tx ≡ some i
    → get_elem? fc.txs i ≡ some t
    → t.need_begin ≡ true
    → tpb_for_isolation_level t.isolation_level ≡ some tpb
    → IsReliable fc.wp
    → prepare fc
      ≡ begun i
          (record fc { wp = (op_transaction tpb fc.wp).0; replies = (next_reply fc.replies).0 })
          (some (next_reply fc.replies).1)
unfolding prepare begin_if_needed begin
prepare_reliable fc i t tpb current at needed found reliable =
    ap (λ o. elim o [ none ↦ (fc, some lost) | some k ↦ begin_if_needed k fc ]) current
    ∙ ap
        (λ o. elim o [
          | none ↦ (fc, some nil_panic)
          | some u ↦ if u.need_begin then begin i fc else (fc, none)
        ])
        at
    ∙ ap (λ b. if b then begin i fc else (fc, none)) needed
    ∙ ap
        (λ o. elim o [
          | none ↦ (fc, some nil_panic)
          | some u ↦ begin_at i fc (tpb_for_isolation_level u.isolation_level)
        ])
        at
    ∙ ap (begin_at i fc) found
    ∙ ap (λ r. begun i r.0 r.1)
        (exchange_reliable (op_transaction tpb) fc (no_error fc.wp (ask_transaction tpb) reliable))
  where
    begin_at : ℕ → Conn → Option (List ℕ) → Conn × Option ConnFault
    begin_at i fc none = (fc, some bad_level)
    begin_at i fc (some tpb) = let r = exchange (op_transaction tpb) fc in begun i r.0 r.1

-- The transaction at a pointer runs under a new handle.
abbrev pub Restarted : ℕ → Tx → ℤ → Conn × Option ConnFault → Type 0
Restarted i t new r =
    (r.1 ≡ none)
    × (get_elem? r.0.txs i ≡ some (record t { trans_handle = new; need_begin = false }))

-- If the server refuses to commit the current transaction and the connection is used again, the
-- transaction runs under the new handle, without an error, and the handle that the server did not
-- release is stored nowhere in it. The writes do not fail, the level is valid and the server
-- answers the new start.
pub refused_commit_loses_handle :
    (fc : Conn) (i : ℕ) (t : Tx) (tpb : List ℕ) (old new : ℤ) (later : List Reply)
    → fc.tx ≡ some i
    → get_elem? fc.txs i ≡ some t
    → tpb_for_isolation_level t.isolation_level ≡ some tpb
    → IsReliable fc.wp
    → fc.replies ≡ refused old ∷ answered new ∷ later
    → Restarted i (record t { autocommit = fc.is_autocommit }) new (prepare (commit i fc).0)
unfolding ended commit begun
refused_commit_loses_handle fc i t tpb old new later current at found reliable replies =
    let h = t.trans_handle in
    let committed =
      end_with_reliable op_commit false i fc t at (no_error fc.wp (ask_commit h) reliable) in
    let fd : Conn =
      (ended i h false
        (record fc { wp = (op_commit h fc.wp).0; replies = (next_reply fc.replies).0 })
        (some (next_reply fc.replies).1)).0 in
    let t2 : Tx = record t { autocommit = fc.is_autocommit; need_begin = true } in
    let there : get_elem? fd.txs i ≡ some t2 = get_elem?-modify fc.txs i _ t at in
    let prepared =
      prepare_reliable fd i t2 tpb current there refl found
        (IsReliable-after fc.wp (ask_commit h) reliable) in
    let reply : next_reply fd.replies ≡ (later, (new, none)) =
      ap (λ rs. next_reply (next_reply rs).0) replies in
    let sent : Conn = record fd {
      wp = (op_transaction tpb fd.wp).0;
      replies = (next_reply fd.replies).0;
    } in
    let result : prepare fd ≡ begun i sent (some (new, none)) =
      prepared ∙ ap (λ r. begun i sent (some r.1)) reply in
    let again : Tx = record t { autocommit = fc.is_autocommit } in
    subst (λ c. Restarted i again new (prepare c)) (sym (ap (λ r. r.0) committed))
      (subst (Restarted i again new) (sym result) (refl, get_elem?-modify fd.txs i _ t2 there))
