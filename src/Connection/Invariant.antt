-- ===== src/Connection/Invariant.antt =====
-- What holds of a connection after any use of it.
use firebirdsql_go.Base.{
  ℕ, zero, suc, ◌<◌, ◌≡◌, refl, sym, ap, ◌∙◌, subst, ◌⊎◌, inl, inr, arith, ℤ, pos, Bool, true,
  false, Option, option_cases, some_injective, none, some, List, [], ◌∷◌, ◌++◌, length,
  length-append, get_elem?, if_either, ltb_ℤ,
}
use firebirdsql_go.Blob.Cache.{InlineBlobCache}
use firebirdsql_go.Packets.{WireProtocol, Send}
use firebirdsql_go.Packets.Transactions.{
  op_transaction, op_commit, op_commit_retaining, op_rollback,
}
use firebirdsql_go.Connection.{Conn, Reply, Tx, Op, ConnFault, op_response, send_with}
use firebirdsql_go.Connection.Isolation.{SqlLevel, tpb_for_isolation_level, begin_level}
use firebirdsql_go.Connection.Transactions.{
  insert, exchange, begun, begin, ended, end_with, commit, commit_retainging, rollback, new_tx,
  conn_begin, begin_tx, begin_if_needed, prepare, prepare_batch, open_conn,
}
use firebirdsql_go.Connection.Sound.{
  contains, insert-contains, length-modify, Sound, update-Sound, insert-Sound, in_bounds,
  append-Sound,
}

abbrev pub WellFormed : Conn → Type 0
WellFormed fc = Sound fc.txs fc.tx fc.transaction_set

pub exchange_keeps :
    (request : Send) (fc : Conn)
    → ((exchange request fc).0.txs ≡ fc.txs)
      × ((exchange request fc).0.tx ≡ fc.tx)
      × ((exchange request fc).0.transaction_set ≡ fc.transaction_set)
unfolding exchange op_response
exchange_keeps request fc =
    option_cases {B = Conn}
      (λ c. (c.txs ≡ fc.txs) × (c.tx ≡ fc.tx) × (c.transaction_set ≡ fc.transaction_set))
      (send_with request fc).1 (λ e. (refl, refl, refl)) (λ a e. (refl, refl, refl))

exchange-WellFormed :
    (request : Send) (fc : Conn) → WellFormed fc → WellFormed (exchange request fc).0
exchange-WellFormed request fc wf =
    let (txs, tx, keys) = exchange_keeps request fc in rw (txs, tx, keys) wf

begun-WellFormed :
    (i : ℕ) (fc : Conn) (a : Option (ℤ × Option ConnFault))
    → WellFormed fc
    → i < length fc.txs
    → WellFormed (begun i fc a).0
unfolding begun
begun-WellFormed i fc none wf h = wf
begun-WellFormed i fc (some (handle, some e)) wf h =
    update-Sound fc.txs fc.tx fc.transaction_set i _ wf (λ t at idle. wf.running i t at idle)
begun-WellFormed i fc (some (handle, none)) wf h =
    update-Sound fc.txs fc.tx (insert i fc.transaction_set) i _
      (insert-Sound fc.txs fc.tx fc.transaction_set i wf h)
      (λ t at idle. insert-contains i fc.transaction_set)

pub begin-WellFormed : (i : ℕ) (fc : Conn) → WellFormed fc → WellFormed (begin i fc).0
unfolding begin
begin-WellFormed i fc wf =
    option_cases {B = Conn × Option ConnFault} (λ r. WellFormed r.0) (get_elem? fc.txs i) (λ e. wf)
      (λ t at.
        option_cases {B = Conn × Option ConnFault} (λ r. WellFormed r.0)
          (tpb_for_isolation_level t.isolation_level) (λ e. wf)
          (λ tpb e.
            let (txs, tx, keys) = exchange_keeps (op_transaction tpb) fc in
            begun-WellFormed i (exchange (op_transaction tpb) fc).0
              (exchange (op_transaction tpb) fc).1 (exchange-WellFormed (op_transaction tpb) fc wf)
              (subst (λ ts. i < length ts) (sym txs) (in_bounds fc.txs i t at))))

ended-WellFormed :
    (i : ℕ) (handle : ℤ) (retain : Bool) (fc : Conn) (a : Option (ℤ × Option ConnFault))
    → WellFormed fc
    → WellFormed (ended i handle retain fc a).0
unfolding ended
ended-WellFormed i handle retain fc none wf = wf
ended-WellFormed i handle true fc (some (h, e)) wf =
    update-Sound fc.txs fc.tx fc.transaction_set i _ wf (λ t at idle. wf.running i t at idle)
ended-WellFormed i handle false fc (some (h, e)) wf =
    update-Sound fc.txs fc.tx fc.transaction_set i _ wf (λ t at idle. cc idle)

pub end_with-WellFormed :
    (request : ℤ → Send) (retain : Bool) (i : ℕ) (fc : Conn)
    → WellFormed fc
    → WellFormed (end_with request retain i fc).0
unfolding end_with
end_with-WellFormed request retain i fc wf =
    option_cases {B = Conn × Option ConnFault} (λ r. WellFormed r.0) (get_elem? fc.txs i) (λ e. wf)
      (λ t at.
        ended-WellFormed i t.trans_handle retain (exchange (request t.trans_handle) fc).0 _
          (exchange-WellFormed (request t.trans_handle) fc wf))

-- What `begin` gives for a transaction that is new: it is in the set, or the set is as it was.
abbrev NewBegun : ℕ → Option ℕ → List ℕ → Conn × Option ConnFault → Type 0
NewBegun i tx keys r =
    (r.1 ≡ none → Sound r.0.txs tx r.0.transaction_set)
    × (r.1 ≡ none → i < length r.0.txs)
    × ((r.1 ≡ none) ⊎ (r.0.transaction_set ≡ keys))

begun_new :
    (i : ℕ) (fc : Conn) (a : Option (ℤ × Option ConnFault))
    → Sound fc.txs fc.tx (insert i fc.transaction_set)
    → i < length fc.txs
    → NewBegun i fc.tx fc.transaction_set (begun i fc a)
unfolding begun
begun_new i fc none s h = (λ e. cc e, λ e. cc e, inr refl)
begun_new i fc (some (handle, some x)) s h = (λ e. cc e, λ e. cc e, inr refl)
begun_new i fc (some (handle, none)) s h = (
  λ e.
      update-Sound fc.txs fc.tx (insert i fc.transaction_set) i _ s
        (λ t at idle. insert-contains i fc.transaction_set),
  λ e.
      omega (
        arith,
        length-modify fc.txs i (λ t. record t { trans_handle = handle; need_begin = false }),
      ),
  inl refl,
)

begin_new :
    (i : ℕ) (fc : Conn)
    → Sound fc.txs fc.tx (insert i fc.transaction_set)
    → i < length fc.txs
    → NewBegun i fc.tx fc.transaction_set (begin i fc)
unfolding begin
begin_new i fc s h =
    option_cases {B = Conn × Option ConnFault} (NewBegun i fc.tx fc.transaction_set)
      (get_elem? fc.txs i) (λ e. (λ x. cc x, λ x. cc x, inr refl))
      (λ t at.
        option_cases {B = Conn × Option ConnFault} (NewBegun i fc.tx fc.transaction_set)
          (tpb_for_isolation_level t.isolation_level) (λ e. (λ x. cc x, λ x. cc x, inr refl))
          (λ tpb e.
            let (txs, tx, keys) = exchange_keeps (op_transaction tpb) fc in
            let q = (exchange (op_transaction tpb) fc).0 in
            let sound : Sound q.txs q.tx (insert i q.transaction_set) = rw (txs, tx, keys) s in
            let new : NewBegun i q.tx q.transaction_set
                (begun i q (exchange (op_transaction tpb) fc).1) =
              begun_new i q (exchange (op_transaction tpb) fc).1 sound (rw txs h) in
            subst
              (λ x.
                NewBegun i x fc.transaction_set (begun i q (exchange (op_transaction tpb) fc).1))
              tx
              (subst (λ k. NewBegun i q.tx k (begun i q (exchange (op_transaction tpb) fc).1)) keys
                new)))

pub conn_begin-WellFormed :
    (level : ℕ) (fc : Conn) → WellFormed fc → WellFormed (conn_begin level fc).0
unfolding conn_begin new_tx
conn_begin-WellFormed level fc wf =
    let new : Tx = record {
      isolation_level = level;
      autocommit = false;
      trans_handle = pos 0;
      need_begin = false;
    } in
    let made : Conn = record fc { txs = fc.txs ++ new ∷ [] } in
    let (sound, bound, keys) =
      begin_new (length fc.txs) made (append-Sound fc.txs fc.tx fc.transaction_set new wf)
        (omega (arith, length-append fc.txs (new ∷ []))) in
    option_cases {B = Conn × (Option ℕ × Option ConnFault)}
      (λ r. Sound r.0.txs r.1.0 r.0.transaction_set) (begin (length fc.txs) made).1
      (λ e. record {
        current = λ i at.
            subst (λ k. k < length (begin (length fc.txs) made).0.txs) (some_injective at)
              (bound e);
        known = (sound e).known;
        running = (sound e).running;
      })
      (λ x e. record {
        current = λ i at. cc at;
        known = λ i at. elim keys [
          | inl idle ↦ cc idle
          | inr same ↦ wf.known i (subst (λ k. contains i k ≡ true) same at)
        ];
        running = λ i t at idle. elim keys [
          | inl bad ↦ cc bad
          | inr same ↦ subst (λ k. contains i k ≡ true) (sym same) (wf.running i t at idle)
        ];
      })

pub begin_if_needed-WellFormed :
    (i : ℕ) (fc : Conn) → WellFormed fc → WellFormed (begin_if_needed i fc).0
unfolding begin_if_needed
begin_if_needed-WellFormed i fc wf =
    option_cases {B = Conn × Option ConnFault} (λ r. WellFormed r.0) (get_elem? fc.txs i) (λ e. wf)
      (λ t at.
        if_either {A = Conn × Option ConnFault} (λ r. WellFormed r.0) t.need_begin
          (begin-WellFormed i fc wf) wf)

-- The uses of a connection: a transaction of `BeginTx`, the preparation of a statement or of a
-- batch, and the three ends of a transaction.
pub data Action : Type 0 where
  do_begin_tx : Bool → SqlLevel → Action
  do_prepare : Action
  do_prepare_batch : Action
  do_commit : ℕ → Action
  do_commit_retaining : ℕ → Action
  do_rollback : ℕ → Action

abbrev pub act : Action → Op
act (do_begin_tx ro l) = begin_tx ro l
act do_prepare = prepare
act do_prepare_batch = prepare_batch
act (do_commit i) = commit i
act (do_commit_retaining i) = commit_retainging i
act (do_rollback i) = rollback i

abbrev pub run : List Action → Conn → Conn
run [] fc = fc
run (a ∷ actions) fc = run actions (act a fc).0

act-WellFormed : (a : Action) (fc : Conn) → WellFormed fc → WellFormed (act a fc).0
unfolding begin_tx prepare prepare_batch commit commit_retainging rollback
act-WellFormed (do_begin_tx ro l) fc wf =
    option_cases {B = Conn × Option ConnFault} (λ r. WellFormed r.0) (begin_level ro l) (λ e. wf)
      (λ level e. conn_begin-WellFormed level fc wf)
act-WellFormed do_prepare fc wf =
    option_cases {B = Conn × Option ConnFault} (λ r. WellFormed r.0) fc.tx (λ e. wf)
      (λ i e. begin_if_needed-WellFormed i fc wf)
act-WellFormed do_prepare_batch fc wf =
    if_either {A = Conn × Option ConnFault} (λ r. WellFormed r.0)
      (ltb_ℤ fc.wp.protocol_version (pos 16)) wf
      (option_cases {B = Conn × Option ConnFault} (λ r. WellFormed r.0) fc.tx (λ e. wf)
        (λ i e. begin_if_needed-WellFormed i fc wf))
act-WellFormed (do_commit i) fc wf = end_with-WellFormed op_commit false i fc wf
act-WellFormed (do_commit_retaining i) fc wf = end_with-WellFormed op_commit_retaining true i fc wf
act-WellFormed (do_rollback i) fc wf = end_with-WellFormed op_rollback false i fc wf

pub run-WellFormed :
    (actions : List Action) (fc : Conn) → WellFormed fc → WellFormed (run actions fc)
run-WellFormed [] fc wf = wf
run-WellFormed (a ∷ actions) fc wf = run-WellFormed actions (act a fc).0 (act-WellFormed a fc wf)

open_conn-WellFormed :
    (wp : WireProtocol) (replies : List Reply) (cache : InlineBlobCache)
    → WellFormed (open_conn wp replies cache)
unfolding open_conn new_tx
open_conn-WellFormed wp replies cache = record {
  current = λ i at. subst (λ k. k < 1) (some_injective at) (omega arith);
  known = λ i at. cc at;
  running = only;
}
  where
    only :
        (i : ℕ) (t : Tx)
        → get_elem? (open_conn wp replies cache).txs i ≡ some t
        → t.need_begin ≡ false
        → contains i [] ≡ true
    only zero t at idle = cc (ap (λ u. u.need_begin) (some_injective at) ∙ idle)
    only (suc i) t at idle = cc at

-- After any sequence of uses of a new connection, whatever the server answers and whichever
-- writes fail, the current transaction and the keys of the set are transactions that exist, and
-- each transaction that does not have to begin is in the set.
pub connections_stay_sound :
    (wp : WireProtocol) (replies : List Reply) (cache : InlineBlobCache) (actions : List Action)
    → WellFormed (run actions (open_conn wp replies cache))
connections_stay_sound wp replies cache actions =
    run-WellFormed actions (open_conn wp replies cache) (open_conn-WellFormed wp replies cache)
