-- ===== src/Connection/Closing.antt =====
-- What `Close` sends.
use firebirdsql_go.Base.{
  ℕ, ◌≡◌, refl, sym, ap, ◌∙◌, subst, inl, inr, ℤ, pos, true, false, Option, option_cases, none,
  some, List, [], ◌∷◌, ◌++◌, append_assoc, append-nil, get_elem?, arith, ◌==◌, ==_iff, Bool-cases,
}
use firebirdsql_go.Blob.Cache.{clear_all}
use firebirdsql_go.Packets.{WireProtocol, pack_int, send, send_packets}
use firebirdsql_go.Packets.Sending.{IsReliable}
use firebirdsql_go.Packets.Requests.{Item, word, encode, ask_rollback, ask_detach}
use firebirdsql_go.Packets.Transactions.{op_rollback}
use firebirdsql_go.Packets.Attachment.{op_detach}
use firebirdsql_go.Packets.Consts
use firebirdsql_go.Connection.{Conn, Tx, ConnFault}
use firebirdsql_go.Connection.Transactions.{
  exchange, end_with, rollback, rollback_all, detached, close,
}
use firebirdsql_go.Connection.Invariant.{WellFormed}
use firebirdsql_go.Connection.Sound.{contains}
use firebirdsql_go.Connection.Sends.{
  Sends, sends_request, exchange-wp, exchange-txs, handles, ended-parts, Sends-more,
  get_elem?-handles,
}

abbrev pub rollback_of : Option ℤ → List Item
rollback_of none = []
rollback_of (some h) = word (pos Consts.op_rollback) ∷ word h ∷ []

-- A rollback for each pointer, in the order of the pointers.
abbrev pub rollbacks : List ℤ → List ℕ → List Item
rollbacks hs [] = []
rollbacks hs (i ∷ is) = rollback_of (get_elem? hs i) ++ rollbacks hs is

-- What an operation does to the wire and to the handles.
abbrev Step : Conn → Conn → List Item → Type 0
Step fc fd is = Sends fc.wp fd.wp is × (handles fd.txs ≡ handles fc.txs)

nothing_sent : (fc : Conn) → IsReliable fc.wp → fc.wp.buf ≡ [] → Step fc fc []
nothing_sent fc reliable empty = ((sym (append-nil fc.wp.sent), empty, reliable, refl), refl)

db_handle_kept : (h : ℤ) (p : WireProtocol) → (op_rollback h p).0.db_handle ≡ p.db_handle
unfolding op_rollback pack_int send send_packets
db_handle_kept h p = refl

detach_keeps : (p : WireProtocol) → (op_detach p).0.db_handle ≡ p.db_handle
unfolding op_detach pack_int send send_packets
detach_keeps p = refl

rollback-Step :
    (i : ℕ) (fc : Conn)
    → IsReliable fc.wp
    → fc.wp.buf ≡ []
    → Step fc (rollback i fc).0 (rollback_of (get_elem? (handles fc.txs) i))
unfolding rollback end_with
rollback-Step i fc reliable empty =
    option_cases {B = Conn × Option ConnFault}
      (λ r. Step fc r.0 (rollback_of (get_elem? (handles fc.txs) i))) (get_elem? fc.txs i)
      (λ e. rw (get_elem?-handles fc.txs i, e) (nothing_sent fc reliable empty))
      (λ t e.
        let h = t.trans_handle in
        let q = (exchange (op_rollback h) fc).0 in
        let (wp, kept) = ended-parts i h false q (exchange (op_rollback h) fc).1 in
        let (sent, emptied, again) = sends_request fc.wp (ask_rollback h) reliable empty in
        let sends : Sends fc.wp (op_rollback h fc.wp).0
            (word (pos Consts.op_rollback) ∷ word h ∷ []) =
          (sent, emptied, again, db_handle_kept h fc.wp) in
        rw (get_elem?-handles fc.txs i, e)
          (
            subst (λ w. Sends fc.wp w (word (pos Consts.op_rollback) ∷ word h ∷ []))
                (sym (wp ∙ exchange-wp (op_rollback h) fc)) sends,
            kept ∙ ap handles (exchange-txs (op_rollback h) fc),
          ))

rollback_all-Sends :
    (keys : List ℕ) (fc : Conn)
    → IsReliable fc.wp
    → fc.wp.buf ≡ []
    → Sends fc.wp (rollback_all keys fc).wp (rollbacks (handles fc.txs) keys)
unfolding rollback_all
rollback_all-Sends [] fc reliable empty = (nothing_sent fc reliable empty).0
rollback_all-Sends (i ∷ keys) fc reliable empty =
    let (sends, kept) = rollback-Step i fc reliable empty in
    let fd = (rollback i fc).0 in
    let rest : Sends fd.wp (rollback_all keys fd).wp (rollbacks (handles fc.txs) keys) =
      subst (λ hs. Sends fd.wp (rollback_all keys fd).wp (rollbacks hs keys)) kept
        (rollback_all-Sends keys fd sends.2 sends.1) in
    Sends-more fc.wp fd.wp (rollback_all keys fd).wp (rollback_of (get_elem? (handles fc.txs) i))
      (rollbacks (handles fc.txs) keys) sends rest

detached-wp : (r : Conn × Option (ℤ × Option ConnFault)) → (detached r).0.wp ≡ r.0.wp
unfolding detached
detached-wp (fc, none) = refl
detached-wp (fc, some (h, e)) = refl

-- What `Close` has to say: a rollback of each transaction of the set, and the end of the attachment.
abbrev pub farewell : Conn → List Item
farewell fc =
    rollbacks (handles fc.txs) fc.transaction_set
    ++ word (pos Consts.op_detach) ∷ word fc.wp.db_handle ∷ []

-- The rollback of a transaction of the set is among them.
rollbacks-contains :
    (hs : List ℤ) (keys : List ℕ) (i : ℕ)
    → contains i keys ≡ true
    → (before : List Item) × (after : List Item) × (rollbacks hs keys
        ≡ before ++ (rollback_of (get_elem? hs i) ++ after))
rollbacks-contains hs [] i e = cc e
rollbacks-contains hs (j ∷ keys) i e = elim (Bool-cases (i == j)) [
  | inl same ↦ (
    [],
    rollbacks hs keys,
    ap (λ k. rollback_of (get_elem? hs k) ++ rollbacks hs keys) (sym ((==_iff i j).0 same)),
  )
  | inr other ↦
      let (before, after, split) = rollbacks-contains hs keys i (skip i j keys other e) in
      (
        rollback_of (get_elem? hs j) ++ before,
        after,
        ap (λ is. rollback_of (get_elem? hs j) ++ is) split
            ∙ sym (
                append_assoc (rollback_of (get_elem? hs j)) before
                  (rollback_of (get_elem? hs i) ++ after)),
      )
]
  where
    skip :
        (i j : ℕ) (keys : List ℕ)
        → (i == j) ≡ false
        → contains i (j ∷ keys) ≡ true
        → contains i keys ≡ true
    skip i j keys other e = ground arith

-- On a connection that is well formed, whose writes do not fail and whose buffer is empty, Close
-- sends a rollback for each transaction of the set, in the order of the set, and then the end of
-- the attachment, whatever the server answers; a rollback of each transaction that does not have
-- to begin is among them.
pub close_rolls_back_running :
    (fc : Conn)
    → WellFormed fc
    → IsReliable fc.wp
    → fc.wp.buf ≡ []
    → ((close fc).0.wp.sent ≡ fc.wp.sent ++ encode (farewell fc))
      × ((i : ℕ) (t : Tx)
          → get_elem? fc.txs i ≡ some t
          → t.need_begin ≡ false
          → (before : List Item) × (after : List Item) × (farewell fc
              ≡ before ++ (word (pos Consts.op_rollback) ∷ word t.trans_handle ∷ after)))
unfolding close
close_rolls_back_running fc wf reliable empty =
    let rolled = rollback_all fc.transaction_set fc in
    let sends = rollback_all-Sends fc.transaction_set fc reliable empty in
    let closing : Conn = record rolled { cache = clear_all rolled.cache } in
    let (sent, emptied, again) = sends_request rolled.wp ask_detach sends.2 sends.1 in
    let final : Sends rolled.wp (op_detach rolled.wp).0
        (word (pos Consts.op_detach) ∷ word fc.wp.db_handle ∷ []) =
      subst
        (λ h. Sends rolled.wp (op_detach rolled.wp).0 (word (pos Consts.op_detach) ∷ word h ∷ []))
        sends.3 (sent, emptied, again, detach_keeps rolled.wp) in
    let all =
      Sends-more fc.wp rolled.wp (op_detach rolled.wp).0
        (rollbacks (handles fc.txs) fc.transaction_set)
        (word (pos Consts.op_detach) ∷ word fc.wp.db_handle ∷ []) sends final in
    (
      ap (λ w. w.sent) (detached-wp (exchange op_detach closing) ∙ exchange-wp op_detach closing)
          ∙ all.0,
      λ i t at idle.
          let (before, after, split) =
            rollbacks-contains (handles fc.txs) fc.transaction_set i (wf.running i t at idle) in
          let here : get_elem? (handles fc.txs) i ≡ some t.trans_handle =
            get_elem?-handles fc.txs i
            ∙ ap (λ o. elim o [ none ↦ none | some t ↦ some t.trans_handle ]) at in
          (
            before,
            after ++ word (pos Consts.op_detach) ∷ word fc.wp.db_handle ∷ [],
            ap (λ is. is ++ word (pos Consts.op_detach) ∷ word fc.wp.db_handle ∷ [])
                  (split ∙ ap (λ o. before ++ (rollback_of o ++ after)) here)
                ∙ append_assoc before _ _,
          ),
    )
