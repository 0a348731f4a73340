-- ===== src/Connection/Levels.antt =====
-- The transactions that `BeginTx` starts, against what it was asked for.
use firebirdsql_go.Base.{
  ℕ, ◌≡◌, refl, sym, ap, ◌∙◌, Bool, true, false, not, ℤ, pos, Option, option_cases, some_injective,
  none, some, List, [], ◌∷◌, ◌++◌, length, get_elem?, get_elem?-append,
}
use firebirdsql_go.Packets.Sending.{IsReliable}
use firebirdsql_go.Packets.Requests.{encode, message, ask_transaction}
use firebirdsql_go.Packets.Transactions.{op_transaction}
use firebirdsql_go.Connection.{Conn, Tx, ConnFault}
use firebirdsql_go.Connection.Isolation.{
  SqlLevel, level_default, level_read_committed, level_repeatable_read, level_serializable,
  level_read_committed_no_wait, level_read_uncommitted, level_write_committed, level_snapshot,
  level_linearizable, level_other, is_no_wait, tpb_for_isolation_level, begin_level, isc_tpb_read,
  isc_tpb_write, isc_tpb_wait, isc_tpb_nowait, isc_tpb_read_committed, isc_tpb_concurrency,
  isc_tpb_consistency,
}
use firebirdsql_go.Connection.Transactions.{begun, begin, new_tx, conn_begin, begin_tx, exchange}
use firebirdsql_go.Connection.Sound.{contains}
use firebirdsql_go.Connection.Sends.{exchange-wp, sends_request}

-- The isolation that a level asks for: a read-only transaction always reads what is committed.
abbrev pub isolation_item : Bool → SqlLevel → ℕ
isolation_item false level_repeatable_read = isc_tpb_concurrency
isolation_item false level_serializable = isc_tpb_consistency
isolation_item ro l = isc_tpb_read_committed

-- A block for the access, the waiting and the isolation that were asked for.
abbrev pub Serves : Bool → SqlLevel → List ℕ → Type 0
Serves ro l tpb =
    (contains isc_tpb_read tpb ≡ ro)
    × (contains isc_tpb_write tpb ≡ not ro)
    × (contains isc_tpb_nowait tpb ≡ is_no_wait l)
    × (contains isc_tpb_wait tpb ≡ not (is_no_wait l))
    × (contains (isolation_item ro l) tpb ≡ true)

level-Serves :
    (ro : Bool) (l : SqlLevel) (level : ℕ)
    → begin_level ro l ≡ some level
    → (tpb : List ℕ) × (tpb_for_isolation_level level ≡ some tpb) × Serves ro l tpb
unfolding begin_level tpb_for_isolation_level
level-Serves true level_default level e =
    (_, ap tpb_for_isolation_level (sym (some_injective e)), (refl, refl, refl, refl, refl))
level-Serves true level_read_uncommitted level e =
    (_, ap tpb_for_isolation_level (sym (some_injective e)), (refl, refl, refl, refl, refl))
level-Serves true level_read_committed level e =
    (_, ap tpb_for_isolation_level (sym (some_injective e)), (refl, refl, refl, refl, refl))
level-Serves true level_write_committed level e =
    (_, ap tpb_for_isolation_level (sym (some_injective e)), (refl, refl, refl, refl, refl))
level-Serves true level_repeatable_read level e =
    (_, ap tpb_for_isolation_level (sym (some_injective e)), (refl, refl, refl, refl, refl))
level-Serves true level_snapshot level e =
    (_, ap tpb_for_isolation_level (sym (some_injective e)), (refl, refl, refl, refl, refl))
level-Serves true level_serializable level e =
    (_, ap tpb_for_isolation_level (sym (some_injective e)), (refl, refl, refl, refl, refl))
level-Serves true level_linearizable level e =
    (_, ap tpb_for_isolation_level (sym (some_injective e)), (refl, refl, refl, refl, refl))
level-Serves true level_read_committed_no_wait level e =
    (_, ap tpb_for_isolation_level (sym (some_injective e)), (refl, refl, refl, refl, refl))
level-Serves true level_other level e =
    (_, ap tpb_for_isolation_level (sym (some_injective e)), (refl, refl, refl, refl, refl))
level-Serves false level_default level e =
    (_, ap tpb_for_isolation_level (sym (some_injective e)), (refl, refl, refl, refl, refl))
level-Serves false level_read_uncommitted level e = cc e
level-Serves false level_read_committed level e =
    (_, ap tpb_for_isolation_level (sym (some_injective e)), (refl, refl, refl, refl, refl))
level-Serves false level_write_committed level e = cc e
level-Serves false level_repeatable_read level e =
    (_, ap tpb_for_isolation_level (sym (some_injective e)), (refl, refl, refl, refl, refl))
level-Serves false level_snapshot level e = cc e
level-Serves false level_serializable level e =
    (_, ap tpb_for_isolation_level (sym (some_injective e)), (refl, refl, refl, refl, refl))
level-Serves false level_linearizable level e = cc e
level-Serves false level_read_committed_no_wait level e =
    (_, ap tpb_for_isolation_level (sym (some_injective e)), (refl, refl, refl, refl, refl))
level-Serves false level_other level e = cc e

begun-wp : (i : ℕ) (fc : Conn) (a : Option (ℤ × Option ConnFault)) → (begun i fc a).0.wp ≡ fc.wp
unfolding begun
begun-wp i fc none = refl
begun-wp i fc (some (h, none)) = refl
begun-wp i fc (some (h, some e)) = refl

begin-wp :
    (i : ℕ) (fc : Conn) (t : Tx) (tpb : List ℕ)
    → get_elem? fc.txs i ≡ some t
    → tpb_for_isolation_level t.isolation_level ≡ some tpb
    → (begin i fc).0.wp ≡ (op_transaction tpb fc.wp).0
unfolding begin
begin-wp i fc t tpb at e =
    rw (begin, at, e)
      (begun-wp i (exchange (op_transaction tpb) fc).0 (exchange (op_transaction tpb) fc).1
        ∙ exchange-wp (op_transaction tpb) fc)

conn_begin-wp :
    (level : ℕ) (fc : Conn) (tpb : List ℕ)
    → tpb_for_isolation_level level ≡ some tpb
    → (conn_begin level fc).0.wp ≡ (op_transaction tpb fc.wp).0
unfolding conn_begin new_tx
conn_begin-wp level fc tpb e =
    let new : Tx = record {
      isolation_level = level;
      autocommit = false;
      trans_handle = pos 0;
      need_begin = false;
    } in
    let made : Conn = record fc { txs = fc.txs ++ new ∷ [] } in
    let begun = begin-wp (length fc.txs) made new tpb (get_elem?-append fc.txs (new ∷ [])) e in
    option_cases {B = Conn × (Option ℕ × Option ConnFault)}
      (λ r. r.0.wp ≡ (op_transaction tpb fc.wp).0) (begin (length fc.txs) made).1 (λ x. begun)
      (λ x y. begun)

-- Where BeginTx supports a level, with an empty buffer and writes that do not fail, it sends one
-- request to start a transaction, and the block in it asks for the access, the waiting and the
-- isolation of the options: read only or not, without waiting or not, and snapshot, consistency
-- or read committed.
pub begin_tx-Serves :
    (ro : Bool) (l : SqlLevel) (level : ℕ) (fc : Conn)
    → begin_level ro l ≡ some level
    → IsReliable fc.wp
    → fc.wp.buf ≡ []
    → (tpb : List ℕ) × Serves ro l tpb
      × ((begin_tx ro l fc).0.wp.sent ≡ fc.wp.sent ++ encode (message fc.wp (ask_transaction tpb)))
unfolding begin_tx
begin_tx-Serves ro l level fc e reliable empty =
    let (tpb, found, serves) = level-Serves ro l level e in
    (
      tpb,
      serves,
      rw (begin_tx, e)
          (ap (λ w. w.sent) (conn_begin-wp level fc tpb found)
            ∙ (sends_request fc.wp (ask_transaction tpb) reliable empty).0),
    )
