-- ===== src/Connection/Isolation.antt =====
-- The transaction parameter blocks of transaction.go, and the levels that `BeginTx` of
-- driver_go18.go asks for.
use firebirdsql_go.Base.{
  ℕ, Bool, true, false, Option, none, some, List, [], ◌∷◌, ◌==◌, if◌then◌else◌,
}

-- The levels of consts.go, in their order.
abbrev pub isolation_level_read_commited_legacy : ℕ
isolation_level_read_commited_legacy = 0

abbrev pub isolation_level_read_commited : ℕ
isolation_level_read_commited = 1

abbrev pub isolation_level_repeatable_read : ℕ
isolation_level_repeatable_read = 2

abbrev pub isolation_level_serializable : ℕ
isolation_level_serializable = 3

abbrev pub isolation_level_read_commited_ro : ℕ
isolation_level_read_commited_ro = 4

abbrev pub isolation_level_read_commited_nowait : ℕ
isolation_level_read_commited_nowait = 5

abbrev pub isolation_level_read_commited_ro_nowait : ℕ
isolation_level_read_commited_ro_nowait = 6

abbrev pub isc_tpb_consistency : ℕ
isc_tpb_consistency = 1

abbrev pub isc_tpb_concurrency : ℕ
isc_tpb_concurrency = 2

abbrev pub isc_tpb_version3 : ℕ
isc_tpb_version3 = 3

abbrev pub isc_tpb_wait : ℕ
isc_tpb_wait = 6

abbrev pub isc_tpb_nowait : ℕ
isc_tpb_nowait = 7

abbrev pub isc_tpb_read : ℕ
isc_tpb_read = 8

abbrev pub isc_tpb_write : ℕ
isc_tpb_write = 9

abbrev pub isc_tpb_read_committed : ℕ
isc_tpb_read_committed = 15

abbrev pub isc_tpb_rec_version : ℕ
isc_tpb_rec_version = 17

abbrev pub isc_tpb_no_rec_version : ℕ
isc_tpb_no_rec_version = 18

-- No block is `ErrInvalidIsolationLevel`.
unfoldable pub tpb_for_isolation_level : ℕ → Option (List ℕ)
tpb_for_isolation_level level =
    if level == isolation_level_read_commited_legacy
    then some (
        isc_tpb_version3 ∷ isc_tpb_write ∷ isc_tpb_wait ∷ isc_tpb_read_committed
        ∷ isc_tpb_no_rec_version ∷ [])
    else if level == isolation_level_read_commited
    then some (
        isc_tpb_version3 ∷ isc_tpb_write ∷ isc_tpb_wait ∷ isc_tpb_read_committed
        ∷ isc_tpb_rec_version ∷ [])
    else if level == isolation_level_read_commited_nowait
    then some (
        isc_tpb_version3 ∷ isc_tpb_write ∷ isc_tpb_nowait ∷ isc_tpb_read_committed
        ∷ isc_tpb_rec_version ∷ [])
    else if level == isolation_level_repeatable_read
    then some (isc_tpb_version3 ∷ isc_tpb_write ∷ isc_tpb_wait ∷ isc_tpb_concurrency ∷ [])
    else if level == isolation_level_serializable
    then some (isc_tpb_version3 ∷ isc_tpb_write ∷ isc_tpb_wait ∷ isc_tpb_consistency ∷ [])
    else if level == isolation_level_read_commited_ro
    then some (
        isc_tpb_version3 ∷ isc_tpb_read ∷ isc_tpb_wait ∷ isc_tpb_read_committed
        ∷ isc_tpb_rec_version ∷ [])
    else if level == isolation_level_read_commited_ro_nowait
    then some (
        isc_tpb_version3 ∷ isc_tpb_read ∷ isc_tpb_nowait ∷ isc_tpb_read_committed
        ∷ isc_tpb_rec_version ∷ [])
    else none

-- The levels of database/sql, and the driver's own that does not wait.
pub data SqlLevel : Type 0 where
  level_default : SqlLevel
  level_read_uncommitted : SqlLevel
  level_read_committed : SqlLevel
  level_write_committed : SqlLevel
  level_repeatable_read : SqlLevel
  level_snapshot : SqlLevel
  level_serializable : SqlLevel
  level_linearizable : SqlLevel
  level_read_committed_no_wait : SqlLevel
  level_other : SqlLevel

abbrev pub is_no_wait : SqlLevel → Bool
is_no_wait level_read_committed_no_wait = true
is_no_wait l = false

-- The level that `BeginTx` begins with, or no support.
unfoldable pub begin_level : Bool → SqlLevel → Option ℕ
begin_level true l = some (
    if is_no_wait l
    then isolation_level_read_commited_ro_nowait
    else isolation_level_read_commited_ro)
begin_level false level_default = some isolation_level_read_commited
begin_level false level_read_committed = some isolation_level_read_commited
begin_level false level_read_committed_no_wait = some isolation_level_read_commited_nowait
begin_level false level_repeatable_read = some isolation_level_repeatable_read
begin_level false level_serializable = some isolation_level_serializable
begin_level false l = none
