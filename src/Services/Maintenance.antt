-- ===== src/Services/Maintenance.antt =====
-- maintenance_manager.go: the requests on a database's properties and its repair. Each ends in
-- `attach`, and is the block that it attaches with.
use firebirdsql_go.Base.{ℕ, ◌^◌, ℤ, pos, negsuc, Bool, false, List, u32, i32, ltb, if◌then◌else◌}
use firebirdsql_go.Xpb.{writer_from_tag, put_string, put_byte, put_int32, put_int64}
use firebirdsql_go.Services.{or_flag, to_int32}
use firebirdsql_go.Services.Consts.{
  isc_action_svc_properties, isc_action_svc_repair, isc_spb_dbname, isc_spb_options,
  isc_spb_prp_access_mode, isc_spb_prp_activate, isc_spb_prp_am_readonly, isc_spb_prp_am_readwrite,
  isc_spb_prp_attachments_shutdown, isc_spb_prp_db_online, isc_spb_prp_deny_new_attachments,
  isc_spb_prp_deny_new_transactions, isc_spb_prp_force_shutdown, isc_spb_prp_nolinger,
  isc_spb_prp_online_mode, isc_spb_prp_page_buffers, isc_spb_prp_replica_mode, isc_spb_prp_res,
  isc_spb_prp_res_use_full, isc_spb_prp_reserve_space, isc_spb_prp_rm_none, isc_spb_prp_rm_readonly,
  isc_spb_prp_rm_readwrite, isc_spb_prp_set_sql_dialect, isc_spb_prp_shutdown_db,
  isc_spb_prp_shutdown_mode, isc_spb_prp_sm_full, isc_spb_prp_sm_multi, isc_spb_prp_sm_normal,
  isc_spb_prp_sm_single, isc_spb_prp_sweep_interval, isc_spb_prp_transactions_shutdown,
  isc_spb_prp_wm_async, isc_spb_prp_wm_sync, isc_spb_prp_write_mode, isc_spb_rpr_commit_trans,
  isc_spb_rpr_commit_trans_64, isc_spb_rpr_kill_shadows, isc_spb_rpr_list_limbo_trans,
  isc_spb_rpr_mend_db, isc_spb_rpr_rollback_trans, isc_spb_rpr_rollback_trans_64,
  isc_spb_rpr_sweep_db, isc_spb_rpr_validate_db,
}

-- The typed bytes of consts.go.
pub data ShutdownMode : Type 0 where
  shutdown_mode_force shutdown_mode_deny_new_attachments : ShutdownMode
  shutdown_mode_deny_new_transactions : ShutdownMode

pub data OperationMode : Type 0 where
  operation_mode_normal operation_mode_multi operation_mode_single : OperationMode
  operation_mode_full : OperationMode

pub data ShutdownModeEx : Type 0 where
  shutdown_mode_ex_force shutdown_mode_ex_deny_new_attachments : ShutdownModeEx
  shutdown_mode_ex_deny_new_transactions : ShutdownModeEx

pub data ReplicaMode : Type 0 where
  replica_mode_none replica_mode_read_only replica_mode_read_write : ReplicaMode

abbrev pub shutdown_byte : ShutdownMode → ℕ
shutdown_byte shutdown_mode_force = isc_spb_prp_shutdown_db
shutdown_byte shutdown_mode_deny_new_attachments = isc_spb_prp_deny_new_attachments
shutdown_byte shutdown_mode_deny_new_transactions = isc_spb_prp_deny_new_transactions

abbrev pub operation_byte : OperationMode → ℕ
operation_byte operation_mode_normal = isc_spb_prp_sm_normal
operation_byte operation_mode_multi = isc_spb_prp_sm_multi
operation_byte operation_mode_single = isc_spb_prp_sm_single
operation_byte operation_mode_full = isc_spb_prp_sm_full

abbrev pub shutdown_ex_byte : ShutdownModeEx → ℕ
shutdown_ex_byte shutdown_mode_ex_force = isc_spb_prp_force_shutdown
shutdown_ex_byte shutdown_mode_ex_deny_new_attachments = isc_spb_prp_attachments_shutdown
shutdown_ex_byte shutdown_mode_ex_deny_new_transactions = isc_spb_prp_transactions_shutdown

abbrev pub replica_byte : ReplicaMode → ℕ
replica_byte replica_mode_none = isc_spb_prp_rm_none
replica_byte replica_mode_read_only = isc_spb_prp_rm_readonly
replica_byte replica_mode_read_write = isc_spb_prp_rm_readwrite

abbrev set_access_mode : List ℕ → ℕ → List ℕ
set_access_mode database mode =
    let spb = writer_from_tag isc_action_svc_properties in
    let spb = put_string spb isc_spb_dbname database in put_byte spb isc_spb_prp_access_mode mode

unfoldable pub set_access_mode_read_write : List ℕ → List ℕ
set_access_mode_read_write database = set_access_mode database isc_spb_prp_am_readwrite

unfoldable pub set_access_mode_read_only : List ℕ → List ℕ
set_access_mode_read_only database = set_access_mode database isc_spb_prp_am_readonly

abbrev set_write_mode : List ℕ → ℕ → List ℕ
set_write_mode database mode =
    let spb = writer_from_tag isc_action_svc_properties in
    let spb = put_string spb isc_spb_dbname database in put_byte spb isc_spb_prp_write_mode mode

unfoldable pub set_write_mode_async : List ℕ → List ℕ
set_write_mode_async database = set_write_mode database isc_spb_prp_wm_async

unfoldable pub set_write_mode_sync : List ℕ → List ℕ
set_write_mode_sync database = set_write_mode database isc_spb_prp_wm_sync

abbrev set_page_fill : List ℕ → ℕ → List ℕ
set_page_fill database mode =
    let spb = writer_from_tag isc_action_svc_properties in
    let spb = put_string spb isc_spb_dbname database in put_byte spb isc_spb_prp_reserve_space mode

unfoldable pub set_page_fill_no_reserve : List ℕ → List ℕ
set_page_fill_no_reserve database = set_page_fill database isc_spb_prp_res_use_full

unfoldable pub set_page_fill_reserve : List ℕ → List ℕ
set_page_fill_reserve database = set_page_fill database isc_spb_prp_res

unfoldable pub set_dialect : List ℕ → ℤ → List ℕ
set_dialect database dialect =
    let spb = writer_from_tag isc_action_svc_properties in
    let spb = put_string spb isc_spb_dbname database in
    put_int32 spb isc_spb_prp_set_sql_dialect (to_int32 dialect)

unfoldable pub set_page_buffers : List ℕ → ℤ → List ℕ
set_page_buffers database page_count =
    let spb = writer_from_tag isc_action_svc_properties in
    let spb = put_string spb isc_spb_dbname database in
    put_int32 spb isc_spb_prp_page_buffers (to_int32 page_count)

unfoldable pub set_replica_mode : List ℕ → ReplicaMode → List ℕ
set_replica_mode database mode =
    let spb = writer_from_tag isc_action_svc_properties in
    let spb = put_string spb isc_spb_dbname database in
    put_byte spb isc_spb_prp_replica_mode (replica_byte mode)

-- A timeout and a number of transactions are `uint`.
unfoldable pub shutdown : List ℕ → ShutdownMode → ℕ → List ℕ
shutdown database mode timeout =
    let spb = writer_from_tag isc_action_svc_properties in
    let spb = put_string spb isc_spb_dbname database in
    put_int32 spb (shutdown_byte mode) (to_int32 (pos timeout))

unfoldable pub online : List ℕ → List ℕ
online database =
    let spb = writer_from_tag isc_action_svc_properties in
    let spb = put_string spb isc_spb_dbname database in
    put_int32 spb isc_spb_options (pos isc_spb_prp_db_online)

unfoldable pub no_linger : List ℕ → List ℕ
no_linger database =
    let spb = writer_from_tag isc_action_svc_properties in
    let spb = put_string spb isc_spb_dbname database in
    put_int32 spb isc_spb_options (pos isc_spb_prp_nolinger)

unfoldable pub shutdown_ex : List ℕ → OperationMode → ShutdownModeEx → ℕ → List ℕ
shutdown_ex database operation_mode mode timeout =
    let spb = writer_from_tag isc_action_svc_properties in
    let spb = put_string spb isc_spb_dbname database in
    let spb = put_byte spb isc_spb_prp_shutdown_mode (operation_byte operation_mode) in
    put_int32 spb (shutdown_ex_byte mode) (to_int32 (pos timeout))

unfoldable pub online_ex : List ℕ → OperationMode → List ℕ
online_ex database operation_mode =
    let spb = writer_from_tag isc_action_svc_properties in
    let spb = put_string spb isc_spb_dbname database in
    put_byte spb isc_spb_prp_online_mode (operation_byte operation_mode)

unfoldable pub set_sweep_interval : List ℕ → ℕ → List ℕ
set_sweep_interval database transactions =
    let spb = writer_from_tag isc_action_svc_properties in
    let spb = put_string spb isc_spb_dbname database in
    put_int32 spb isc_spb_prp_sweep_interval (to_int32 (pos transactions))

unfoldable pub sweep : List ℕ → List ℕ
sweep database =
    let spb = writer_from_tag isc_action_svc_repair in
    let spb = put_string spb isc_spb_dbname database in
    put_int32 spb isc_spb_options (pos isc_spb_rpr_sweep_db)

unfoldable pub activate_shadow : List ℕ → List ℕ
activate_shadow shadow =
    let spb = writer_from_tag isc_action_svc_properties in
    let spb = put_string spb isc_spb_dbname shadow in
    put_int32 spb isc_spb_options (pos isc_spb_prp_activate)

unfoldable pub kill_shadow : List ℕ → List ℕ
kill_shadow database =
    let spb = writer_from_tag isc_action_svc_repair in
    let spb = put_string spb isc_spb_dbname database in
    put_int32 spb isc_spb_options (pos isc_spb_rpr_kill_shadows)

unfoldable pub mend : List ℕ → List ℕ
mend database =
    let spb = writer_from_tag isc_action_svc_repair in
    let spb = put_string spb isc_spb_dbname database in
    put_int32 spb isc_spb_options (pos isc_spb_rpr_mend_db)

-- The bit is set in the pattern of `int32(options)`.
unfoldable pub validate : List ℕ → ℤ → List ℕ
validate database options =
    let spb = writer_from_tag isc_action_svc_repair in
    let spb = put_string spb isc_spb_dbname database in
    put_int32 spb isc_spb_options (i32 (or_flag (u32 options) isc_spb_rpr_validate_db))

-- The request of `GetLimboTransactions`.
unfoldable pub list_limbo : List ℕ → List ℕ
list_limbo database =
    let spb = writer_from_tag isc_action_svc_repair in
    let spb = put_string spb isc_spb_dbname database in
    put_int32 spb isc_spb_options (pos isc_spb_rpr_list_limbo_trans)

-- utils.go: `fitsUint32` of an int64.
unfoldable pub fits_uint32 : ℤ → Bool
fits_uint32 (pos n) = ltb n (2 ^ 32)
fits_uint32 (negsuc n) = false

unfoldable pub commit_transaction : List ℕ → ℤ → List ℕ
commit_transaction database transaction =
    let spb = writer_from_tag isc_action_svc_repair in
    let spb = put_string spb isc_spb_dbname database in
    if fits_uint32 transaction
    then put_int32 spb isc_spb_rpr_commit_trans (to_int32 transaction)
    else put_int64 spb isc_spb_rpr_commit_trans_64 transaction

unfoldable pub rollback_transaction : List ℕ → ℤ → List ℕ
rollback_transaction database transaction =
    let spb = writer_from_tag isc_action_svc_repair in
    let spb = put_string spb isc_spb_dbname database in
    if fits_uint32 transaction
    then put_int32 spb isc_spb_rpr_rollback_trans (to_int32 transaction)
    else put_int64 spb isc_spb_rpr_rollback_trans_64 transaction
