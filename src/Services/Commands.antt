-- ===== src/Services/Commands.antt =====
-- The methods of the managers that send a request, and the block that each sends.
use firebirdsql_go.Base.{ℕ, ℤ, Bool, Option, some, List}
use firebirdsql_go.Services.Consts.{
  isc_action_svc_trace_resume, isc_action_svc_trace_stop, isc_action_svc_trace_suspend,
}
use firebirdsql_go.Services.Backup.{BackupOptions, RestoreOptions, backup, restore}
use firebirdsql_go.Services.NBackup.{NBackupOptions, nbackup, nrestore, fixup}
use firebirdsql_go.Services.Maintenance.{
  ReplicaMode, ShutdownMode, ShutdownModeEx, OperationMode, set_access_mode_read_write,
  set_access_mode_read_only, set_write_mode_async, set_write_mode_sync, set_page_fill_no_reserve,
  set_page_fill_reserve, set_dialect, set_page_buffers, set_replica_mode, shutdown, online,
  no_linger, shutdown_ex, online_ex, set_sweep_interval, sweep, activate_shadow, kill_shadow, mend,
  validate, list_limbo, commit_transaction, rollback_transaction,
}
use firebirdsql_go.Services.Users.{
  User, add_user, delete_user, modify_user, display_users, set_admin_role_mapping,
  drop_admin_role_mapping,
}
use firebirdsql_go.Services.Stats.{StatisticsOptions, get_db_stats}
use firebirdsql_go.Services.Trace.{start_request, id_request}

-- A call of a manager's method, with the manager's security database where it has one.
pub data Command : Type 0 where
  ask_access_read_write : List ℕ → Command
  ask_access_read_only : List ℕ → Command
  ask_write_async : List ℕ → Command
  ask_write_sync : List ℕ → Command
  ask_no_reserve : List ℕ → Command
  ask_reserve : List ℕ → Command
  ask_dialect : List ℕ → ℤ → Command
  ask_page_buffers : List ℕ → ℤ → Command
  ask_replica_mode : List ℕ → ReplicaMode → Command
  ask_shutdown : List ℕ → ShutdownMode → ℕ → Command
  ask_online : List ℕ → Command
  ask_no_linger : List ℕ → Command
  ask_shutdown_ex : List ℕ → OperationMode → ShutdownModeEx → ℕ → Command
  ask_online_ex : List ℕ → OperationMode → Command
  ask_sweep_interval : List ℕ → ℕ → Command
  ask_sweep : List ℕ → Command
  ask_activate_shadow : List ℕ → Command
  ask_kill_shadow : List ℕ → Command
  ask_mend : List ℕ → Command
  ask_validate : List ℕ → ℤ → Command
  ask_limbo : List ℕ → Command
  ask_commit : List ℕ → ℤ → Command
  ask_rollback : List ℕ → ℤ → Command
  ask_backup : List ℕ → List ℕ → BackupOptions → Bool → Command
  ask_restore : List ℕ → List ℕ → RestoreOptions → Bool → Command
  ask_nbackup : List ℕ → List ℕ → NBackupOptions → Command
  ask_nrestore : List (List ℕ) → List ℕ → NBackupOptions → Command
  ask_fixup : List ℕ → NBackupOptions → Command
  ask_add_user : List ℕ → User → Command
  ask_delete_user : List ℕ → User → Command
  ask_modify_user : List ℕ → User → Command
  ask_users : List ℕ → Command
  ask_set_mapping : List ℕ → Command
  ask_drop_mapping : List ℕ → Command
  ask_stats : List ℕ → StatisticsOptions → Command
  ask_trace : List ℕ → List ℕ → Command
  ask_trace_stop : ℤ → Command
  ask_trace_suspend : ℤ → Command
  ask_trace_resume : ℤ → Command

-- The block that the method hands to the service, or none if it panics.
abbrev pub perform : Command → Option (List ℕ)
perform (ask_access_read_write db) = some (set_access_mode_read_write db)
perform (ask_access_read_only db) = some (set_access_mode_read_only db)
perform (ask_write_async db) = some (set_write_mode_async db)
perform (ask_write_sync db) = some (set_write_mode_sync db)
perform (ask_no_reserve db) = some (set_page_fill_no_reserve db)
perform (ask_reserve db) = some (set_page_fill_reserve db)
perform (ask_dialect db n) = some (set_dialect db n)
perform (ask_page_buffers db n) = some (set_page_buffers db n)
perform (ask_replica_mode db m) = some (set_replica_mode db m)
perform (ask_shutdown db m n) = some (shutdown db m n)
perform (ask_online db) = some (online db)
perform (ask_no_linger db) = some (no_linger db)
perform (ask_shutdown_ex db o m n) = some (shutdown_ex db o m n)
perform (ask_online_ex db o) = some (online_ex db o)
perform (ask_sweep_interval db n) = some (set_sweep_interval db n)
perform (ask_sweep db) = some (sweep db)
perform (ask_activate_shadow shadow) = some (activate_shadow shadow)
perform (ask_kill_shadow db) = some (kill_shadow db)
perform (ask_mend db) = some (mend db)
perform (ask_validate db n) = some (validate db n)
perform (ask_limbo db) = some (list_limbo db)
perform (ask_commit db n) = some (commit_transaction db n)
perform (ask_rollback db n) = some (rollback_transaction db n)
perform (ask_backup db file o v) = some (backup db file o v)
perform (ask_restore file db o v) = some (restore file db o v)
perform (ask_nbackup db file o) = some (nbackup db file o)
perform (ask_nrestore files db o) = some (nrestore files db o)
perform (ask_fixup db o) = some (fixup db o)
perform (ask_add_user sec u) = some (add_user sec u)
perform (ask_delete_user sec u) = delete_user sec u
perform (ask_modify_user sec u) = some (modify_user sec u)
perform (ask_users sec) = some (display_users sec)
perform (ask_set_mapping sec) = some (set_admin_role_mapping sec)
perform (ask_drop_mapping sec) = some (drop_admin_role_mapping sec)
perform (ask_stats db o) = some (get_db_stats db o)
perform (ask_trace name config) = some (start_request name config)
perform (ask_trace_stop id) = some (id_request isc_action_svc_trace_stop id)
perform (ask_trace_suspend id) = some (id_request isc_action_svc_trace_suspend id)
perform (ask_trace_resume id) = some (id_request isc_action_svc_trace_resume id)
