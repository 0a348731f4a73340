-- ===== src/Services/Requests.antt =====
-- What each request of the managers asks of the server, stated apart from the code that builds the
-- block: its action, and the fields behind it as a server that knows their kinds reads them.
use firebirdsql_go.Base.{
  ℕ, zero, ◌+◌, ◌^◌, ℤ, pos, negsuc, Bool, not, ◌&&◌, ◌||◌, Option, none, some, List, [], ◌∷◌, ◌++◌,
  map, ◌%◌, u32, i32, ltb, if◌then◌else◌,
}
use firebirdsql_go.Xpb.RoundTrip.{
  Field, tag_field, byte_field, int32_field, int64_field, string_field,
}
use firebirdsql_go.Services.{to_int32}
use firebirdsql_go.Services.Consts.{
  isc_action_svc_add_user, isc_action_svc_backup, isc_action_svc_db_stats,
  isc_action_svc_delete_user, isc_action_svc_display_user_adm, isc_action_svc_drop_mapping,
  isc_action_svc_modify_user, isc_action_svc_nbak, isc_action_svc_nfix, isc_action_svc_nrest,
  isc_action_svc_properties, isc_action_svc_repair, isc_action_svc_restore,
  isc_action_svc_set_mapping, isc_action_svc_trace_resume, isc_action_svc_trace_start,
  isc_action_svc_trace_stop, isc_action_svc_trace_suspend, isc_spb_bkp_file,
  isc_spb_bkp_parallel_workers, isc_spb_command_line, isc_spb_dbname, isc_spb_nbk_file,
  isc_spb_nbk_guid, isc_spb_nbk_level, isc_spb_options, isc_spb_prp_access_mode,
  isc_spb_prp_activate, isc_spb_prp_am_readonly, isc_spb_prp_am_readwrite, isc_spb_prp_db_online,
  isc_spb_prp_nolinger, isc_spb_prp_online_mode, isc_spb_prp_page_buffers, isc_spb_prp_replica_mode,
  isc_spb_prp_res, isc_spb_prp_res_use_full, isc_spb_prp_reserve_space, isc_spb_prp_set_sql_dialect,
  isc_spb_prp_shutdown_mode, isc_spb_prp_sweep_interval, isc_spb_prp_wm_async, isc_spb_prp_wm_sync,
  isc_spb_prp_write_mode, isc_spb_res_buffers, isc_spb_res_page_size, isc_spb_res_parallel_workers,
  isc_spb_rpr_commit_trans, isc_spb_rpr_commit_trans_64, isc_spb_rpr_kill_shadows,
  isc_spb_rpr_list_limbo_trans, isc_spb_rpr_mend_db, isc_spb_rpr_rollback_trans,
  isc_spb_rpr_rollback_trans_64, isc_spb_rpr_sweep_db, isc_spb_sec_admin, isc_spb_sec_firstname,
  isc_spb_sec_groupid, isc_spb_sec_lastname, isc_spb_sec_middlename, isc_spb_sec_password,
  isc_spb_sec_userid, isc_spb_sec_username, isc_spb_trc_cfg, isc_spb_trc_id, isc_spb_trc_name,
  isc_spb_verbose,
}
use firebirdsql_go.Services.Backup.{BackupOptions, RestoreOptions, is_positive}
use firebirdsql_go.Services.NBackup.{NBackupOptions}
use firebirdsql_go.Services.Maintenance.{
  replica_byte, shutdown_byte, shutdown_ex_byte, operation_byte,
}
use firebirdsql_go.Services.Users.{User}
use firebirdsql_go.Services.Stats.{StatisticsOptions, has_tables, join}
use firebirdsql_go.Services.Commands.{
  Command, ask_access_read_write, ask_access_read_only, ask_write_async, ask_write_sync,
  ask_no_reserve, ask_reserve, ask_dialect, ask_page_buffers, ask_replica_mode, ask_shutdown,
  ask_online, ask_no_linger, ask_shutdown_ex, ask_online_ex, ask_sweep_interval, ask_sweep,
  ask_activate_shadow, ask_kill_shadow, ask_mend, ask_validate, ask_limbo, ask_commit, ask_rollback,
  ask_backup, ask_restore, ask_nbackup, ask_nrestore, ask_fixup, ask_add_user, ask_delete_user,
  ask_modify_user, ask_users, ask_set_mapping, ask_drop_mapping, ask_stats, ask_trace,
  ask_trace_stop, ask_trace_suspend, ask_trace_resume,
}

-- A field that is there on a condition, in front of the rest.
abbrev pub when : Bool → Field → List Field → List Field
when b f fs = if b then f ∷ fs else fs

abbrev pub positive : ℕ → ℤ → List Field → List Field
positive tag n fs = when (is_positive n) (int32_field tag n) fs

abbrev pub nonempty : ℕ → List ℕ → List Field → List Field
nonempty tag [] fs = fs
nonempty tag (c ∷ cs) fs = string_field tag (c ∷ cs) ∷ fs

abbrev pub given : ℕ → Option (List ℕ) → List Field → List Field
given tag none fs = fs
given tag (some s) fs = string_field tag s ∷ fs

-- The fields of a user that are not the default -1.
abbrev pub unless_default : ℕ → ℤ → List Field → List Field
unless_default tag (negsuc zero) fs = fs
unless_default tag n fs = int32_field tag n ∷ fs

abbrev pub admin_field : Option Bool → List Field → List Field
admin_field none fs = fs
admin_field (some b) fs = int32_field isc_spb_sec_admin (pos (if b then 1 else 0)) ∷ fs

abbrev pub user_fields : User → List Field → List Field
user_fields u fs = given isc_spb_sec_username u.username (
    given isc_spb_sec_password u.password (
      given isc_spb_sec_firstname u.first_name (
        given isc_spb_sec_middlename u.middle_name (
          given isc_spb_sec_lastname u.last_name (
            unless_default isc_spb_sec_userid u.user_id
              (unless_default isc_spb_sec_groupid u.group_id (admin_field u.admin fs)))))))

-- A set of bits, each with its weight.
abbrev pub weigh : List (Bool × ℕ) → ℕ
weigh [] = 0
weigh ((b, w) ∷ bs) = (if b then w else 0) + weigh bs

abbrev pub backup_bits : BackupOptions → List (Bool × ℕ)
backup_bits o =
    (o.ignore_checksums, 1)
    ∷ (o.ignore_limbo_transactions, 2)
    ∷ (o.metadata_only, 4)
    ∷ (not o.garbage_collect || o.expand, 8)
    ∷ (not o.transportable, 32)
    ∷ (o.convert_external_tables_to_internal_tables, 64)
    ∷ (o.zip, 2 ^ 16)
    ∷ []

abbrev pub restore_bits : RestoreOptions → List (Bool × ℕ)
restore_bits o =
    (o.deactivate_indexes, 2 ^ 8)
    ∷ (not o.restore_shadows, 2 ^ 9)
    ∷ (not o.enforce_constraints, 2 ^ 10)
    ∷ (o.commit_after_each_table, 2 ^ 11)
    ∷ (o.replace, 2 ^ 12)
    ∷ (not o.replace, 2 ^ 13)
    ∷ (o.use_all_page_space, 2 ^ 14)
    ∷ []

abbrev pub nbackup_bits : NBackupOptions → List (Bool × ℕ)
nbackup_bits o = (o.no_db_triggers, 1) ∷ (o.in_place_restore, 2) ∷ (o.preserve_sequence, 4) ∷ []

-- Header pages alone exclude the other parts, but not the tables.
abbrev pub stats_bits : StatisticsOptions → List (Bool × ℕ)
stats_bits o =
    let full = not o.only_header_pages in
    (full && o.user_data_pages, 1)
    ∷ (o.only_header_pages, 4)
    ∷ (full && o.user_index_pages, 8)
    ∷ (full && o.system_relations_and_indexes, 16)
    ∷ (full && o.record_versions, 32)
    ∷ (has_tables o, 64)
    ∷ []

-- The options of nbackup: no field if there are none.
abbrev pub nbackup_fields : NBackupOptions → List Field
nbackup_fields o =
    when (o.no_db_triggers || o.in_place_restore || o.preserve_sequence)
      (int32_field isc_spb_options (pos (weigh (nbackup_bits o)))) []

-- Level 0 by default, unless a backup is named by its GUID.
abbrev pub backup_level : ℤ → List ℕ → ℤ
backup_level (negsuc n) [] = pos 0
backup_level n guid = n

-- The number with its lowest bit set, as an int32.
abbrev pub with_lowest_bit : ℤ → ℤ
with_lowest_bit n = let p = u32 n in i32 (if ltb (p % 2) 1 then p + 1 else p)

-- An unsigned number of 32 bits goes as an int32 of that pattern, another number as an int64.
abbrev pub transaction_field : ℕ → ℕ → ℤ → Field
transaction_field tag tag64 (pos n) =
    if ltb n (2 ^ 32) then int32_field tag (to_int32 (pos n)) else int64_field tag64 (pos n)
transaction_field tag tag64 (negsuc n) = int64_field tag64 (negsuc n)

abbrev pub request_on : ℕ → List ℕ → List Field → List Field
request_on action db fs = tag_field action ∷ string_field isc_spb_dbname db ∷ fs

abbrev pub properties : List ℕ → List Field → List Field
properties db fs = request_on isc_action_svc_properties db fs

abbrev pub repair : List ℕ → List Field → List Field
repair db fs = request_on isc_action_svc_repair db fs

abbrev pub request : Command → List Field
request (ask_access_read_write db) =
    properties db (byte_field isc_spb_prp_access_mode isc_spb_prp_am_readwrite ∷ [])
request (ask_access_read_only db) =
    properties db (byte_field isc_spb_prp_access_mode isc_spb_prp_am_readonly ∷ [])
request (ask_write_async db) =
    properties db (byte_field isc_spb_prp_write_mode isc_spb_prp_wm_async ∷ [])
request (ask_write_sync db) =
    properties db (byte_field isc_spb_prp_write_mode isc_spb_prp_wm_sync ∷ [])
request (ask_no_reserve db) =
    properties db (byte_field isc_spb_prp_reserve_space isc_spb_prp_res_use_full ∷ [])
request (ask_reserve db) = properties db (byte_field isc_spb_prp_reserve_space isc_spb_prp_res ∷ [])
request (ask_dialect db n) =
    properties db (int32_field isc_spb_prp_set_sql_dialect (to_int32 n) ∷ [])
request (ask_page_buffers db n) =
    properties db (int32_field isc_spb_prp_page_buffers (to_int32 n) ∷ [])
request (ask_replica_mode db m) =
    properties db (byte_field isc_spb_prp_replica_mode (replica_byte m) ∷ [])
request (ask_shutdown db m n) =
    properties db (int32_field (shutdown_byte m) (to_int32 (pos n)) ∷ [])
request (ask_online db) =
    properties db (int32_field isc_spb_options (pos isc_spb_prp_db_online) ∷ [])
request (ask_no_linger db) =
    properties db (int32_field isc_spb_options (pos isc_spb_prp_nolinger) ∷ [])
request (ask_shutdown_ex db o m n) = properties db (
    byte_field isc_spb_prp_shutdown_mode (operation_byte o)
    ∷ int32_field (shutdown_ex_byte m) (to_int32 (pos n))
    ∷ [])
request (ask_online_ex db o) =
    properties db (byte_field isc_spb_prp_online_mode (operation_byte o) ∷ [])
request (ask_sweep_interval db n) =
    properties db (int32_field isc_spb_prp_sweep_interval (to_int32 (pos n)) ∷ [])
request (ask_sweep db) = repair db (int32_field isc_spb_options (pos isc_spb_rpr_sweep_db) ∷ [])
request (ask_activate_shadow shadow) =
    properties shadow (int32_field isc_spb_options (pos isc_spb_prp_activate) ∷ [])
request (ask_kill_shadow db) =
    repair db (int32_field isc_spb_options (pos isc_spb_rpr_kill_shadows) ∷ [])
request (ask_mend db) = repair db (int32_field isc_spb_options (pos isc_spb_rpr_mend_db) ∷ [])
request (ask_validate db n) = repair db (int32_field isc_spb_options (with_lowest_bit n) ∷ [])
request (ask_limbo db) =
    repair db (int32_field isc_spb_options (pos isc_spb_rpr_list_limbo_trans) ∷ [])
request (ask_commit db n) =
    repair db (transaction_field isc_spb_rpr_commit_trans isc_spb_rpr_commit_trans_64 n ∷ [])
request (ask_rollback db n) =
    repair db (transaction_field isc_spb_rpr_rollback_trans isc_spb_rpr_rollback_trans_64 n ∷ [])
request (ask_backup db file o v) = request_on isc_action_svc_backup db (
    string_field isc_spb_bkp_file file
    ∷ int32_field isc_spb_options (pos (weigh (backup_bits o)))
    ∷ positive isc_spb_bkp_parallel_workers o.parallel_workers
        (when v (tag_field isc_spb_verbose) []))
request (ask_restore file db o v) = request_on isc_action_svc_restore db (
    string_field isc_spb_bkp_file file
    ∷ int32_field isc_spb_options (pos (weigh (restore_bits o)))
    ∷ positive isc_spb_res_parallel_workers o.parallel_workers (
        when v (tag_field isc_spb_verbose) (
          positive isc_spb_res_page_size o.page_size
            (positive isc_spb_res_buffers o.cache_buffers []))))
request (ask_nbackup db file o) = request_on isc_action_svc_nbak db (
    string_field isc_spb_nbk_file file
    ∷ int32_field isc_spb_nbk_level (backup_level o.level o.guid)
    ∷ nonempty isc_spb_nbk_guid o.guid (nbackup_fields o))
request (ask_nrestore files db o) =
    request_on isc_action_svc_nrest db
      (map (string_field isc_spb_nbk_file) files ++ nbackup_fields o)
request (ask_fixup db o) = request_on isc_action_svc_nfix db (nbackup_fields o)
request (ask_add_user sec u) =
    tag_field isc_action_svc_add_user ∷ user_fields u (nonempty isc_spb_dbname sec [])
request (ask_delete_user sec u) =
    tag_field isc_action_svc_delete_user
    ∷ given isc_spb_sec_username u.username (nonempty isc_spb_dbname sec [])
request (ask_modify_user sec u) =
    tag_field isc_action_svc_modify_user ∷ user_fields u (nonempty isc_spb_dbname sec [])
request (ask_users sec) = tag_field isc_action_svc_display_user_adm ∷ nonempty isc_spb_dbname sec []
request (ask_set_mapping sec) =
    tag_field isc_action_svc_set_mapping ∷ nonempty isc_spb_dbname sec []
request (ask_drop_mapping sec) =
    tag_field isc_action_svc_drop_mapping ∷ nonempty isc_spb_dbname sec []
request (ask_stats db o) = request_on isc_action_svc_db_stats db (
    int32_field isc_spb_options (pos (weigh (stats_bits o)))
    ∷ when (has_tables o) (string_field isc_spb_command_line (join o.tables)) [])
request (ask_trace name config) =
    tag_field isc_action_svc_trace_start
    ∷ nonempty isc_spb_trc_name name (string_field isc_spb_trc_cfg config ∷ [])
request (ask_trace_stop id) =
    tag_field isc_action_svc_trace_stop ∷ int32_field isc_spb_trc_id id ∷ []
request (ask_trace_suspend id) =
    tag_field isc_action_svc_trace_suspend ∷ int32_field isc_spb_trc_id id ∷ []
request (ask_trace_resume id) =
    tag_field isc_action_svc_trace_resume ∷ int32_field isc_spb_trc_id id ∷ []
