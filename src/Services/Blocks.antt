-- ===== src/Services/Blocks.antt =====
-- The blocks that the managers build are the blocks of their requests.
use firebirdsql_go.Base.{
  ℕ, ◌≡◌, refl, ◌∙◌, sym, ap, ℤ, pos, negsuc, Bool, true, false, not, ◌&&◌, ◌||◌, ◌==◌, some, List,
  [], ◌∷◌, ◌++◌, map, arith, Bool-cases, inl, inr, if◌then◌else◌, ltb, ◌^◌, u32, i32,
}
use firebirdsql_go.Xpb.{
  writer_from_tag, put_tag, put_byte, put_string, put_int32, put_int64, put_bytes,
}
use firebirdsql_go.Xpb.RoundTrip.{
  Field, tag_field, string_field, int32_field, put_field, put_fields,
}
use firebirdsql_go.Services.{or_flag, is_empty}
use firebirdsql_go.Services.Maintenance.{
  set_access_mode_read_write, set_access_mode_read_only, set_write_mode_async, set_write_mode_sync,
  set_page_fill_no_reserve, set_page_fill_reserve, set_dialect, set_page_buffers, set_replica_mode,
  shutdown, online, no_linger, shutdown_ex, online_ex, set_sweep_interval, sweep, activate_shadow,
  kill_shadow, mend, list_limbo, validate, commit_transaction, rollback_transaction, fits_uint32,
}
use firebirdsql_go.Services.Backup.{backup, restore, is_positive, BackupOptions, RestoreOptions}
use firebirdsql_go.Services.NBackup.{
  nbackup, nrestore, fixup, put_files, put_options, is_negative, NBackupOptions,
}
use firebirdsql_go.Services.Stats.{get_db_stats, only_header, has_tables, StatisticsOptions}
use firebirdsql_go.Services.Trace.{start_request, id_request}
use firebirdsql_go.Services.Consts.{
  isc_spb_options, isc_spb_nbk_file, isc_spb_nbk_guid, isc_spb_nbk_level, isc_spb_dbname,
  isc_action_svc_nbak,
}
use firebirdsql_go.Services.Masks.{
  backup_mask-weigh, restore_mask-weigh, get_options_mask-weigh, stats_mask-weigh,
}
use firebirdsql_go.Services.Commands.{
  Command, ask_access_read_write, ask_access_read_only, ask_write_async, ask_write_sync,
  ask_no_reserve, ask_reserve, ask_dialect, ask_page_buffers, ask_replica_mode, ask_shutdown,
  ask_online, ask_no_linger, ask_shutdown_ex, ask_online_ex, ask_sweep_interval, ask_sweep,
  ask_activate_shadow, ask_kill_shadow, ask_mend, ask_validate, ask_limbo, ask_commit, ask_rollback,
  ask_backup, ask_restore, ask_nbackup, ask_nrestore, ask_fixup, ask_add_user, ask_delete_user,
  ask_modify_user, ask_users, ask_set_mapping, ask_drop_mapping, ask_stats, ask_trace,
  ask_trace_stop, ask_trace_suspend, ask_trace_resume, perform,
}
use firebirdsql_go.Services.Requests.{
  request, when, nonempty, with_lowest_bit, request_on, repair, nbackup_fields, weigh, backup_level,
}
use firebirdsql_go.Services.UserBlocks.{
  add_user_lem, modify_user_lem, delete_user_lem, display_users_lem, set_admin_role_mapping_lem,
  drop_admin_role_mapping_lem,
}

-- The writers of one field.
put_when :
    (w : List ℕ) (b : Bool) (f : Field) (fs : List Field)
    → put_fields w (when b f fs) ≡ put_fields (if b then put_field w f else w) fs
unfolding put_fields
put_when w true f fs = refl
put_when w false f fs = refl

validate_lem : (db : List ℕ) (n : ℤ) → validate db n ≡ put_fields [] (request (ask_validate db n))
unfolding put_fields put_field writer_from_tag put_tag put_string put_int32 validate or_flag
validate_lem db n =
    ap (λ z. put_fields [] (repair db (int32_field isc_spb_options z ∷ []))) (lowest n)
  where
    lowest : (n : ℤ) → i32 (or_flag (u32 n) 1) ≡ with_lowest_bit n
    lowest n = ground arith

commit_transaction_lem :
    (db : List ℕ) (n : ℤ) → commit_transaction db n ≡ put_fields [] (request (ask_commit db n))
unfolding put_fields put_field writer_from_tag put_tag put_string put_int32 put_int64
    commit_transaction fits_uint32
commit_transaction_lem db (negsuc n) = refl
commit_transaction_lem db (pos n) = elim (Bool-cases (ltb n (2 ^ 32))) [
  | inl e ↦ rw e
  | inr e ↦ rw e
]

rollback_transaction_lem :
    (db : List ℕ) (n : ℤ) → rollback_transaction db n ≡ put_fields [] (request (ask_rollback db n))
unfolding put_fields put_field writer_from_tag put_tag put_string put_int32 put_int64
    rollback_transaction fits_uint32
rollback_transaction_lem db (negsuc n) = refl
rollback_transaction_lem db (pos n) = elim (Bool-cases (ltb n (2 ^ 32))) [
  | inl e ↦ rw e
  | inr e ↦ rw e
]

backup_lem :
    (db file : List ℕ) (o : BackupOptions) (v : Bool)
    → backup db file o v ≡ put_fields [] (request (ask_backup db file o v))
unfolding put_fields put_field writer_from_tag put_tag put_string put_int32 backup
backup_lem db file o v =
    rw (backup_mask-weigh o)
      (sym (put_when _ (is_positive o.parallel_workers) _ _ ∙ put_when _ v _ []))

restore_lem :
    (file db : List ℕ) (o : RestoreOptions) (v : Bool)
    → restore file db o v ≡ put_fields [] (request (ask_restore file db o v))
unfolding put_fields put_field writer_from_tag put_tag put_string put_int32 restore
restore_lem file db o v = rw (restore_mask-weigh o) (
    sym (
      put_when _ (is_positive o.parallel_workers) _ _
      ∙ put_when _ v _ _
      ∙ put_when _ (is_positive o.page_size) _ _
      ∙ put_when _ (is_positive o.cache_buffers) _ []))

-- The options of nbackup.
put_options_lem :
    (w : List ℕ) (o : NBackupOptions) → put_options w o ≡ put_fields w (nbackup_fields o)
unfolding put_fields put_field put_int32 put_options
put_options_lem w o =
    rw (get_options_mask-weigh o) (by_bits o.no_db_triggers o.in_place_restore o.preserve_sequence)
  where
    by_bits :
        (a b c : Bool)
        → (let mask = weigh ((a, 1) ∷ (b, 2) ∷ (c, 4) ∷ []) in
            if not (mask == 0) then put_int32 w isc_spb_options (pos mask) else w)
          ≡ put_fields w (
              when
                (a || b || c)
                (int32_field isc_spb_options (pos (weigh ((a, 1) ∷ (b, 2) ∷ (c, 4) ∷ []))))
                [])
    by_bits true true true = refl
    by_bits true true false = refl
    by_bits true false true = refl
    by_bits true false false = refl
    by_bits false true true = refl
    by_bits false true false = refl
    by_bits false false true = refl
    by_bits false false false = refl

nbackup_lem :
    (db file : List ℕ) (o : NBackupOptions)
    → nbackup db file o ≡ put_fields [] (request (ask_nbackup db file o))
unfolding put_fields put_field writer_from_tag put_tag put_string put_int32 nbackup
nbackup_lem db file o = by_level o.level o.guid
  where
    by_level :
        (level : ℤ) (guid : List ℕ)
        → put_options
            (let spb =
                put_field
                  (put_field
                    (put_field [] (tag_field isc_action_svc_nbak))
                    (string_field isc_spb_dbname db))
                  (string_field isc_spb_nbk_file file) in
              let chosen = if is_negative level && is_empty guid then pos 0 else level in
              let spb = put_int32 spb isc_spb_nbk_level chosen in
              if not (is_empty guid) then put_string spb isc_spb_nbk_guid guid else spb)
            o
          ≡ put_fields [] (
              request_on isc_action_svc_nbak db (
                string_field isc_spb_nbk_file file
                ∷ int32_field isc_spb_nbk_level (backup_level level guid)
                ∷ nonempty isc_spb_nbk_guid guid (nbackup_fields o)))
    by_level (pos n) [] = put_options_lem _ o
    by_level (negsuc n) [] = put_options_lem _ o
    by_level (pos n) (c ∷ cs) = put_options_lem _ o
    by_level (negsuc n) (c ∷ cs) = put_options_lem _ o

nrestore_lem :
    (files : List (List ℕ)) (db : List ℕ) (o : NBackupOptions)
    → nrestore files db o ≡ put_fields [] (request (ask_nrestore files db o))
unfolding put_fields put_field writer_from_tag put_tag put_string nrestore
nrestore_lem files db o = all_files _ files
  where
    all_files :
        (w : List ℕ) (files : List (List ℕ))
        → put_options (put_files w files) o
          ≡ put_fields w (map (string_field isc_spb_nbk_file) files ++ nbackup_fields o)
    all_files w [] = put_options_lem w o
    all_files w (f ∷ fs) = all_files (put_string w isc_spb_nbk_file f) fs

fixup_lem :
    (db : List ℕ) (o : NBackupOptions) → fixup db o ≡ put_fields [] (request (ask_fixup db o))
unfolding put_fields put_field writer_from_tag put_tag put_string fixup
fixup_lem db o = put_options_lem _ o

only_header-tables : (o : StatisticsOptions) → (only_header o).tables ≡ o.tables
unfolding only_header
only_header-tables o = elim (Bool-cases o.only_header_pages) [ inl e ↦ rw e | inr e ↦ rw e ]

only_header-has_tables : (o : StatisticsOptions) → has_tables (only_header o) ≡ has_tables o
only_header-has_tables o = rw (only_header-tables o)

get_db_stats_lem :
    (db : List ℕ) (o : StatisticsOptions)
    → get_db_stats db o ≡ put_fields [] (request (ask_stats db o))
unfolding put_fields put_field writer_from_tag put_tag put_string put_int32 get_db_stats
get_db_stats_lem db o =
    rw (stats_mask-weigh o, only_header-tables o, only_header-has_tables o)
      (sym (put_when _ (has_tables o) _ []))

start_request_lem :
    (name config : List ℕ)
    → start_request name config ≡ put_fields [] (request (ask_trace name config))
unfolding put_fields put_field writer_from_tag put_tag put_string start_request
start_request_lem [] config = refl
start_request_lem (c ∷ cs) config = refl

-- The user to delete has a name.
abbrev pub IsNamed : Command → Type 0
IsNamed (ask_delete_user sec u) = (name : List ℕ) × (u.username ≡ some name)
IsNamed _ = Unit

-- Every method but DeleteUser of a user with no name hands over the block of its request.
pub perform-request : (c : Command) → IsNamed c → perform c ≡ some (put_fields [] (request c))
unfolding put_fields put_field writer_from_tag put_tag put_byte put_string put_int32 put_int64
    put_bytes id_request start_request set_access_mode_read_write set_access_mode_read_only
    set_write_mode_async set_write_mode_sync set_page_fill_no_reserve set_page_fill_reserve
    set_dialect set_page_buffers set_replica_mode shutdown online no_linger shutdown_ex online_ex
    set_sweep_interval sweep activate_shadow kill_shadow mend list_limbo validate commit_transaction
    rollback_transaction
perform-request (ask_access_read_write db) h = refl
perform-request (ask_access_read_only db) h = refl
perform-request (ask_write_async db) h = refl
perform-request (ask_write_sync db) h = refl
perform-request (ask_no_reserve db) h = refl
perform-request (ask_reserve db) h = refl
perform-request (ask_dialect db n) h = refl
perform-request (ask_page_buffers db n) h = refl
perform-request (ask_replica_mode db m) h = refl
perform-request (ask_shutdown db m n) h = refl
perform-request (ask_online db) h = refl
perform-request (ask_no_linger db) h = refl
perform-request (ask_shutdown_ex db o m n) h = refl
perform-request (ask_online_ex db o) h = refl
perform-request (ask_sweep_interval db n) h = refl
perform-request (ask_sweep db) h = refl
perform-request (ask_activate_shadow shadow) h = refl
perform-request (ask_kill_shadow db) h = refl
perform-request (ask_mend db) h = refl
perform-request (ask_validate db n) h = ap some (validate_lem db n)
perform-request (ask_limbo db) h = refl
perform-request (ask_commit db n) h = ap some (commit_transaction_lem db n)
perform-request (ask_rollback db n) h = ap some (rollback_transaction_lem db n)
perform-request (ask_backup db file o v) h = ap some (backup_lem db file o v)
perform-request (ask_restore file db o v) h = ap some (restore_lem file db o v)
perform-request (ask_nbackup db file o) h = ap some (nbackup_lem db file o)
perform-request (ask_nrestore files db o) h = ap some (nrestore_lem files db o)
perform-request (ask_fixup db o) h = ap some (fixup_lem db o)
perform-request (ask_add_user sec u) h = ap some (add_user_lem sec u)
perform-request (ask_delete_user sec u) h = delete_user_lem sec u h
perform-request (ask_modify_user sec u) h = ap some (modify_user_lem sec u)
perform-request (ask_users sec) h = ap some (display_users_lem sec)
perform-request (ask_set_mapping sec) h = ap some (set_admin_role_mapping_lem sec)
perform-request (ask_drop_mapping sec) h = ap some (drop_admin_role_mapping_lem sec)
perform-request (ask_stats db o) h = ap some (get_db_stats_lem db o)
perform-request (ask_trace name config) h = ap some (start_request_lem name config)
perform-request (ask_trace_stop id) h = refl
perform-request (ask_trace_suspend id) h = refl
perform-request (ask_trace_resume id) h = refl
