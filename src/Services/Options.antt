-- ===== src/Services/Options.antt =====
-- The functional options: every set of options is what some list of them makes of the defaults.
use firebirdsql_go.Base.{
  ℕ, ◌≡◌, refl, ◌∙◌, Bool, true, false, Option, none, some, List, [], ◌∷◌, if◌then◌else◌, IsI32,
  i32-u32,
}
use firebirdsql_go.Services.{apply_options}
use firebirdsql_go.Services.Backup.{
  BackupOptions, BackupOption, new_backup_options, RestoreOptions, RestoreOption,
  new_restore_options, get_default_restore_options, with_ignore_checksums, without_ignore_checksums,
  with_ignore_limbo_transactions, without_ignore_limbo_transactions, with_metadata_only,
  without_metadata_only, with_garbage_collect, without_garbage_collect, with_transportable,
  without_transportable, with_convert_external_tables_to_internal_tables,
  without_convert_external_tables_to_internal_tables, with_expand, without_expand, with_zip,
  without_zip, with_backup_parallel_workers, with_replace, without_replace, with_deactivate_indexes,
  with_restore_shadows, without_restore_shadows, with_enforce_constraints,
  without_enforce_constraints, with_commit_after_each_table, without_commit_after_each_table,
  with_use_all_page_space, without_use_all_page_space, with_page_size, with_cache_buffers,
  with_restore_parallel_workers,
}
use firebirdsql_go.Services.NBackup.{
  NBackupOptions, NBackupOption, new_nbackup_options, with_level, with_guid, without_db_triggers,
  with_db_triggers, with_in_place_restore, with_place_restore, with_preserve_sequence,
  without_preserve_sequence,
}
use firebirdsql_go.Services.Users.{
  User, UserOption, new_user, UserManagerOptions, new_user_manager_options, with_security_db,
  with_username, with_password, with_first_name, with_middle_name, with_last_name, with_user_id,
  with_group_id, with_admin, without_admin,
}
use firebirdsql_go.Services.Stats.{
  StatisticsOptions, StatisticsOption, new_statistics_options, with_user_data_pages,
  without_user_data_pages, with_user_index_pages, without_index_pages, with_only_header_pages,
  without_only_header_pages, with_system_relations_and_indexes,
  without_system_relations_and_indexes, with_record_versions, without_record_versions, with_tables,
}

-- The option that sets a flag, or the one that clears it.
set_flag :
    {O : Type 0} (set : Bool → O → O) (b : Bool) → (if b then set true else set false) ≡ set b
set_flag set true = refl
set_flag set false = refl

abbrev pub backup_settings : BackupOptions → List BackupOption
backup_settings o =
    (if o.ignore_checksums then with_ignore_checksums else without_ignore_checksums)
    ∷ (if o.ignore_limbo_transactions
        then with_ignore_limbo_transactions
        else without_ignore_limbo_transactions)
    ∷ (if o.metadata_only then with_metadata_only else without_metadata_only)
    ∷ (if o.garbage_collect then with_garbage_collect else without_garbage_collect)
    ∷ (if o.transportable then with_transportable else without_transportable)
    ∷ (if o.convert_external_tables_to_internal_tables
        then with_convert_external_tables_to_internal_tables
        else without_convert_external_tables_to_internal_tables)
    ∷ (if o.expand then with_expand else without_expand)
    ∷ (if o.zip then with_zip else without_zip)
    ∷ with_backup_parallel_workers o.parallel_workers
    ∷ []

new_backup_options-backup_settings :
    (o : BackupOptions) → new_backup_options (backup_settings o) ≡ o
new_backup_options-backup_settings o i = new_backup_options (
    set_flag (λ b p. record p { ignore_checksums = b }) o.ignore_checksums i
    ∷ set_flag (λ b p. record p { ignore_limbo_transactions = b }) o.ignore_limbo_transactions i
    ∷ set_flag (λ b p. record p { metadata_only = b }) o.metadata_only i
    ∷ set_flag (λ b p. record p { garbage_collect = b }) o.garbage_collect i
    ∷ set_flag (λ b p. record p { transportable = b }) o.transportable i
    ∷ set_flag (λ b p. record p { convert_external_tables_to_internal_tables = b })
        o.convert_external_tables_to_internal_tables i
    ∷ set_flag (λ b p. record p { expand = b }) o.expand i
    ∷ set_flag (λ b p. record p { zip = b }) o.zip i
    ∷ with_backup_parallel_workers o.parallel_workers
    ∷ [])

-- There is an option to deactivate the indexes, and none to undo it.
abbrev deactivation : Bool → List RestoreOption → List RestoreOption
deactivation b opts = if b then with_deactivate_indexes ∷ opts else opts

deactivation_lem :
    (b : Bool) (opts : List RestoreOption)
    → new_restore_options (deactivation b opts)
      ≡ apply_options (record get_default_restore_options { deactivate_indexes = b }) opts
deactivation_lem true opts = refl
deactivation_lem false opts = refl

abbrev pub restore_settings : RestoreOptions → List RestoreOption
restore_settings o = deactivation o.deactivate_indexes (
    (if o.replace then with_replace else without_replace)
    ∷ (if o.restore_shadows then with_restore_shadows else without_restore_shadows)
    ∷ (if o.enforce_constraints then with_enforce_constraints else without_enforce_constraints)
    ∷ (if o.commit_after_each_table
        then with_commit_after_each_table
        else without_commit_after_each_table)
    ∷ (if o.use_all_page_space then with_use_all_page_space else without_use_all_page_space)
    ∷ with_page_size o.page_size
    ∷ with_cache_buffers o.cache_buffers
    ∷ with_restore_parallel_workers o.parallel_workers
    ∷ [])

new_restore_options-restore_settings :
    (o : RestoreOptions) → new_restore_options (restore_settings o) ≡ o
new_restore_options-restore_settings o = deactivation_lem o.deactivate_indexes _ ∙ λ i.
    apply_options (record get_default_restore_options { deactivate_indexes = o.deactivate_indexes })
      (set_flag (λ b p. record p { replace = b }) o.replace i
        ∷ set_flag (λ b p. record p { restore_shadows = b }) o.restore_shadows i
        ∷ set_flag (λ b p. record p { enforce_constraints = b }) o.enforce_constraints i
        ∷ set_flag (λ b p. record p { commit_after_each_table = b }) o.commit_after_each_table i
        ∷ set_flag (λ b p. record p { use_all_page_space = b }) o.use_all_page_space i
        ∷ with_page_size o.page_size
        ∷ with_cache_buffers o.cache_buffers
        ∷ with_restore_parallel_workers o.parallel_workers
        ∷ [])

abbrev pub nbackup_settings : NBackupOptions → List NBackupOption
nbackup_settings o =
    with_level o.level
    ∷ with_guid o.guid
    ∷ (if o.no_db_triggers then without_db_triggers else with_db_triggers)
    ∷ (if o.in_place_restore then with_in_place_restore else with_place_restore)
    ∷ (if o.preserve_sequence then with_preserve_sequence else without_preserve_sequence)
    ∷ []

new_nbackup_options-nbackup_settings :
    (o : NBackupOptions) → IsI32 o.level → new_nbackup_options (nbackup_settings o) ≡ o
new_nbackup_options-nbackup_settings o h i = new_nbackup_options (
    (λ p. record p { level = i32-u32 o.level h i })
    ∷ with_guid o.guid
    ∷ set_flag (λ b p. record p { no_db_triggers = b }) o.no_db_triggers i
    ∷ set_flag (λ b p. record p { in_place_restore = b }) o.in_place_restore i
    ∷ set_flag (λ b p. record p { preserve_sequence = b }) o.preserve_sequence i
    ∷ [])

abbrev pub statistics_settings : StatisticsOptions → List StatisticsOption
statistics_settings o =
    (if o.user_data_pages then with_user_data_pages else without_user_data_pages)
    ∷ (if o.user_index_pages then with_user_index_pages else without_index_pages)
    ∷ (if o.only_header_pages then with_only_header_pages else without_only_header_pages)
    ∷ (if o.system_relations_and_indexes
        then with_system_relations_and_indexes
        else without_system_relations_and_indexes)
    ∷ (if o.record_versions then with_record_versions else without_record_versions)
    ∷ with_tables o.tables
    ∷ []

new_statistics_options-statistics_settings :
    (o : StatisticsOptions) → new_statistics_options (statistics_settings o) ≡ o
new_statistics_options-statistics_settings o i = new_statistics_options (
    set_flag (λ b p. record p { user_data_pages = b }) o.user_data_pages i
    ∷ set_flag (λ b p. record p { user_index_pages = b }) o.user_index_pages i
    ∷ set_flag (λ b p. record p { only_header_pages = b }) o.only_header_pages i
    ∷ set_flag (λ b p. record p { system_relations_and_indexes = b }) o.system_relations_and_indexes
        i
    ∷ set_flag (λ b p. record p { record_versions = b }) o.record_versions i
    ∷ with_tables o.tables
    ∷ [])

-- An option for a value that is there.
abbrev if_given : {A : Type 0} → Option A → (A → UserOption) → List UserOption → List UserOption
if_given none f opts = opts
if_given (some a) f opts = f a ∷ opts

abbrev admin_option : Bool → UserOption
admin_option b = if b then with_admin else without_admin

abbrev pub user_settings : User → List UserOption
user_settings u = if_given u.username with_username (
    if_given u.password with_password (
      if_given u.first_name with_first_name (
        if_given u.middle_name with_middle_name (
          if_given u.last_name with_last_name (
            if_given u.admin admin_option
              (with_user_id u.user_id ∷ with_group_id u.group_id ∷ []))))))

username_given :
    (u : User) (o : Option (List ℕ)) (opts : List UserOption)
    → apply_options (record u { username = none }) (if_given o with_username opts)
      ≡ apply_options (record u { username = o }) opts
username_given u none opts = refl
username_given u (some a) opts = refl

password_given :
    (u : User) (o : Option (List ℕ)) (opts : List UserOption)
    → apply_options (record u { password = none }) (if_given o with_password opts)
      ≡ apply_options (record u { password = o }) opts
password_given u none opts = refl
password_given u (some a) opts = refl

first_name_given :
    (u : User) (o : Option (List ℕ)) (opts : List UserOption)
    → apply_options (record u { first_name = none }) (if_given o with_first_name opts)
      ≡ apply_options (record u { first_name = o }) opts
first_name_given u none opts = refl
first_name_given u (some a) opts = refl

middle_name_given :
    (u : User) (o : Option (List ℕ)) (opts : List UserOption)
    → apply_options (record u { middle_name = none }) (if_given o with_middle_name opts)
      ≡ apply_options (record u { middle_name = o }) opts
middle_name_given u none opts = refl
middle_name_given u (some a) opts = refl

last_name_given :
    (u : User) (o : Option (List ℕ)) (opts : List UserOption)
    → apply_options (record u { last_name = none }) (if_given o with_last_name opts)
      ≡ apply_options (record u { last_name = o }) opts
last_name_given u none opts = refl
last_name_given u (some a) opts = refl

admin_given :
    (u : User) (o : Option (Bool)) (opts : List UserOption)
    → apply_options (record u { admin = none }) (if_given o admin_option opts)
      ≡ apply_options (record u { admin = o }) opts
admin_given u none opts = refl
admin_given u (some true) opts = refl
admin_given u (some false) opts = refl

new_user-user_settings : (u : User) → new_user (user_settings u) ≡ u
new_user-user_settings u =
    let u0 = new_user [] in
    let u1 = record u0 { username = u.username } in
    let u2 = record u1 { password = u.password } in
    let u3 = record u2 { first_name = u.first_name } in
    let u4 = record u3 { middle_name = u.middle_name } in
    let u5 = record u4 { last_name = u.last_name } in
    username_given u0 u.username _
    ∙ password_given u1 u.password _
    ∙ first_name_given u2 u.first_name _
    ∙ middle_name_given u3 u.middle_name _
    ∙ last_name_given u4 u.last_name _
    ∙ admin_given u5 u.admin _

-- Every set of options of a backup, a restore, an nbackup, the statistics and a user manager, and
-- every user, is what some list of the functional options makes of the defaults. The level of an
-- nbackup is an int32.
options_reach :
    (b : BackupOptions) (r : RestoreOptions) (n : NBackupOptions) (s : StatisticsOptions) (u : User)
    (m : UserManagerOptions)
    → IsI32 n.level
    → (new_backup_options (backup_settings b) ≡ b)
      × (new_restore_options (restore_settings r) ≡ r)
      × (new_nbackup_options (nbackup_settings n) ≡ n)
      × (new_statistics_options (statistics_settings s) ≡ s)
      × (new_user (user_settings u) ≡ u)
      × (new_user_manager_options (with_security_db m.security_db ∷ []) ≡ m)
options_reach b r n s u m h = (
  new_backup_options-backup_settings b,
  new_restore_options-restore_settings r,
  new_nbackup_options-nbackup_settings n h,
  new_statistics_options-statistics_settings s,
  new_user-user_settings u,
  refl,
)
