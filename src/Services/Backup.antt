-- ===== src/Services/Backup.antt =====
-- backup_manager.go: gbak's backup and restore. A verbose channel is only tested for presence.
use firebirdsql_go.Base.{ℕ, zero, suc, ℤ, pos, negsuc, Bool, true, false, not, List, if◌then◌else◌}
use firebirdsql_go.Xpb.{writer_from_tag, put_tag, put_string, put_int32}
use firebirdsql_go.Services.{or_flag_if, apply_options}
use firebirdsql_go.Services.Consts.{
  isc_action_svc_backup, isc_action_svc_restore, isc_spb_bkp_convert, isc_spb_bkp_expand,
  isc_spb_bkp_file, isc_spb_bkp_ignore_checksums, isc_spb_bkp_ignore_limbo,
  isc_spb_bkp_metadata_only, isc_spb_bkp_no_garbage_collect, isc_spb_bkp_non_transportable,
  isc_spb_bkp_parallel_workers, isc_spb_bkp_zip, isc_spb_dbname, isc_spb_options,
  isc_spb_res_buffers, isc_spb_res_create, isc_spb_res_deactivate_idx, isc_spb_res_no_shadow,
  isc_spb_res_no_validity, isc_spb_res_one_at_a_time, isc_spb_res_page_size,
  isc_spb_res_parallel_workers, isc_spb_res_replace, isc_spb_res_use_all_space, isc_spb_verbose,
}

pub record BackupOptions : Type 0 where
  pub ignore_checksums : Bool
  pub ignore_limbo_transactions : Bool
  pub metadata_only : Bool
  pub garbage_collect : Bool
  pub transportable : Bool
  pub convert_external_tables_to_internal_tables : Bool
  pub expand : Bool
  pub zip : Bool
  pub parallel_workers : ℤ

abbrev pub BackupOption : Type 0
BackupOption = BackupOptions → BackupOptions

pub record RestoreOptions : Type 0 where
  pub replace : Bool
  pub deactivate_indexes : Bool
  pub restore_shadows : Bool
  pub enforce_constraints : Bool
  pub commit_after_each_table : Bool
  pub use_all_page_space : Bool
  pub page_size : ℤ
  pub cache_buffers : ℤ
  pub parallel_workers : ℤ

abbrev pub RestoreOption : Type 0
RestoreOption = RestoreOptions → RestoreOptions

abbrev get_default_backup_options : BackupOptions
get_default_backup_options = record {
  ignore_checksums = false;
  ignore_limbo_transactions = false;
  metadata_only = false;
  garbage_collect = true;
  transportable = true;
  convert_external_tables_to_internal_tables = true;
  expand = false;
  zip = false;
  parallel_workers = pos 0;
}

abbrev pub with_ignore_checksums : BackupOption
with_ignore_checksums opts = record opts { ignore_checksums = true }

abbrev pub without_ignore_checksums : BackupOption
without_ignore_checksums opts = record opts { ignore_checksums = false }

abbrev pub with_ignore_limbo_transactions : BackupOption
with_ignore_limbo_transactions opts = record opts { ignore_limbo_transactions = true }

abbrev pub without_ignore_limbo_transactions : BackupOption
without_ignore_limbo_transactions opts = record opts { ignore_limbo_transactions = false }

abbrev pub with_metadata_only : BackupOption
with_metadata_only opts = record opts { metadata_only = true }

abbrev pub without_metadata_only : BackupOption
without_metadata_only opts = record opts { metadata_only = false }

abbrev pub with_garbage_collect : BackupOption
with_garbage_collect opts = record opts { garbage_collect = true }

abbrev pub without_garbage_collect : BackupOption
without_garbage_collect opts = record opts { garbage_collect = false }

abbrev pub with_transportable : BackupOption
with_transportable opts = record opts { transportable = true }

abbrev pub without_transportable : BackupOption
without_transportable opts = record opts { transportable = false }

abbrev pub with_convert_external_tables_to_internal_tables : BackupOption
with_convert_external_tables_to_internal_tables opts = record opts {
  convert_external_tables_to_internal_tables = true;
}

abbrev pub without_convert_external_tables_to_internal_tables : BackupOption
without_convert_external_tables_to_internal_tables opts = record opts {
  convert_external_tables_to_internal_tables = false;
}

abbrev pub with_expand : BackupOption
with_expand opts = record opts { expand = true }

abbrev pub without_expand : BackupOption
without_expand opts = record opts { expand = false }

abbrev pub with_zip : BackupOption
with_zip opts = record opts { zip = true }

abbrev pub without_zip : BackupOption
without_zip opts = record opts { zip = false }

abbrev pub with_backup_parallel_workers : ℤ → BackupOption
with_backup_parallel_workers parallel_workers opts = record opts {
  parallel_workers = parallel_workers;
}

abbrev pub without_backup_parallel_workers : BackupOption
without_backup_parallel_workers opts = record opts { parallel_workers = pos 0 }

abbrev pub new_backup_options : List BackupOption → BackupOptions
new_backup_options opts = apply_options get_default_backup_options opts

abbrev pub get_default_restore_options : RestoreOptions
get_default_restore_options = record {
  replace = false;
  deactivate_indexes = false;
  restore_shadows = true;
  enforce_constraints = true;
  commit_after_each_table = false;
  use_all_page_space = false;
  page_size = pos 0;
  cache_buffers = pos 0;
  parallel_workers = pos 0;
}

abbrev pub with_replace : RestoreOption
with_replace opts = record opts { replace = true }

abbrev pub without_replace : RestoreOption
without_replace opts = record opts { replace = false }

abbrev pub with_deactivate_indexes : RestoreOption
with_deactivate_indexes opts = record opts { deactivate_indexes = true }

abbrev pub with_restore_shadows : RestoreOption
with_restore_shadows opts = record opts { restore_shadows = true }

abbrev pub without_restore_shadows : RestoreOption
without_restore_shadows opts = record opts { restore_shadows = false }

abbrev pub with_enforce_constraints : RestoreOption
with_enforce_constraints opts = record opts { enforce_constraints = true }

abbrev pub without_enforce_constraints : RestoreOption
without_enforce_constraints opts = record opts { enforce_constraints = false }

abbrev pub with_commit_after_each_table : RestoreOption
with_commit_after_each_table opts = record opts { commit_after_each_table = true }

abbrev pub without_commit_after_each_table : RestoreOption
without_commit_after_each_table opts = record opts { commit_after_each_table = false }

abbrev pub with_use_all_page_space : RestoreOption
with_use_all_page_space opts = record opts { use_all_page_space = true }

abbrev pub without_use_all_page_space : RestoreOption
without_use_all_page_space opts = record opts { use_all_page_space = false }

abbrev pub with_page_size : ℤ → RestoreOption
with_page_size page_size opts = record opts { page_size = page_size }

abbrev pub with_cache_buffers : ℤ → RestoreOption
with_cache_buffers cache_buffers opts = record opts { cache_buffers = cache_buffers }

abbrev pub with_restore_parallel_workers : ℤ → RestoreOption
with_restore_parallel_workers parallel_workers opts = record opts {
  parallel_workers = parallel_workers;
}

abbrev pub without_restore_parallel_workers : RestoreOption
without_restore_parallel_workers opts = record opts { parallel_workers = pos 0 }

abbrev pub new_restore_options : List RestoreOption → RestoreOptions
new_restore_options opts = apply_options get_default_restore_options opts

-- Go's `n > 0`.
abbrev pub is_positive : ℤ → Bool
is_positive (pos zero) = false
is_positive (pos (suc n)) = true
is_positive (negsuc n) = false

-- The tests that set the bits of `optionsMask`, in their order.
unfoldable pub backup_mask : BackupOptions → ℕ
backup_mask o =
    let mask = or_flag_if o.ignore_checksums isc_spb_bkp_ignore_checksums 0 in
    let mask = or_flag_if o.ignore_limbo_transactions isc_spb_bkp_ignore_limbo mask in
    let mask = or_flag_if o.metadata_only isc_spb_bkp_metadata_only mask in
    let mask = or_flag_if (not o.garbage_collect) isc_spb_bkp_no_garbage_collect mask in
    let mask = or_flag_if (not o.transportable) isc_spb_bkp_non_transportable mask in
    let mask = or_flag_if o.convert_external_tables_to_internal_tables isc_spb_bkp_convert mask in
    let mask = or_flag_if o.expand isc_spb_bkp_expand mask in or_flag_if o.zip isc_spb_bkp_zip mask

-- `Backup`, up to the block that it attaches with.
unfoldable pub backup : List ℕ → List ℕ → BackupOptions → Bool → List ℕ
backup database file options verbose =
    let spb = writer_from_tag isc_action_svc_backup in
    let spb = put_string spb isc_spb_dbname database in
    let spb = put_string spb isc_spb_bkp_file file in
    let spb = put_int32 spb isc_spb_options (pos (backup_mask options)) in
    let workers = options.parallel_workers in
    let spb =
      if is_positive workers then put_int32 spb isc_spb_bkp_parallel_workers workers else spb in
    if verbose then put_tag spb isc_spb_verbose else spb

unfoldable pub restore_mask : RestoreOptions → ℕ
restore_mask o =
    let mask = or_flag_if o.replace isc_spb_res_replace 0 in
    let mask = or_flag_if (not o.replace) isc_spb_res_create mask in
    let mask = or_flag_if o.deactivate_indexes isc_spb_res_deactivate_idx mask in
    let mask = or_flag_if (not o.restore_shadows) isc_spb_res_no_shadow mask in
    let mask = or_flag_if (not o.enforce_constraints) isc_spb_res_no_validity mask in
    let mask = or_flag_if o.commit_after_each_table isc_spb_res_one_at_a_time mask in
    or_flag_if o.use_all_page_space isc_spb_res_use_all_space mask

unfoldable pub restore : List ℕ → List ℕ → RestoreOptions → Bool → List ℕ
restore file database options verbose =
    let spb = writer_from_tag isc_action_svc_restore in
    let spb = put_string spb isc_spb_dbname database in
    let spb = put_string spb isc_spb_bkp_file file in
    let spb = put_int32 spb isc_spb_options (pos (restore_mask options)) in
    let workers = options.parallel_workers in
    let spb =
      if is_positive workers then put_int32 spb isc_spb_res_parallel_workers workers else spb in
    let spb = if verbose then put_tag spb isc_spb_verbose else spb in
    let spb =
      if is_positive options.page_size
      then put_int32 spb isc_spb_res_page_size options.page_size
      else spb in
    if is_positive options.cache_buffers
    then put_int32 spb isc_spb_res_buffers options.cache_buffers
    else spb
