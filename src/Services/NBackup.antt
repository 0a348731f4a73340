-- ===== src/Services/NBackup.antt =====
-- nbackup_manager.go: nbackup's backup, restore and fixup.
use firebirdsql_go.Base.{
  ℕ, ℤ, pos, negsuc, Bool, true, false, not, ◌&&◌, List, [], ◌∷◌, ◌==◌, if◌then◌else◌,
}
use firebirdsql_go.Xpb.{writer_from_tag, put_string, put_int32}
use firebirdsql_go.Services.{or_flag_if, to_int32, apply_options, is_empty}
use firebirdsql_go.Services.Consts.{
  isc_action_svc_nbak, isc_action_svc_nfix, isc_action_svc_nrest, isc_spb_dbname, isc_spb_nbk_file,
  isc_spb_nbk_guid, isc_spb_nbk_inplace, isc_spb_nbk_level, isc_spb_nbk_no_triggers,
  isc_spb_nbk_sequence, isc_spb_options,
}

pub record NBackupOptions : Type 0 where
  pub level : ℤ
  pub guid : List ℕ
  pub no_db_triggers : Bool
  pub in_place_restore : Bool
  pub preserve_sequence : Bool

abbrev pub NBackupOption : Type 0
NBackupOption = NBackupOptions → NBackupOptions

abbrev get_default_nbackup_options : NBackupOptions
get_default_nbackup_options = record {
  level = negsuc 0;
  guid = [];
  no_db_triggers = false;
  in_place_restore = false;
  preserve_sequence = false;
}

-- The method `GetOptionsMask`.
unfoldable pub get_options_mask : NBackupOptions → ℕ
get_options_mask o =
    let mask = or_flag_if o.no_db_triggers isc_spb_nbk_no_triggers 0 in
    let mask = or_flag_if o.in_place_restore isc_spb_nbk_inplace mask in
    or_flag_if o.preserve_sequence isc_spb_nbk_sequence mask

abbrev pub with_level : ℤ → NBackupOption
with_level level opts = record opts { level = to_int32 level }

abbrev pub with_guid : List ℕ → NBackupOption
with_guid guid opts = record opts { guid = guid }

abbrev pub without_db_triggers : NBackupOption
without_db_triggers opts = record opts { no_db_triggers = true }

abbrev pub with_db_triggers : NBackupOption
with_db_triggers opts = record opts { no_db_triggers = false }

abbrev pub with_in_place_restore : NBackupOption
with_in_place_restore opts = record opts { in_place_restore = true }

abbrev pub with_place_restore : NBackupOption
with_place_restore opts = record opts { in_place_restore = false }

abbrev pub with_preserve_sequence : NBackupOption
with_preserve_sequence opts = record opts { preserve_sequence = true }

abbrev pub without_preserve_sequence : NBackupOption
without_preserve_sequence opts = record opts { preserve_sequence = false }

abbrev pub new_nbackup_options : List NBackupOption → NBackupOptions
new_nbackup_options opts = apply_options get_default_nbackup_options opts

-- Go's `n < 0`.
abbrev pub is_negative : ℤ → Bool
is_negative (pos n) = false
is_negative (negsuc n) = true

unfoldable pub put_options : List ℕ → NBackupOptions → List ℕ
unfolding get_options_mask
put_options spb options =
    let mask = get_options_mask options in
    if not (mask == 0) then put_int32 spb isc_spb_options (pos mask) else spb

unfoldable pub nbackup : List ℕ → List ℕ → NBackupOptions → List ℕ
unfolding put_options
nbackup database file options =
    let spb = writer_from_tag isc_action_svc_nbak in
    let spb = put_string spb isc_spb_dbname database in
    let spb = put_string spb isc_spb_nbk_file file in
    let level =
      if is_negative options.level && is_empty options.guid then pos 0 else options.level in
    let spb = put_int32 spb isc_spb_nbk_level level in
    let spb =
      if not (is_empty options.guid) then put_string spb isc_spb_nbk_guid options.guid else spb in
    put_options spb options

-- The loop over the files of a backup.
abbrev pub put_files : List ℕ → List (List ℕ) → List ℕ
put_files spb [] = spb
put_files spb (file ∷ files) = put_files (put_string spb isc_spb_nbk_file file) files

unfoldable pub nrestore : List (List ℕ) → List ℕ → NBackupOptions → List ℕ
unfolding put_options
nrestore backups database options =
    let spb = writer_from_tag isc_action_svc_nrest in
    let spb = put_string spb isc_spb_dbname database in
    let spb = put_files spb backups in put_options spb options

unfoldable pub fixup : List ℕ → NBackupOptions → List ℕ
unfolding put_options
fixup database options =
    let spb = writer_from_tag isc_action_svc_nfix in
    let spb = put_string spb isc_spb_dbname database in put_options spb options
