-- ===== src/Services/Stats.antt =====
-- service_manager.go: the statistics of a database.
use firebirdsql_go.Base.{ℕ, pos, Bool, true, false, List, [], ◌∷◌, ◌++◌, if◌then◌else◌}
use firebirdsql_go.Xpb.{writer_from_tag, put_string, put_int32}
use firebirdsql_go.Services.{or_flag_if, apply_options}
use firebirdsql_go.Services.Consts.{
  isc_action_svc_db_stats, isc_spb_command_line, isc_spb_dbname, isc_spb_options,
  isc_spb_sts_data_pages, isc_spb_sts_hdr_pages, isc_spb_sts_idx_pages, isc_spb_sts_record_versions,
  isc_spb_sts_sys_relations, isc_spb_sts_table,
}

pub record StatisticsOptions : Type 0 where
  pub user_data_pages : Bool
  pub user_index_pages : Bool
  pub only_header_pages : Bool
  pub system_relations_and_indexes : Bool
  pub record_versions : Bool
  pub tables : List (List ℕ)

abbrev pub StatisticsOption : Type 0
StatisticsOption = StatisticsOptions → StatisticsOptions

abbrev get_default_statistics_options : StatisticsOptions
get_default_statistics_options = record {
  user_data_pages = true;
  user_index_pages = true;
  only_header_pages = false;
  system_relations_and_indexes = false;
  record_versions = false;
  tables = [];
}

abbrev pub with_user_data_pages : StatisticsOption
with_user_data_pages opts = record opts { user_data_pages = true }

abbrev pub without_user_data_pages : StatisticsOption
without_user_data_pages opts = record opts { user_data_pages = false }

abbrev pub with_user_index_pages : StatisticsOption
with_user_index_pages opts = record opts { user_index_pages = true }

abbrev pub without_index_pages : StatisticsOption
without_index_pages opts = record opts { user_index_pages = false }

abbrev pub with_only_header_pages : StatisticsOption
with_only_header_pages opts = record opts { only_header_pages = true }

abbrev pub without_only_header_pages : StatisticsOption
without_only_header_pages opts = record opts { only_header_pages = false }

abbrev pub with_system_relations_and_indexes : StatisticsOption
with_system_relations_and_indexes opts = record opts { system_relations_and_indexes = true }

abbrev pub without_system_relations_and_indexes : StatisticsOption
without_system_relations_and_indexes opts = record opts { system_relations_and_indexes = false }

abbrev pub with_record_versions : StatisticsOption
with_record_versions opts = record opts { record_versions = true }

abbrev pub without_record_versions : StatisticsOption
without_record_versions opts = record opts { record_versions = false }

abbrev pub with_tables : List (List ℕ) → StatisticsOption
with_tables tables opts = record opts { tables = tables }

abbrev pub new_statistics_options : List StatisticsOption → StatisticsOptions
new_statistics_options opts = apply_options get_default_statistics_options opts

-- Header pages alone switch the rest off.
unfoldable pub only_header : StatisticsOptions → StatisticsOptions
only_header o =
    if o.only_header_pages
    then record o {
      user_data_pages = false;
      user_index_pages = false;
      system_relations_and_indexes = false;
      record_versions = false;
    }
    else o

abbrev pub has_tables : StatisticsOptions → Bool
has_tables o = elim o.tables [ [] ↦ false | t ∷ ts ↦ true ]

unfoldable pub stats_mask : StatisticsOptions → ℕ
stats_mask o =
    let mask = or_flag_if o.user_data_pages isc_spb_sts_data_pages 0 in
    let mask = or_flag_if o.only_header_pages isc_spb_sts_hdr_pages mask in
    let mask = or_flag_if o.user_index_pages isc_spb_sts_idx_pages mask in
    let mask = or_flag_if o.system_relations_and_indexes isc_spb_sts_sys_relations mask in
    let mask = or_flag_if o.record_versions isc_spb_sts_record_versions mask in
    or_flag_if (has_tables o) isc_spb_sts_table mask

-- `strings.Join(tables, " ")`: the code point 32 between two names.
unfoldable pub join : List (List ℕ) → List ℕ
join [] = []
join (t ∷ []) = t
join (t ∷ u ∷ ts) = t ++ 32 ∷ join (u ∷ ts)

-- `doGetDbStats`, up to the block that it starts the service with.
unfoldable pub get_db_stats : List ℕ → StatisticsOptions → List ℕ
unfolding only_header stats_mask join
get_db_stats database options =
    let o = only_header options in
    let spb = writer_from_tag isc_action_svc_db_stats in
    let spb = put_string spb isc_spb_dbname database in
    let spb = put_int32 spb isc_spb_options (pos (stats_mask o)) in
    if has_tables o then put_string spb isc_spb_command_line (join o.tables) else spb
