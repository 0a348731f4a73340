-- ===== src/Services/Masks.antt =====
-- The masks that the managers build bit by bit, as sums of weights. Each is a fact about a few
-- Booleans, which all their values decide.
use firebirdsql_go.Base.{
  ◌∙◌, sym, not, ◌||◌, ℕ, ◌≡◌, refl, ℤ, Bool, true, false, ◌&&◌, ◌==◌, ==_iff, List, [], ◌∷◌, arith,
}
use firebirdsql_go.Services.{or_flag_if}
use firebirdsql_go.Services.Backup.{BackupOptions, backup_mask, RestoreOptions, restore_mask}
use firebirdsql_go.Services.NBackup.{NBackupOptions, get_options_mask}
use firebirdsql_go.Services.Stats.{StatisticsOptions, stats_mask, only_header}
use firebirdsql_go.Services.Requests.{weigh, backup_bits, restore_bits, nbackup_bits, stats_bits}

abbrev both : (Bool → Bool) → Bool
both p = p true && p false

both→each : (p : Bool → Bool) → both p ≡ true → (b : Bool) → p b ≡ true
both→each p h true = ground arith
both→each p h false = ground arith

-- The same of two bits, and so on.
abbrev both2 : (Bool → Bool → Bool) → Bool
both2 p = both (λ a. both (p a))

both2→each : (p : Bool → Bool → Bool) → both2 p ≡ true → (a b : Bool) → p a b ≡ true
both2→each p h a b = both→each (p a) (both→each (λ c. both (p c)) h a) b

abbrev both4 : (Bool → Bool → Bool → Bool → Bool) → Bool
both4 p = both2 (λ a b. both2 (p a b))

both4→each :
    (p : Bool → Bool → Bool → Bool → Bool) → both4 p ≡ true → (a b c d : Bool) → p a b c d ≡ true
both4→each p h a b c d = both2→each (p a b) (both2→each (λ x y. both2 (p x y)) h a b) c d

backup_agrees : ℤ → (a b c d e f g h : Bool) → Bool
unfolding backup_mask
backup_agrees n a b c d e f g h =
    let o : BackupOptions = record {
      ignore_checksums = a;
      ignore_limbo_transactions = b;
      metadata_only = c;
      garbage_collect = d;
      transportable = e;
      convert_external_tables_to_internal_tables = f;
      expand = g;
      zip = h;
      parallel_workers = n;
    } in
    backup_mask o == weigh (backup_bits o)

pub backup_mask-weigh : (o : BackupOptions) → backup_mask o ≡ weigh (backup_bits o)
unfolding backup_agrees or_flag_if
backup_mask-weigh o = (==_iff _ _).0 (
    both4→each
      (backup_agrees o.parallel_workers o.ignore_checksums o.ignore_limbo_transactions
        o.metadata_only o.garbage_collect)
      (both4→each (λ a b c d. both4 (backup_agrees o.parallel_workers a b c d)) refl
        o.ignore_checksums o.ignore_limbo_transactions o.metadata_only o.garbage_collect)
      o.transportable o.convert_external_tables_to_internal_tables o.expand o.zip)

restore_agrees : (n m k : ℤ) (a b c d e f : Bool) → Bool
unfolding restore_mask
restore_agrees n m k a b c d e f =
    let o : RestoreOptions = record {
      replace = a;
      deactivate_indexes = b;
      restore_shadows = c;
      enforce_constraints = d;
      commit_after_each_table = e;
      use_all_page_space = f;
      page_size = n;
      cache_buffers = m;
      parallel_workers = k;
    } in
    restore_mask o == weigh (restore_bits o)

pub restore_mask-weigh : (o : RestoreOptions) → restore_mask o ≡ weigh (restore_bits o)
unfolding restore_agrees or_flag_if
restore_mask-weigh o =
    let agrees = restore_agrees o.page_size o.cache_buffers o.parallel_workers in
    (==_iff _ _).0 (
      both2→each (agrees o.replace o.deactivate_indexes o.restore_shadows o.enforce_constraints)
        (both4→each (λ a b c d. both2 (agrees a b c d)) refl o.replace o.deactivate_indexes
          o.restore_shadows o.enforce_constraints)
        o.commit_after_each_table o.use_all_page_space)

nbackup_agrees : ℤ → List ℕ → (a b c : Bool) → Bool
unfolding get_options_mask
nbackup_agrees n g a b c =
    let o : NBackupOptions = record {
      level = n;
      guid = g;
      no_db_triggers = a;
      in_place_restore = b;
      preserve_sequence = c;
    } in
    get_options_mask o == weigh (nbackup_bits o)

pub get_options_mask-weigh : (o : NBackupOptions) → get_options_mask o ≡ weigh (nbackup_bits o)
unfolding nbackup_agrees or_flag_if
get_options_mask-weigh o =
    let agrees = nbackup_agrees o.level o.guid in
    (==_iff _ _).0 (
      both→each (agrees o.no_db_triggers o.in_place_restore)
        (both2→each (λ a b. both (agrees a b)) refl o.no_db_triggers o.in_place_restore)
        o.preserve_sequence)

stats_agrees : List (List ℕ) → (a b c d e : Bool) → Bool
unfolding stats_mask only_header
stats_agrees ts a b c d e =
    let o : StatisticsOptions = record {
      user_data_pages = a;
      user_index_pages = b;
      only_header_pages = c;
      system_relations_and_indexes = d;
      record_versions = e;
      tables = ts;
    } in
    stats_mask (only_header o) == weigh (stats_bits o)

stats_agree : (ts : List (List ℕ)) → both4 (λ a b c d. both (stats_agrees ts a b c d)) ≡ true
unfolding stats_agrees or_flag_if
stats_agree [] = refl
stats_agree (t ∷ ts) = refl

pub stats_mask-weigh : (o : StatisticsOptions) → stats_mask (only_header o) ≡ weigh (stats_bits o)
unfolding stats_agrees
stats_mask-weigh o =
    let agrees = stats_agrees o.tables in
    (==_iff _ _).0 (
      both→each
        (agrees o.user_data_pages o.user_index_pages o.only_header_pages
          o.system_relations_and_indexes)
        (both4→each (λ a b c d. both (agrees a b c d)) (stats_agree o.tables) o.user_data_pages
          o.user_index_pages o.only_header_pages o.system_relations_and_indexes)
        o.record_versions)

-- With the option to expand, the mask that a backup sends does not say whether garbage is to be
-- collected.
expand_hides_garbage_collect :
    (o : BackupOptions) (b : Bool)
    → o.expand ≡ true
    → backup_mask (record o { garbage_collect = b }) ≡ backup_mask o
expand_hides_garbage_collect o b e =
    backup_mask-weigh (record o { garbage_collect = b }) ∙ same ∙ sym (backup_mask-weigh o)
  where
    eight : (g : Bool) → (not g || o.expand) ≡ true
    eight true = e
    eight false = refl

    same : weigh (backup_bits (record o { garbage_collect = b })) ≡ weigh (backup_bits o)
    same = rw (eight b, eight o.garbage_collect)
