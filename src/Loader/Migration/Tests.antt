-- ===== src/Loader/Migration/Tests.antt =====
-- The laws of ranges and migrations at a concrete loader, whose source refuses everything.
use scylla_cluster_sync_cxx.Prelude.{
  All, Bool, List, Option, Text, [], arith, codes, contains, false, fetch_add, if◌then◌else◌,
  is_empty, length, none, ◌++◌, refl, some, suc, take, text_eq, true, ◌+◌, ◌↔◌, ◌∷◌, ◌≡◌, ◌≤◌, ◌⊎◌,
}
use scylla_cluster_sync_cxx.Prelude.Int.{pos}
use scylla_cluster_sync_cxx.Loader.Filter
use scylla_cluster_sync_cxx.Loader.Filter.{Governor}
use scylla_cluster_sync_cxx.Loader.Migration.{
  Control, pause, resume, discover_partition_keys, is_skip_table, look, migrate_batches,
  migrate_tables, skips, start_migration, stop, tables_to_migrate,
}
use scylla_cluster_sync_cxx.Loader.Migration.Laws.{stop_runs_one_more_batch}
use scylla_cluster_sync_cxx.Loader.Migration.Pause.{joined, run_batches, migrate_batches_resumed}
use scylla_cluster_sync_cxx.Loader.Migration.Tables.{start_migration_outcome}
use scylla_cluster_sync_cxx.Loader.Ranges.{
  SsTableLoader, TableConfig, filter_json_row, process_range_sync, read_unpaged, run_range,
}
use scylla_cluster_sync_cxx.Loader.Threads.{Thread, run_batch}
use mathlib.Core.List.Perm
use scylla_cluster_sync_cxx.Loader.Ranges.Laws.{Passes, filter_json_row_iff, run_range_failure}
use scylla_cluster_sync_cxx.Loader.TokenRange.{TokenRange, calculate_ranges}
use scylla_cluster_sync_cxx.Svckit.Database.{Connection, execute}
use scylla_cluster_sync_cxx.Svckit.Database.Tests.{online, refuses_all, refuses_bad}
use scylla_cluster_sync_cxx.Svckit.Errors.{
  Result, SyncError, database_error, migration_error, ok, throw,
}

abbrev secret_table : TableConfig
secret_table = record { name = codes "ks.secret"; partition_key = codes "id" ∷ [] }

abbrev sample_blacklist : Governor
sample_blacklist = record {
  table_blacklist = codes "ks.secret" ∷ [];
  tenant_blacklist = codes "t9" ∷ [];
  tenant_id_columns = codes "tenant" ∷ [];
  config = record {
    tenant_blacklist = codes "t9" ∷ [];
    table_blacklist = codes "ks.secret" ∷ [];
    tenant_id_columns = codes "tenant" ∷ [];
  };
  stats = record { tables_skipped = 0; rows_skipped = 0; rows_allowed = 0 };
}

abbrev idle : SsTableLoader
idle = record {
  config = record {
    tables = secret_table ∷ [];
    num_ranges_per_core = 1;
    max_concurrent_loaders = 2;
    max_retries = 3;
    enable_pagination = false;
    page_retry_attempts = 3;
    tenant_id_columns = codes "tenant" ∷ [];
  };
  source = online refuses_all;
  target = online refuses_bad;
  filter = some sample_blacklist;
  total_rows = 0;
  migrated_rows = 0;
  failed_rows = 0;
  filtered_rows = 0;
  tables_completed = 0;
  tables_total = 0;
  tables_skipped = 0;
  skipped_ranges = 0;
  is_running = false;
  is_paused = false;
}

abbrev pub running : SsTableLoader
running = record idle { is_running = true }

abbrev paused : SsTableLoader
paused = record running { is_paused = true }

abbrev first_range : TokenRange
first_range = record { start = pos 0; end = pos 9 }

abbrev second_range : TokenRange
second_range = record { start = pos 10; end = pos 19 }

abbrev id_key : List Text
id_key = codes "id" ∷ []

abbrev two_ranges : List TokenRange
two_ranges = first_range ∷ second_range ∷ []

abbrev refusal : SyncError
refusal = database_error (codes "Query execution failed: unavailable")

abbrev tenant_row : Text → Option Text
tenant_row column = some (codes "t9")

abbrev parse_row : Text → Option (Text → Option Text)
parse_row text = some tenant_row

abbrev started_ok : Result (Unit {0})
started_ok = ok tt

abbrev stop_at_once : List (List Control)
stop_at_once = (stop ∷ []) ∷ []

abbrev skipped_secret : SsTableLoader
skipped_secret = record idle {
  filter = some (record sample_blacklist {
    stats = record { tables_skipped = 1; rows_skipped = 0; rows_allowed = 0 };
  });
  tables_skipped = 1;
  tables_total = 1;
}

abbrev keys_source : Connection
keys_source = (discover_partition_keys (codes "ks") (codes "t") (online refuses_all)).1

abbrev stopped_table : SsTableLoader
stopped_table = record idle {
  source = (calculate_ranges keys_source 1).1;
  tables_completed = 1;
  tables_total = 1;
}

-- A pause before the first batch, a look that nobody calls before, and a resumption.
abbrev paused_then_resumed : List (List Control)
paused_then_resumed = (pause ∷ []) ∷ [] ∷ (resume ∷ []) ∷ []

-- The last thread first.
abbrev last_first : List Thread → List Thread
last_first [] = []
last_first (t ∷ ts) = last_first ts ++ (t ∷ [])

stop_runs_one_more_batch_example :
    migrate_batches last_first
      (suc (suc 0))
      1
      (codes "ks.t")
      id_key
      (first_range ∷ [])
      ([] ∷ (stop ∷ []) ∷ [])
      paused
    ≡ some (
      [],
      run_batch last_first
          (codes "ks.t")
          id_key
          (take 1 (first_range ∷ []))
          (record paused { is_running = false }),
    )
stop_runs_one_more_batch_example =
    stop_runs_one_more_batch last_first 0 1 (codes "ks.t") id_key first_range [] paused refl refl

run_range_failure_example :
    let l' = run_range (codes "ks.t") id_key first_range running in
    l' ≡ (
      if running.config.enable_pagination
      then record running {
        source = l'.source;
        skipped_ranges = fetch_add running.skipped_ranges 1;
      }
      else record running {
        source = l'.source;
        failed_rows = fetch_add running.failed_rows 1;
        skipped_ranges = fetch_add (fetch_add running.skipped_ranges 1) 1;
      })
unfolding process_range_sync read_unpaged execute
run_range_failure_example = run_range_failure (codes "ks.t") id_key first_range running refusal refl

filter_json_row_iff_example :
    let (skip, l') = filter_json_row parse_row (codes "row") id_key running in
    ((skip ≡ false) ↔ (
      (Filter.is_enabled sample_blacklist ≡ false)
      ⊎ (is_empty id_key ≡ true)
      ⊎ (parse_row (codes "row") ≡ none)
      ⊎ ((row : Text → Option Text) × (parse_row (codes "row") ≡ some row)
          × All (Passes sample_blacklist.tenant_blacklist row) id_key)))
    × (l'.filtered_rows
        ≡ (if skip then fetch_add running.filtered_rows 1 else running.filtered_rows))
filter_json_row_iff_example =
    filter_json_row_iff parse_row (codes "row") id_key running sample_blacklist refl

start_migration_outcome_example :
    ((idle.is_running ≡ true)
      × (started_ok ≡ throw (migration_error (codes "Migration already running")))
      × (skipped_secret ≡ idle))
    ⊎ ((idle.is_running ≡ false)
        × (started_ok ≡ ok tt)
        × (skipped_secret.is_running ≡ false)
        × (skipped_secret.tables_total ≡ length (tables_to_migrate [] idle.config.tables))
        × (skipped_secret.tables_completed + skipped_secret.tables_skipped
            ≤ skipped_secret.tables_total))
unfolding start_migration migrate_tables tables_to_migrate skips is_skip_table look
    Filter.should_skip_table Filter.count_table_skipped contains text_eq fetch_add
start_migration_outcome_example =
    start_migration_outcome last_first [] [] idle skipped_secret started_ok (omega arith) refl

migrate_batches_resumed_example :
    (batches : List (List TokenRange)) × (joined batches ≡ two_ranges)
    × All (λ batch. length batch ≤ 1) batches
    × (rest : List (List Control)) × (paused : Bool) × (migrate_batches last_first 3 1
          (codes "ks.t")
          id_key
          two_ranges
          paused_then_resumed
          running
        ≡ some (
          rest,
          record (run_batches last_first (codes "ks.t") id_key batches running) {
            is_paused = paused;
          },
        ))
migrate_batches_resumed_example =
    migrate_batches_resumed last_first (codes "ks.t") id_key 3 1 two_ranges paused_then_resumed
      running (omega arith) (omega arith) refl (tt, (tt, (tt, tt))) refl
