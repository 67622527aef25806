-- ===== src/Loader/Migration.antt =====
-- services/sstable-loader/src/loader.cpp: migrate_table, migrate_single_table, start_migration and
-- stop_migration. Calls of pause, resume and stop arrive while a migration runs: `arrivals` lists
-- those before each look at the flags, in turn; `schedule` orders the threads of a batch. A
-- migration gives `none` where it does not come to an end: on the division by zero in
-- calculate_ranges, asleep with no more calls, or with no fuel.
pub mod Laws
pub mod Pause
pub mod Tables
pub mod Tests
use scylla_cluster_sync_cxx.Prelude.{
  ℕ, zero, suc, ◌+◌, ◌||◌, Bool, true, false, Option, none, some, List, [], ◌∷◌, ◌++◌,
  if◌then◌else◌, Text, codes, text_eq, split_first, length, take, drop, is_empty, fetch_add,
}
use scylla_cluster_sync_cxx.Svckit.Errors.{SyncError, migration_error, Result, ok, throw}
use scylla_cluster_sync_cxx.Svckit.Types.{
  FilterDecision, allow, skip_table, skip_tenant, source_only_read,
}
use scylla_cluster_sync_cxx.Svckit.Database.{Connection, execute}
use scylla_cluster_sync_cxx.Loader.Filter
use scylla_cluster_sync_cxx.Loader.Filter.{Governor}
use scylla_cluster_sync_cxx.Loader.TokenRange.{TokenRange, calculate_ranges}
use scylla_cluster_sync_cxx.Loader.Ranges.{TableConfig, LoaderConfig, SsTableLoader}
use scylla_cluster_sync_cxx.Loader.Threads.{Thread, run_batch}

pub data Control : Type 0 where
  pause resume stop : Control

unfoldable pub control : Control → SsTableLoader → SsTableLoader
control pause l = record l { is_paused = true }
control resume l = record l { is_paused = false }
control stop l = record l { is_running = false }

-- The calls that arrive before one look at the flags.
unfoldable pub receive : List Control → SsTableLoader → SsTableLoader
receive [] l = l
receive (c ∷ cs) l = receive cs (control c l)

-- What is left of the arrivals, and the loader.
abbrev pub Progress : Type 0
Progress = List (List Control) × SsTableLoader

-- One look: the next calls arrive.
unfoldable pub look : List (List Control) → SsTableLoader → Progress
look [] l = ([], l)
look (cs ∷ arrivals) l = (arrivals, receive cs l)

-- The pause gate, from the look that leaves `l`: it sleeps while the loader is paused and runs.
unfoldable pub pause_gate : List (List Control) → SsTableLoader → Option Progress
pause_gate [] l =
    if l.is_paused then (if l.is_running then none else some ([], l)) else some ([], l)
pause_gate (cs ∷ arrivals) l =
    let later = pause_gate arrivals (receive cs l) in
    if l.is_paused
    then (if l.is_running then later else some (cs ∷ arrivals, l))
    else some (cs ∷ arrivals, l)

-- The loop over the batches of `p` ranges.
unfoldable pub migrate_batches :
    (List Thread → List Thread)
    → ℕ
    → ℕ
    → Text
    → List Text
    → List TokenRange
    → List (List Control)
    → SsTableLoader
    → Option Progress
unfolding look pause_gate
migrate_batches schedule zero p table keys ranges arrivals l = none
migrate_batches schedule (suc fuel) p table keys [] arrivals l = some (arrivals, l)
migrate_batches schedule (suc fuel) p table keys (r ∷ rs) arrivals l =
    let (arrivals1, l1) = look arrivals l in
    if l1.is_running
    then elim (pause_gate arrivals1 l1) [
      | none ↦ none
      | some (arrivals2, l2) ↦
          migrate_batches schedule fuel p table keys (drop p (r ∷ rs)) arrivals2
            (run_batch schedule table keys (take p (r ∷ rs)) l2)
    ]
    else some (arrivals1, l1)

-- discover_partition_keys: whatever the source answers, the default key.
unfoldable pub discover_partition_keys : Text → Text → Connection → List Text × Connection
discover_partition_keys keyspace table source =
    let query =
      codes "SELECT column_name, position FROM system_schema.columns WHERE keyspace_name = '"
      ++ (keyspace
          ++ (codes "' AND table_name = '"
              ++ (table ++ codes "' AND kind = 'partition_key' ALLOW FILTERING"))) in
    let (r, source') = execute source query in (codes "id" ∷ [], source')

unfoldable pub partition_keys : TableConfig → Connection → List Text × Connection
unfolding discover_partition_keys
partition_keys table source =
    if is_empty table.partition_key
    then elim (split_first b'.' table.name) [
      | none ↦ (codes "id" ∷ [], source)
      | some (keyspace, name) ↦ discover_partition_keys keyspace name source
    ]
    else (table.partition_key, source)

-- migrate_table. A fuel of one more than the ranges is enough unless no loaders are allowed.
unfoldable pub migrate_table :
    (List Thread → List Thread)
    → TableConfig
    → List (List Control)
    → SsTableLoader
    → Option Progress
unfolding partition_keys migrate_batches
migrate_table schedule table arrivals l =
    let (keys, source1) = partition_keys table l.source in
    let (ranges, source2) = calculate_ranges source1 l.config.num_ranges_per_core in
    let l1 = record l { source = source2 } in
    elim ranges [
      | none ↦ none
      | some rs ↦
          migrate_batches schedule (suc (length rs)) l.config.max_concurrent_loaders table.name keys
            rs arrivals l1
    ]

keyspace_of : Text → Text
keyspace_of name = elim (split_first b'.' name) [ none ↦ [] | some (keyspace, table) ↦ keyspace ]

unfoldable pub matches_any : List Text → Text → Bool
unfolding keyspace_of
matches_any [] name = false
matches_any (f ∷ fs) name = text_eq f (keyspace_of name) || (text_eq f name || matches_any fs name)

unfoldable pub matching_tables : List Text → List TableConfig → List TableConfig
unfolding matches_any
matching_tables filters [] = []
matching_tables filters (t ∷ ts) =
    let rest = matching_tables filters ts in if matches_any filters t.name then t ∷ rest else rest

unfoldable pub tables_to_migrate : List Text → List TableConfig → List TableConfig
unfolding matching_tables
tables_to_migrate filters tables =
    if is_empty filters then tables else matching_tables filters tables

unfoldable pub is_skip_table : FilterDecision → Bool
is_skip_table skip_table = true
is_skip_table allow = false
is_skip_table skip_tenant = false
is_skip_table source_only_read = false

-- The filter gate: whether the table is skipped, and the loader with the governor's counters.
unfoldable pub skips : Text → SsTableLoader → Bool × SsTableLoader
unfolding is_skip_table
skips name l = elim l.filter [
  | none ↦ (false, l)
  | some g ↦
      let (decision, g1) = Filter.should_skip_table g name in
      (is_skip_table decision, record l { filter = some g1 })
]

-- The loop over the tables.
unfoldable pub migrate_tables :
    (List Thread → List Thread)
    → List TableConfig
    → List (List Control)
    → SsTableLoader
    → Option Progress
unfolding look skips migrate_table
migrate_tables schedule [] arrivals l = some (arrivals, l)
migrate_tables schedule (t ∷ ts) arrivals l =
    let (arrivals1, l1) = look arrivals l in
    let (skip, l2) = skips t.name l1 in
    let skipped = record l2 { tables_skipped = fetch_add l2.tables_skipped 1 } in
    if l1.is_running
    then (if skip
        then migrate_tables schedule ts arrivals1 skipped
        else elim (migrate_table schedule t arrivals1 l2) [
          | none ↦ none
          | some (arrivals2, l3) ↦
              migrate_tables schedule ts arrivals2
                (record l3 { tables_completed = fetch_add l3.tables_completed 1 })
        ])
    else some (arrivals1, l1)

-- start_migration: the error, or what runs until the end of the loop over the tables.
unfoldable pub start_migration :
    (List Thread → List Thread)
    → List Text
    → List (List Control)
    → SsTableLoader
    → Option (Result (Unit {0}) × SsTableLoader)
unfolding tables_to_migrate migrate_tables
start_migration schedule filters arrivals l =
    let tables = tables_to_migrate filters l.config.tables in
    let started = record l {
      total_rows = 0;
      migrated_rows = 0;
      failed_rows = 0;
      filtered_rows = 0;
      tables_completed = 0;
      tables_skipped = 0;
      skipped_ranges = 0;
      tables_total = length tables;
      is_running = true;
    } in
    if l.is_running
    then some (throw (migration_error (codes "Migration already running")), l)
    else elim (migrate_tables schedule tables arrivals started) [
      | none ↦ none
      | some (rest, l') ↦ some (ok tt, record l' { is_running = false })
    ]

unfoldable pub stop_migration : SsTableLoader → Result (Unit {0}) × SsTableLoader
stop_migration l =
    if l.is_running
    then (ok tt, record l { is_running = false; is_paused = false })
    else (throw (migration_error (codes "No migration is running")), l)

-- migrate_single_table. No range throws out of migrate_table, so its handler is never reached.
unfoldable pub migrate_single_table :
    (List Thread → List Thread)
    → Text
    → Text
    → List (List Control)
    → SsTableLoader
    → Option (Result (Unit {0}) × SsTableLoader)
unfolding migrate_table
migrate_single_table schedule keyspace table arrivals l =
    let name = keyspace ++ (b'.' ∷ table) in
    let started = record l {
      total_rows = 0;
      migrated_rows = 0;
      failed_rows = 0;
      filtered_rows = 0;
      tables_total = 1;
      is_running = true;
    } in
    if l.is_running
    then some (throw (migration_error (codes "Migration already in progress")), l)
    else elim (migrate_table schedule (record { name = name; partition_key = [] }) arrivals
        started) [
          | none ↦ none
          | some (rest, l') ↦ some (
            ok tt,
            record l' { tables_completed = fetch_add l'.tables_completed 1; is_running = false },
          )
        ]
