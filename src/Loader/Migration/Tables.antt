-- ===== src/Loader/Migration/Tables.antt =====
-- How a migration counts its tables, and when it is refused
-- (services/sstable-loader/src/loader.cpp).
use scylla_cluster_sync_cxx.Prelude.{
  ℕ, zero, suc, ◌+◌, ◌≤◌, ◌<◌, ◌^◌, ◌≡◌, ◌⊎◌, inl, inr, arith, true, false, some, List, [], ◌∷◌,
  ◌++◌, Text, codes, length, take, drop, fetch_add, fetch_add_lem, Option-cases,
}
use scylla_cluster_sync_cxx.Svckit.Errors.{migration_error, Result, ok, throw}
use scylla_cluster_sync_cxx.Loader.TokenRange.{TokenRange, calculate_ranges}
use scylla_cluster_sync_cxx.Loader.Ranges.{TableConfig, SsTableLoader}
use scylla_cluster_sync_cxx.Loader.Threads.{Thread, run_batch}
use scylla_cluster_sync_cxx.Loader.Threads.Laws.{SameTables, run_batch_keeps}
use scylla_cluster_sync_cxx.Loader.Migration.{
  Control, pause, resume, stop, control, receive, look, pause_gate, migrate_batches, partition_keys,
  migrate_table, migrate_tables, skips, start_migration, migrate_single_table, tables_to_migrate,
}

receive_keeps : (cs : List Control) (l : SsTableLoader) → SameTables l (receive cs l)
unfolding receive control
receive_keeps [] l = ground arith
receive_keeps (pause ∷ cs) l = receive_keeps cs (control pause l)
receive_keeps (resume ∷ cs) l = receive_keeps cs (control resume l)
receive_keeps (stop ∷ cs) l = receive_keeps cs (control stop l)

look_keeps : (arrivals : List (List Control)) (l : SsTableLoader) → SameTables l (look arrivals l).1
unfolding look
look_keeps [] l = ground arith
look_keeps (cs ∷ arrivals) l = receive_keeps cs l

pause_gate_keeps :
    (arrivals rest : List (List Control)) (l l' : SsTableLoader)
    → pause_gate arrivals l ≡ some (rest, l')
    → SameTables l l'
unfolding pause_gate
pause_gate_keeps [] rest l l' h = ground arith
pause_gate_keeps (cs ∷ arrivals) rest l l' h =
    ground (arith, pause_gate_keeps arrivals rest (receive cs l) l', receive_keeps cs l)

migrate_batches_keeps :
    (schedule : List Thread → List Thread) (fuel p : ℕ) (table : Text) (keys : List Text)
    (rs : List TokenRange) (arrivals rest : List (List Control)) (l l' : SsTableLoader)
    → migrate_batches schedule fuel p table keys rs arrivals l ≡ some (rest, l')
    → SameTables l l'
unfolding migrate_batches
migrate_batches_keeps schedule zero p table keys rs arrivals rest l l' h = cc
migrate_batches_keeps schedule (suc fuel) p table keys [] arrivals rest l l' h = ground arith
migrate_batches_keeps schedule (suc fuel) p table keys (r ∷ rs) arrivals rest l l' h =
    let looked = look arrivals l in
    elim (Option-cases (pause_gate looked.0 looked.1)) [
      | inl asleep ↦ ground (arith, look_keeps arrivals l)
      | inr ((arrivals2, l2), e) ↦ ground (
        arith,
        look_keeps arrivals l,
        pause_gate_keeps looked.0 arrivals2 looked.1 l2 e,
        run_batch_keeps schedule table keys (take p (r ∷ rs)) l2,
        migrate_batches_keeps schedule fuel p table keys (drop p (r ∷ rs)) arrivals2 rest
            (run_batch schedule table keys (take p (r ∷ rs)) l2) l',
      )
    ]

migrate_table_keeps :
    (schedule : List Thread → List Thread) (t : TableConfig) (arrivals rest : List (List Control))
    (l l' : SsTableLoader)
    → migrate_table schedule t arrivals l ≡ some (rest, l')
    → SameTables l l'
unfolding migrate_table
migrate_table_keeps schedule t arrivals rest l l' h =
    let (keys, source1) = partition_keys t l.source in
    let (ranges, source2) = calculate_ranges source1 l.config.num_ranges_per_core in
    elim (Option-cases ranges) [
      | inl e ↦ ground arith
      | inr (rs, e) ↦ ground (
        arith,
        migrate_batches_keeps schedule (suc (length rs)) l.config.max_concurrent_loaders t.name keys
            rs arrivals rest (record l { source = source2 }) l',
      )
    ]

skips_keeps : (name : Text) (l : SsTableLoader) → SameTables l (skips name l).1
unfolding skips
skips_keeps name l = ground arith

-- The loop over the tables counts each table that it reaches once, as completed or as skipped,
-- whether or not its ranges could be read: at the end the two counters have grown by the number of
-- tables, or by no more than that and the loader was stopped.
pub migrate_tables_counts :
    (schedule : List Thread → List Thread) (tables : List TableConfig)
    (arrivals rest : List (List Control)) (l l' : SsTableLoader)
    → l.tables_completed + l.tables_skipped + length tables < 2 ^ 64
    → migrate_tables schedule tables arrivals l ≡ some (rest, l')
    → (l'.tables_total ≡ l.tables_total)
      × (((l'.is_running ≡ false)
            × (l'.tables_completed + l'.tables_skipped
                ≤ l.tables_completed + l.tables_skipped + length tables))
          ⊎ (l'.tables_completed + l'.tables_skipped
              ≡ l.tables_completed + l.tables_skipped + length tables))
unfolding migrate_tables
migrate_tables_counts schedule [] arrivals rest l l' small h = ground arith
migrate_tables_counts schedule (t ∷ ts) arrivals rest l l' small h =
    let (arrivals1, l1) = look arrivals l in
    let l2 = (skips t.name l1).1 in
    let skipped = record l2 { tables_skipped = fetch_add l2.tables_skipped 1 } in
    elim (Option-cases (migrate_table schedule t arrivals1 l2)) [
      | inl e ↦ ground (
        arith,
        look_keeps arrivals l,
        skips_keeps t.name l1,
        fetch_add_lem l2.tables_skipped 1,
        migrate_tables_counts schedule ts arrivals1 rest skipped l',
      )
      | inr ((arrivals2, l3), e) ↦ ground (
        arith,
        look_keeps arrivals l,
        skips_keeps t.name l1,
        fetch_add_lem l2.tables_skipped 1,
        fetch_add_lem l3.tables_completed 1,
        migrate_table_keeps schedule t arrivals1 arrivals2 l2 l3 e,
        migrate_tables_counts schedule ts arrivals1 rest skipped l',
        migrate_tables_counts schedule ts arrivals2 rest
            (record l3 { tables_completed = fetch_add l3.tables_completed 1 }) l',
      )
    ]

-- Let fewer than 2^64 tables match. A migration that is started while one runs is refused and changes
-- nothing. One that is started otherwise and comes to an end is no longer running; it has reset the
-- counters of tables, and set the total to the number of the tables that match; and it has counted
-- at most these as completed or skipped.
pub start_migration_outcome :
    (schedule : List Thread → List Thread) (filters : List Text) (arrivals : List (List Control))
    (l l' : SsTableLoader) (r : Result (Unit {0}))
    → length (tables_to_migrate filters l.config.tables) < 2 ^ 64
    → start_migration schedule filters arrivals l ≡ some (r, l')
    → ((l.is_running ≡ true)
        × (r ≡ throw (migration_error (codes "Migration already running")))
        × (l' ≡ l))
      ⊎ ((l.is_running ≡ false)
          × (r ≡ ok tt)
          × (l'.is_running ≡ false)
          × (l'.tables_total ≡ length (tables_to_migrate filters l.config.tables))
          × (l'.tables_completed + l'.tables_skipped ≤ l'.tables_total))
unfolding start_migration
start_migration_outcome schedule filters arrivals l l' r small h =
    let tables = tables_to_migrate filters l.config.tables in
    let started = record l {
      total_rows = 0;
      migrated_rows = 0;
      failed_rows = 0;
      filtered_rows = 0;
      tables_completed = 0;
      tables_skipped = 0;
      skipped_ranges = 0;
      tables_total = length tables;
      is_running = true;
    } in
    elim (Option-cases (migrate_tables schedule tables arrivals started)) [
      | inl e ↦ ground arith
      | inr ((rest, m), e) ↦
          let bound : 0 + 0 + length tables < 2 ^ 64 = omega (arith, small) in
          ground (arith, migrate_tables_counts schedule tables arrivals rest started m bound e)
    ]

-- A single-table migration that is accepted and comes to an end leaves the loader not running, with a
-- total of one table; it keeps the counters of completed and skipped tables of the migrations before
-- it, and only adds the one table to the completed ones.
pub migrate_single_table_accumulates :
    (schedule : List Thread → List Thread) (keyspace table : Text) (arrivals : List (List Control))
    (l l' : SsTableLoader)
    → migrate_single_table schedule keyspace table arrivals l ≡ some (ok tt, l')
    → (l'.is_running ≡ false)
      × (l'.tables_total ≡ 1)
      × (l'.tables_completed ≡ fetch_add l.tables_completed 1)
      × (l'.tables_skipped ≡ l.tables_skipped)
unfolding migrate_single_table
migrate_single_table_accumulates schedule keyspace table arrivals l l' h =
    let name = keyspace ++ (b'.' ∷ table) in
    let config : TableConfig = record { name = name; partition_key = [] } in
    let started = record l {
      total_rows = 0;
      migrated_rows = 0;
      failed_rows = 0;
      filtered_rows = 0;
      tables_total = 1;
      is_running = true;
    } in
    elim (Option-cases (migrate_table schedule config arrivals started)) [
      | inl e ↦ ground arith
      | inr ((rest, m), e) ↦
          ground (arith, migrate_table_keeps schedule config arrivals rest started m e)
    ]
