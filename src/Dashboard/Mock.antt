-- ===== src/Dashboard/Mock.antt =====
-- services/tui-dash/src/mock.cpp: the generator of the demo mode. `Draws` holds what the random
-- numbers of one update are; a message that is not logged draws nothing that matters.
pub mod Laws
use scylla_cluster_sync_cxx.Prelude.{
  ℕ, zero, suc, ◌+◌, ◌*◌, ◌%◌, ◌^◌, min, Bool, true, false, ◌&&◌, ◌||◌, ◌==◌, not, Option, none,
  some, List, [], ◌∷◌, ◌++◌, ltb, leb, if◌then◌else◌, Text, codes, decimal, length, get_elem?,
  get_or,
}
use scylla_cluster_sync_cxx.Wire.{Floats}
use scylla_cluster_sync_cxx.Dashboard.State.{
  TableStatus, DashboardState, add_log, update_elapsed, update_progress, format_number,
}

pub record Draws (D : Type 0) : Type 0 where
  pub rows_per_tick : ℕ
  pub fail_dist : ℕ
  pub fail_count : ℕ
  pub tp_jitter : D
  pub prog_inc : D
  pub message : ℕ
  pub warn_chance : ℕ
  pub warning : ℕ

pub record Generator : Type 0 where
  pub tick_count : ℕ
  pub current_table_idx : ℕ
  pub started : Bool

abbrev pub new_generator : Generator
new_generator = record { tick_count = 0; current_table_idx = 0; started = false }

abbrev pub defs : List (Text × ℕ)
defs =
    (codes "acls_keyspace.group_acls", 3487274)
    ∷ (codes "acls_keyspace.user_acls", 12450000)
    ∷ (codes "assets_keyspace.assets", 8234567)
    ∷ (codes "assets_keyspace.asset_versions", 45678901)
    ∷ (codes "assets_keyspace.segments", 18234123)
    ∷ (codes "collections_keyspace.collections", 2345678)
    ∷ (codes "files_keyspace.files", 5678901)
    ∷ (codes "metadata_keyspace.custom_metadata", 15890234)
    ∷ []

pub messages : List Text
messages =
    codes "Processing token range -9223372036854775808 to -8646911284551352321"
    ∷ codes "Batch insert: 1000 rows committed"
    ∷ codes "Token range completed, moving to next segment"
    ∷ codes "Connection pool: 8/8 active connections"
    ∷ codes "Memory usage: 1.2GB / 4GB allocated"
    ∷ []

pub warnings : List Text
warnings =
    codes "Slow response from target node scylla-target-2.aws.example.com"
    ∷ codes "Retry attempt 1/3 for batch insert"
    ∷ codes "Speculative execution triggered - coordinator slow"
    ∷ []

unfoldable pub sum_rows : List (Text × ℕ) → ℕ
sum_rows [] = 0
sum_rows ((name, rows) ∷ rest) = rows + sum_rows rest

module _ (F : Floats) where
  -- The table at this place, changed; nothing where there is none.
  unfoldable pub at_table :
      ℕ → (TableStatus F → TableStatus F) → List (TableStatus F) → List (TableStatus F)
  at_table i f [] = []
  at_table zero f (t ∷ ts) = f t ∷ ts
  at_table (suc i) f (t ∷ ts) = t ∷ at_table i f ts

  pending_tables : Text → List (Text × ℕ) → List (TableStatus F)
  pending_tables status [] = []
  pending_tables status ((name, rows) ∷ rest) =
      record {
        name = name;
        status = status;
        progress = F.of_nat 0;
        rows_migrated = 0;
        rows_total = rows;
      }
      ∷ pending_tables (codes "PENDING") rest

  unfoldable pub initialize : ℕ → DashboardState F → DashboardState F
  unfolding pending_tables sum_rows add_log format_number
  initialize time s =
      let log = add_log F time (codes "INFO") in
      let filled = record s {
        is_running = true;
        is_paused = false;
        tables_total = 8;
        total_rows = sum_rows defs;
        tables = s.tables ++ pending_tables (codes "RUNNING") defs;
        ranges_total = 8 * 128;
      } in
      log (codes "Starting migration: acls_keyspace.group_acls") (
        log (codes "Connected to target cluster: scylla-aws-us-1.example.com") (
          log (codes "Connected to source cluster: cassandra-gcp-eu-1.example.com") (
            log
              (codes "Migration target: 8 tables, "
                ++ (format_number F (sum_rows defs) ++ codes " total rows"))
              (log (codes "TUI Dashboard initialized - Demo Mode") filled))))

  pub migrate_rows : ℕ → Draws F.Double → DashboardState F → DashboardState F
  unfolding add_log update_progress
  migrate_rows time d s =
      let s1 = record s {
        migrated_rows = min ((s.migrated_rows + d.rows_per_tick) % 2 ^ 64) s.total_rows;
      } in
      let s2 =
        add_log F time (codes "WARN")
          (codes "Insert retry failed for "
            ++ (decimal 20 d.fail_count ++ codes " rows - LOCAL_QUORUM unavailable"))
          (record s1 { failed_rows = (s1.failed_rows + d.fail_count) % 2 ^ 64 }) in
      let s3 = if d.fail_dist == 1 then s2 else s1 in
      update_progress F (record s3 { throughput = F.add (F.of_nat 15000) d.tp_jitter })

  pub advance : Draws F.Double → TableStatus F → TableStatus F
  advance d t =
      let progress = F.add t.progress d.prog_inc in
      record t {
        progress = progress;
        rows_migrated = F.truncate (F.mul (F.div progress (F.of_nat 100)) (F.of_nat t.rows_total));
      }

  pub finish : TableStatus F → TableStatus F
  finish t = record t {
    progress = F.of_nat 100;
    status = codes "DONE";
    rows_migrated = t.rows_total;
  }

  pub begin : TableStatus F → TableStatus F
  begin t = record t { status = codes "RUNNING" }

  -- The next table starts, if there is one.
  pub start_next : ℕ → ℕ → DashboardState F → DashboardState F
  unfolding at_table begin add_log
  start_next time i s = elim (get_elem? s.tables i) [
    | none ↦ s
    | some t ↦
        add_log F time (codes "INFO") (codes "Starting migration: " ++ t.name)
          (record s { tables = at_table i begin s.tables })
  ]

  -- The current table is done.
  pub complete_table : ℕ → ℕ → TableStatus F → DashboardState F → DashboardState F
  unfolding at_table finish add_log start_next
  complete_table time i t s =
      let done = record s {
        tables = at_table i finish s.tables;
        tables_completed = (s.tables_completed + 1) % 2 ^ 32;
        ranges_completed = (s.ranges_completed + 128) % 2 ^ 32;
      } in
      start_next time (i + 1) (
        add_log F time (codes "INFO") (codes "Table " ++ (t.name ++ codes " migration completed"))
          done)

  -- The progress of the current table: the index after it, and the state.
  unfoldable pub migrate_current : ℕ → Draws F.Double → ℕ → DashboardState F → ℕ × DashboardState F
  unfolding advance complete_table
  migrate_current time d i s = elim (get_elem? s.tables i) [
    | none ↦ (i, s)
    | some t ↦
        let s1 = record s { tables = at_table i (advance d) s.tables } in
        if F.at_least (advance d t).progress (F.of_nat 100)
        then (i + 1, complete_table time i t s1)
        else (i, s1)
  ]

  pub check_complete : ℕ → ℕ → DashboardState F → DashboardState F
  unfolding add_log
  check_complete time i s =
      if leb s.total_rows s.migrated_rows || leb (length s.tables) i
      then add_log F time (codes "INFO") (codes "Migration completed successfully") (record s {
        is_running = false;
        migrated_rows = s.total_rows;
        progress_percent = F.of_nat 100;
      })
      else s

  pub chatter : ℕ → ℕ → Draws F.Double → DashboardState F → DashboardState F
  unfolding add_log messages warnings
  chatter time ticks d s =
      let s1 =
        if ticks % 50 == 0
        then add_log F time (codes "INFO") (get_or messages d.message []) s
        else s in
      if (ticks % 200 == 0) && (d.warn_chance == 1)
      then add_log F time (codes "WARN") (get_or warnings d.warning []) s1
      else s1

  pub work : ℕ → Draws F.Double → Generator → DashboardState F → Generator × DashboardState F
  unfolding migrate_rows migrate_current check_complete chatter
  work time d g s =
      let (i, s1) = migrate_current time d g.current_table_idx (migrate_rows time d s) in
      (record g { current_table_idx = i }, chatter time g.tick_count d (check_complete time i s1))

  -- update: one tick of a tenth of a second.
  unfoldable pub update :
      ℕ → Draws F.Double → Generator → DashboardState F → Generator × DashboardState F
  unfolding initialize update_elapsed work
  update time d g s =
      let g1 = record g { tick_count = (g.tick_count + 1) % 2 ^ 64 } in
      let s1 = update_elapsed F (record s { elapsed_secs = F.add s.elapsed_secs F.tenth }) in
      if not g.started
      then (record g1 { started = true }, initialize time s)
      else if s1.is_paused || not s1.is_running
      then (g1, s1)
      else work time d g1 s1
