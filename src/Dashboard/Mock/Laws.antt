-- ===== src/Dashboard/Mock/Laws.antt =====
-- Bounds of the demo mode (services/tui-dash/src/mock.cpp).
use scylla_cluster_sync_cxx.Prelude.{
  ℕ, ◌+◌, ◌%◌, ◌^◌, ◌≤◌, ◌≡◌, ◌⊎◌, refl, true, ◌&&◌, ◌||◌, ◌==◌, not, Option, none, some, [], ◌++◌,
  arith, if_both, if_split, codes, leb, ltb, length, min, decimal, get_or, get_elem?, if◌then◌else◌,
}
use scylla_cluster_sync_cxx.Wire.{Floats}
use scylla_cluster_sync_cxx.Dashboard.State.{
  TableStatus, DashboardState, add_log, update_elapsed, update_progress,
}
use scylla_cluster_sync_cxx.Dashboard.State.Laws.{IsBounded, add_log-IsBounded}
use scylla_cluster_sync_cxx.Dashboard.Mock.{
  Draws, Generator, at_table, advance, begin, defs, messages, sum_rows, initialize, migrate_rows,
  start_next, complete_table, migrate_current, check_complete, chatter, work, update,
}

module _ (F : Floats) where
  -- A state with the same log and rows.
  pub same_bounds :
      (s s' : DashboardState F)
      → s'.activity_log ≡ s.activity_log
      → s'.migrated_rows ≡ s.migrated_rows
      → s'.total_rows ≡ s.total_rows
      → IsBounded F s
      → IsBounded F s'
  same_bounds s s' log migrated total v = record {
    log_bound = rw log v.log_bound;
    rows_bound = rw (migrated, total) v.rows_bound;
  }

  initialize-IsBounded :
      (time : ℕ) (s : DashboardState F)
      → s.migrated_rows ≤ sum_rows defs
      → IsBounded F s
      → IsBounded F (initialize F time s)
  unfolding initialize
  initialize-IsBounded time s few v = add_log-IsBounded F time _ _ _ (
      add_log-IsBounded F time _ _ _ (
        add_log-IsBounded F time _ _ _ (
          add_log-IsBounded F time _ _ _ (
            add_log-IsBounded F time _ _ _
              (record { log_bound = v.log_bound; rows_bound = few })))))

  migrate_rows-IsBounded :
      (time : ℕ) (d : Draws F.Double) (s : DashboardState F)
      → IsBounded F s
      → IsBounded F (migrate_rows F time d s)
  unfolding migrate_rows update_progress
  migrate_rows-IsBounded time d s v =
      let s1 = record s {
        migrated_rows = min ((s.migrated_rows + d.rows_per_tick) % 2 ^ 64) s.total_rows;
      } in
      let v1 : IsBounded F s1 = record { log_bound = v.log_bound; rows_bound = omega arith } in
      let failed = record s1 { failed_rows = (s1.failed_rows + d.fail_count) % 2 ^ 64 } in
      let logged =
        add_log-IsBounded F time (codes "WARN")
          (codes "Insert retry failed for "
            ++ (decimal 20 d.fail_count ++ codes " rows - LOCAL_QUORUM unavailable"))
          failed (same_bounds s1 failed refl refl refl v1) in
      let v3 = if_both (IsBounded F) (d.fail_dist == 1) _ s1 logged v1 in
      if_both (IsBounded F) (ltb 0 _) _ _ (same_bounds _ _ refl refl refl v3)
        (same_bounds _ _ refl refl refl v3)

  start_next-IsBounded :
      (time i : ℕ) (s : DashboardState F) → IsBounded F s → IsBounded F (start_next F time i s)
  unfolding start_next
  start_next-IsBounded time i s v = by_table (get_elem? s.tables i)
    where
      by_table :
          (o : Option (TableStatus F))
          → IsBounded F (elim o [
            | none ↦ s
            | some t ↦
                add_log F time
                  (codes "INFO")
                  (codes "Starting migration: " ++ t.name)
                  (record s { tables = at_table F i (begin F) s.tables })
          ])
      by_table none = v
      by_table (some t) = add_log-IsBounded F time _ _ _ (same_bounds s _ refl refl refl v)

  complete_table-IsBounded :
      (time i : ℕ) (t : TableStatus F) (s : DashboardState F)
      → IsBounded F s
      → IsBounded F (complete_table F time i t s)
  unfolding complete_table
  complete_table-IsBounded time i t s v =
      start_next-IsBounded time (i + 1) _
        (add_log-IsBounded F time _ _ _ (same_bounds s _ refl refl refl v))

  check_complete-IsBounded :
      (time i : ℕ) (s : DashboardState F) → IsBounded F s → IsBounded F (check_complete F time i s)
  unfolding check_complete
  check_complete-IsBounded time i s v =
      if_both (IsBounded F) (leb s.total_rows s.migrated_rows || leb (length s.tables) i) _ s
        (add_log-IsBounded F time _ _ _
          (record { log_bound = v.log_bound; rows_bound = omega arith }))
        v

  chatter-IsBounded :
      (time ticks : ℕ) (d : Draws F.Double) (s : DashboardState F)
      → IsBounded F s
      → IsBounded F (chatter F time ticks d s)
  unfolding chatter
  chatter-IsBounded time ticks d s v =
      let v1 =
        if_both (IsBounded F) (ticks % 50 == 0) _ s
          (add_log-IsBounded F time (codes "INFO") (get_or messages d.message []) s v) v in
      if_both (IsBounded F) ((ticks % 200 == 0) && (d.warn_chance == 1)) _ _
        (add_log-IsBounded F time _ _ _ v1) v1

  migrate_current-IsBounded :
      (time : ℕ) (d : Draws F.Double) (i : ℕ) (s : DashboardState F)
      → IsBounded F s
      → IsBounded F (migrate_current F time d i s).1
  unfolding migrate_current
  migrate_current-IsBounded time d i s v = by_table (get_elem? s.tables i)
    where
      by_table :
          (o : Option (TableStatus F))
          → IsBounded F (
              let r : ℕ × DashboardState F = elim o [
                | none ↦ (i, s)
                | some t ↦
                    let s1 = record s { tables = at_table F i (advance F d) s.tables } in
                    if F.at_least (advance F d t).progress (F.of_nat 100)
                    then (i + 1, complete_table F time i t s1)
                    else (i, s1)
              ] in
              r.1)
      by_table none = v
      by_table (some t) =
          let v1 = same_bounds s _ refl refl refl v in
          if_both (λ (r : ℕ × DashboardState F). IsBounded F r.1)
            (F.at_least (advance F d t).progress (F.of_nat 100)) _ _
            (complete_table-IsBounded time i t _ v1) v1

  work-IsBounded :
      (time : ℕ) (d : Draws F.Double) (g : Generator) (s : DashboardState F)
      → IsBounded F s
      → IsBounded F (work F time d g s).1
  unfolding work
  work-IsBounded time d g s v =
      let moved =
        migrate_current-IsBounded time d g.current_table_idx _
          (migrate_rows-IsBounded time d s v) in
      chatter-IsBounded time g.tick_count d _ (check_complete-IsBounded time _ _ moved)

  -- Before the generator has started, no rows are there to migrate.
  abbrev pub IsFresh : Generator → DashboardState F → Type 0
  IsFresh g s = (g.started ≡ true) ⊎ (s.total_rows ≡ 0)

  pub update-IsBounded :
      (time : ℕ) (d : Draws F.Double) (g : Generator) (s : DashboardState F)
      → IsFresh g s
      → IsBounded F s
      → ((update F time d g s).0.started ≡ true) × IsBounded F (update F time d g s).1
  unfolding update update_elapsed work
  update-IsBounded time d g s fresh v =
      let IsGood : Generator × DashboardState F → Type 0 =
        λ r. (r.0.started ≡ true) × IsBounded F r.1 in
      let s1 = update_elapsed F (record s { elapsed_secs = F.add s.elapsed_secs F.tenth }) in
      let v1 : IsBounded F s1 = same_bounds s s1 refl refl refl v in
      let g1 = record g { tick_count = (g.tick_count + 1) % 2 ^ 64 } in
      if_split IsGood (not g.started) _ _
        (λ new.
          let few : s.migrated_rows ≤ sum_rows defs = ground arith in
          (refl, initialize-IsBounded time s few v))
        (λ old.
          let on : g.started ≡ true = ground arith in
          if_both IsGood (s1.is_paused || not s1.is_running) _ _ (on, v1)
            (on, work-IsBounded time d g1 s1 v1))
