-- ===== src/Dashboard/State/Laws.antt =====
-- Bounds of the dashboard's state (services/tui-dash/src/state.cpp).
use scylla_cluster_sync_cxx.Prelude.{
  ℕ, ◌≤◌, not, List, [], ◌∷◌, ◌++◌, arith, Text, if_both, codes, length, length-append, length-drop,
}
use scylla_cluster_sync_cxx.Wire.{Floats}
use scylla_cluster_sync_cxx.Dashboard.State.{
  LogEntry, DashboardState, trim, initial, add_log, toggle_pause, reset,
}

-- The log holds 100 entries at most, and no more rows are migrated than there are.
pub record IsBounded (F : Floats) (s : DashboardState F) : Type 0 where
  pub log_bound : length s.activity_log ≤ 100
  pub rows_bound : s.migrated_rows ≤ s.total_rows

trim-append :
    (log : List LogEntry) (entry : LogEntry)
    → length log ≤ 100
    → length (trim (log ++ (entry ∷ []))) ≤ 100
unfolding trim
trim-append log entry h =
    ground (arith, length-append log (entry ∷ []), length-drop 1 (log ++ (entry ∷ [])))

module _ (F : Floats) where
  pub add_log-IsBounded :
      (time : ℕ) (level message : Text) (s : DashboardState F)
      → IsBounded F s
      → IsBounded F (add_log F time level message s)
  unfolding add_log
  add_log-IsBounded time level message s v = record {
    log_bound = trim-append s.activity_log _ v.log_bound;
    rows_bound = v.rows_bound;
  }

  pub reset-IsBounded : (time : ℕ) → IsBounded F (reset F time)
  unfolding reset initial
  reset-IsBounded time =
      add_log-IsBounded time _ _ (initial F)
        (record { log_bound = omega arith; rows_bound = omega arith })

  pub toggle_pause-IsBounded :
      (time : ℕ) (s : DashboardState F) → IsBounded F s → IsBounded F (toggle_pause F time s)
  unfolding toggle_pause
  toggle_pause-IsBounded time s v =
      let s1 = record s { is_paused = not s.is_paused } in
      let v1 : IsBounded F s1 = record { log_bound = v.log_bound; rows_bound = v.rows_bound } in
      if_both (IsBounded F) s.is_running _ s
        (if_both (IsBounded F) s1.is_paused _ _
          (add_log-IsBounded time (codes "WARN") (codes "Migration paused by user") s1 v1)
          (add_log-IsBounded time (codes "INFO") (codes "Migration resumed") s1 v1))
        v
