-- ===== src/Dashboard/State.antt =====
-- services/tui-dash/src/state.cpp and its header: the dashboard's state. `time` stands for the clock
-- at the entry of the log.
pub mod Laws
use scylla_cluster_sync_cxx.Prelude.{
  ℕ, ◌+◌, ◌-◌, ◌/◌, ◌%◌, ◌^◌, Bool, true, false, not, List, [], ◌∷◌, ◌++◌, ltb, leb, if◌then◌else◌,
  Text, codes, decimal, length, drop,
}
use scylla_cluster_sync_cxx.Wire.{Floats}

pub record LogEntry : Type 0 where
  pub timestamp : ℕ
  pub level : Text
  pub message : Text

pub record TableStatus (F : Floats) : Type 0 where
  pub name : Text
  pub status : Text
  pub progress : F.Double
  pub rows_migrated : ℕ
  pub rows_total : ℕ

pub record DashboardState (F : Floats) : Type 0 where
  pub total_rows : ℕ
  pub migrated_rows : ℕ
  pub failed_rows : ℕ
  pub filtered_rows : ℕ
  pub throughput : F.Double
  pub progress_percent : F.Double
  pub tables_total : ℕ
  pub tables_completed : ℕ
  pub tables_skipped : ℕ
  pub ranges_total : ℕ
  pub ranges_completed : ℕ
  pub is_running : Bool
  pub is_paused : Bool
  pub elapsed_secs : F.Double
  pub elapsed_display : Text
  pub tables : List (TableStatus F)
  pub activity_log : List LogEntry
  pub scroll_offset : ℕ

-- Keep the last 100 entries: one is added at a time.
unfoldable pub trim : List LogEntry → List LogEntry
trim log = if ltb 100 (length log) then drop 1 log else log

-- "%02d"
two_digits : ℕ → Text
two_digits n = if ltb n 10 then b'0' ∷ decimal 10 n else decimal 10 n

unfoldable pub clock_text : ℕ → Text
unfolding two_digits
clock_text total =
    two_digits (total / 3600)
    ++ (b':' ∷ two_digits (total % 3600 / 60) ++ (b':' ∷ two_digits (total % 60)))

module _ (F : Floats) where
  -- `DashboardState{}`
  unfoldable pub initial : DashboardState F
  initial = record {
    total_rows = 0;
    migrated_rows = 0;
    failed_rows = 0;
    filtered_rows = 0;
    throughput = F.of_nat 0;
    progress_percent = F.of_nat 0;
    tables_total = 0;
    tables_completed = 0;
    tables_skipped = 0;
    ranges_total = 0;
    ranges_completed = 0;
    is_running = false;
    is_paused = false;
    elapsed_secs = F.of_nat 0;
    elapsed_display = codes "00:00:00";
    tables = [];
    activity_log = [];
    scroll_offset = 0;
  }

  unfoldable pub add_log : ℕ → Text → Text → DashboardState F → DashboardState F
  unfolding trim
  add_log time level message s =
      let entry : LogEntry = record { timestamp = time; level = level; message = message } in
      record s { activity_log = trim (s.activity_log ++ (entry ∷ [])) }

  unfoldable pub toggle_pause : ℕ → DashboardState F → DashboardState F
  unfolding add_log
  toggle_pause time s =
      let s1 = record s { is_paused = not s.is_paused } in
      if s.is_running
      then (if s1.is_paused
          then add_log time (codes "WARN") (codes "Migration paused by user") s1
          else add_log time (codes "INFO") (codes "Migration resumed") s1)
      else s

  unfoldable pub reset : ℕ → DashboardState F
  unfolding initial add_log
  reset time = add_log time (codes "INFO") (codes "Dashboard reset") initial

  unfoldable pub scroll_up : DashboardState F → DashboardState F
  scroll_up s =
      if ltb 0 s.scroll_offset then record s { scroll_offset = s.scroll_offset - 1 } else s

  unfoldable pub scroll_down : DashboardState F → DashboardState F
  scroll_down s = record s { scroll_offset = (s.scroll_offset + 1) % 2 ^ 64 }

  unfoldable pub update_elapsed : DashboardState F → DashboardState F
  unfolding clock_text
  update_elapsed s = record s { elapsed_display = clock_text (F.truncate s.elapsed_secs) }

  unfoldable pub update_progress : DashboardState F → DashboardState F
  update_progress s =
      if ltb 0 s.total_rows
      then record s {
        progress_percent =
            F.mul (F.div (F.of_nat s.migrated_rows) (F.of_nat s.total_rows)) (F.of_nat 100);
      }
      else s

  unfoldable pub format_number : ℕ → Text
  format_number n =
      if leb 1000000000 n
      then F.fixed 2 (F.div (F.of_nat n) (F.of_nat 1000000000)) ++ codes "B"
      else if leb 1000000 n
      then F.fixed 2 (F.div (F.of_nat n) (F.of_nat 1000000)) ++ codes "M"
      else if leb 1000 n
      then F.fixed 2 (F.div (F.of_nat n) (F.of_nat 1000)) ++ codes "K"
      else decimal 20 n
