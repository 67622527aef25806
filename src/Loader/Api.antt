-- ===== src/Loader/Api.antt =====
-- services/sstable-loader/src/api.cpp, and get_stats of loader.cpp: the HTTP API of the loader.
pub mod Laws
pub mod Sent
pub mod Tests
use scylla_cluster_sync_cxx.Prelude.{
  ℕ, Bool, ◌&&◌, Option, none, some, List, [], ◌∷◌, ◌++◌, ltb, if◌then◌else◌, Text, codes,
}
use scylla_cluster_sync_cxx.Svckit.Metrics.{Metrics}
use scylla_cluster_sync_cxx.Svckit.Database.{ping}
use scylla_cluster_sync_cxx.Loader.Filter
use scylla_cluster_sync_cxx.Loader.Filter.{Governor}
use scylla_cluster_sync_cxx.Loader.Ranges.{SsTableLoader}
use scylla_cluster_sync_cxx.Loader.Migration.{pause, resume, stop, control}
use scylla_cluster_sync_cxx.Wire.{
  Floats, Json, Request, Response, http_get, http_post, ok_response, not_found, routes,
  metrics_response,
}

pub record MigrationStats (F : Floats) : Type 0 where
  pub total_rows : ℕ
  pub migrated_rows : ℕ
  pub failed_rows : ℕ
  pub filtered_rows : ℕ
  pub tables_completed : ℕ
  pub tables_total : ℕ
  pub tables_skipped : ℕ
  pub skipped_corrupted_ranges : ℕ
  pub progress_percent : F.Float
  pub throughput_rows_per_sec : F.Double
  pub elapsed_secs : F.Double
  pub is_running : Bool
  pub is_paused : Bool

-- The handlers that are registered; `unrouted` is a request for none of them.
pub data Route : Type 0 where
  get_health get_status get_metrics post_stop post_pause post_resume unrouted : Route

unfoldable pub route : Request → Route
unfolding routes
route r =
    if routes http_get (codes "/health") r
    then get_health
    else if routes http_get (codes "/status") r
    then get_status
    else if routes http_get (codes "/metrics") r
    then get_metrics
    else if routes http_post (codes "/stop") r
    then post_stop
    else if routes http_post (codes "/pause") r
    then post_pause
    else if routes http_post (codes "/resume") r
    then post_resume
    else unrouted

module _ (F : Floats) where
  -- `migrated / total * 100` in single precision, if there are rows.
  unfoldable pub progress_of : ℕ → ℕ → F.Float
  progress_of migrated total =
      if ltb 0 total
      then F.mul_f (F.div_f (F.of_nat_f migrated) (F.of_nat_f total)) (F.of_nat_f 100)
      else F.of_nat_f 0

  unfoldable pub get_stats : SsTableLoader → MigrationStats F
  get_stats l = record {
    total_rows = l.total_rows;
    migrated_rows = l.migrated_rows;
    failed_rows = l.failed_rows;
    filtered_rows = l.filtered_rows;
    tables_completed = l.tables_completed;
    tables_total = l.tables_total;
    tables_skipped = l.tables_skipped;
    skipped_corrupted_ranges = l.skipped_ranges;
    progress_percent = progress_of l.migrated_rows l.total_rows;
    throughput_rows_per_sec = F.of_nat 0;
    elapsed_secs = F.of_nat 0;
    is_running = l.is_running;
    is_paused = l.is_paused;
  }

module _ (F : Floats) (J : Json F.Double) where
  connection_text : Bool → Text
  connection_text up = if up then codes "connected" else codes "disconnected"

  -- GET /health
  unfoldable pub health : SsTableLoader → Response J.Body × SsTableLoader
  unfolding connection_text
  health l =
      let (source_ok, source) = ping l.source in
      let (target_ok, target) = ping l.target in
      let body = J.object (
        (
          codes "status",
          J.text (if source_ok && target_ok then codes "healthy" else codes "unhealthy"),
        )
        ∷ (codes "service", J.text (codes "sstable-loader"))
        ∷ (codes "source", J.text (connection_text source_ok))
        ∷ (codes "target", J.text (connection_text target_ok))
        ∷ []) in
      (
        record {
          status = if source_ok && target_ok then 200 else 503;
          content_type = codes "application/json";
          body = J.dump body;
        },
        record l { source = source; target = target },
      )

  unfoldable pub migration_fields : MigrationStats F → List (Text × J.Value)
  migration_fields stats =
      (codes "total_rows", J.count stats.total_rows)
      ∷ (codes "migrated_rows", J.count stats.migrated_rows)
      ∷ (codes "failed_rows", J.count stats.failed_rows)
      ∷ (codes "filtered_rows", J.count stats.filtered_rows)
      ∷ (codes "tables_completed", J.count stats.tables_completed)
      ∷ (codes "tables_total", J.count stats.tables_total)
      ∷ (codes "tables_skipped", J.count stats.tables_skipped)
      ∷ (codes "progress_percent", J.real (F.widen stats.progress_percent))
      ∷ (codes "is_running", J.flag stats.is_running)
      ∷ (codes "is_paused", J.flag stats.is_paused)
      ∷ []

  unfoldable pub filter_fields : Option Governor → List (Text × J.Value)
  filter_fields none = []
  filter_fields (some g) =
      (
        codes "filter",
        J.object (
            (codes "enabled", J.flag (Filter.is_enabled g))
            ∷ (codes "tables_skipped", J.count g.stats.tables_skipped)
            ∷ (codes "rows_skipped", J.count g.stats.rows_skipped)
            ∷ (codes "rows_allowed", J.count g.stats.rows_allowed)
            ∷ []),
      )
      ∷ []

  -- GET /status
  unfoldable pub status : SsTableLoader → Response J.Body
  unfolding migration_fields filter_fields get_stats
  status l = ok_response (codes "application/json") (
      J.dump (
        J.object (
          (codes "status", J.text (codes "ok"))
          ∷ (codes "migration", J.object (migration_fields (get_stats F l)))
          ∷ filter_fields l.filter)))

  said : Text → Text → Response J.Body
  said result message =
      ok_response (codes "application/json") (
        J.dump
          (J.object ((codes "status", J.text result) ∷ (codes "message", J.text message) ∷ [])))

  unfoldable pub answer :
      (Metrics → Text) → Option Metrics → Route → SsTableLoader → Response J.Body × SsTableLoader
  unfolding health status said
  answer serialize metrics get_health l = health l
  answer serialize metrics get_status l = (status l, l)
  answer serialize metrics get_metrics l = (metrics_response J serialize metrics, l)
  answer serialize metrics post_stop l =
      (said (codes "success") (codes "Migration stop signal sent"), control stop l)
  answer serialize metrics post_pause l =
      (said (codes "success") (codes "Migration paused"), control pause l)
  answer serialize metrics post_resume l =
      (said (codes "success") (codes "Migration resumed"), control resume l)
  answer serialize metrics unrouted l = (not_found (J.raw []), l)

  unfoldable pub serve :
      (Metrics → Text) → Option Metrics → Request → SsTableLoader → Response J.Body × SsTableLoader
  unfolding answer route
  serve serialize metrics r l = answer serialize metrics (route r) l
