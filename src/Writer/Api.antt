-- ===== src/Writer/Api.antt =====
-- services/dual-writer/src/api.cpp and health.cpp: the HTTP API of the dual writer. The connections and
-- the filter that it is given are those of the writer, as main.cpp makes them.
pub mod Laws
pub mod Tests
use scylla_cluster_sync_cxx.Prelude.{
  ℕ, Bool, false, ◌&&◌, Option, none, some, List, [], ◌∷◌, ◌++◌, if◌then◌else◌, Text, codes,
}
use scylla_cluster_sync_cxx.Svckit.Metrics.{Metrics}
use scylla_cluster_sync_cxx.Svckit.Database.{Connection, ping}
use scylla_cluster_sync_cxx.Writer.Filter
use scylla_cluster_sync_cxx.Writer.Filter.{Governor}
use scylla_cluster_sync_cxx.Writer.DualWriter.{DualWriter, WriterStatsSnapshot, get_stats}
use scylla_cluster_sync_cxx.Wire.{
  Json, Request, Response, http_get, ok_response, not_found, routes, metrics_response,
}

-- check_source_health and check_target_health, which are the same: a connection may be null.
unfoldable pub check_health : Option Connection → Bool × Option Connection
check_health none = (false, none)
check_health (some c) = let (up, c') = ping c in (up, some c')

pub data Route : Type 0 where
  get_health get_status get_metrics unrouted : Route

unfoldable pub route : Request → Route
unfolding routes
route r =
    if routes http_get (codes "/health") r
    then get_health
    else if routes http_get (codes "/status") r
    then get_status
    else if routes http_get (codes "/metrics") r
    then get_metrics
    else unrouted

module _ {D : Type 0} (J : Json D) where
  connection_text : Bool → Text
  connection_text up = if up then codes "connected" else codes "disconnected"

  unfoldable pub health : DualWriter → Response J.Body × DualWriter
  unfolding connection_text
  health w =
      let (source_ok, source) = ping w.source in
      let (target_ok, target) = ping w.target in
      let body = J.object (
        (
          codes "status",
          J.text (if source_ok && target_ok then codes "healthy" else codes "unhealthy"),
        )
        ∷ (codes "service", J.text (codes "dual-writer"))
        ∷ (codes "source", J.text (connection_text source_ok))
        ∷ (codes "target", J.text (connection_text target_ok))
        ∷ []) in
      (
        record {
          status = if source_ok && target_ok then 200 else 503;
          content_type = codes "application/json";
          body = J.dump body;
        },
        record w { source = source; target = target },
      )

  unfoldable pub writer_fields : WriterStatsSnapshot → List (Text × J.Value)
  writer_fields stats =
      (codes "total_writes", J.count stats.counters.total_writes)
      ∷ (codes "successful_writes", J.count stats.counters.successful_writes)
      ∷ (codes "failed_writes", J.count stats.counters.failed_writes)
      ∷ (codes "retried_writes", J.count stats.counters.retried_writes)
      ∷ (codes "filtered_writes", J.count stats.counters.filtered_writes)
      ∷ (codes "abandoned_writes", J.count stats.counters.abandoned_writes)
      ∷ (codes "pending_retries", J.count stats.pending_retries)
      ∷ []

  unfoldable pub filter_fields : Option Governor → List (Text × J.Value)
  filter_fields none = []
  filter_fields (some g) =
      (
        codes "filter",
        J.object (
            (codes "enabled", J.flag (Filter.is_enabled g))
            ∷ (codes "tables_skipped", J.count g.stats.tables_skipped)
            ∷ (codes "tenants_skipped", J.count g.stats.tenants_skipped)
            ∷ (codes "rows_allowed", J.count g.stats.rows_allowed)
            ∷ []),
      )
      ∷ []

  unfoldable pub status : DualWriter → Response J.Body
  unfolding writer_fields filter_fields get_stats
  status w = ok_response (codes "application/json") (
      J.dump (
        J.object (
          (codes "service", J.text (codes "dual-writer"))
          ∷ (codes "status", J.text (codes "running"))
          ∷ (codes "writer", J.object (writer_fields (get_stats w)))
          ∷ filter_fields w.filter)))

  unfoldable pub answer :
      (Metrics → Text) → Option Metrics → Route → DualWriter → Response J.Body × DualWriter
  unfolding health status
  answer serialize metrics get_health w = health w
  answer serialize metrics get_status w = (status w, w)
  answer serialize metrics get_metrics w = (metrics_response J serialize metrics, w)
  answer serialize metrics unrouted w = (not_found (J.raw []), w)

  unfoldable pub serve :
      (Metrics → Text) → Option Metrics → Request → DualWriter → Response J.Body × DualWriter
  unfolding answer route
  serve serialize metrics r w = answer serialize metrics (route r) w
