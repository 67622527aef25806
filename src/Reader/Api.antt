-- ===== src/Reader/Api.antt =====
-- services/dual-reader/src/api.cpp: the HTTP API of the dual reader, which is never null.
use scylla_cluster_sync_cxx.Prelude.{
  Bool, true, false, Option, none, some, List, [], ◌∷◌, map, if◌then◌else◌, Text, codes, length,
}
use scylla_cluster_sync_cxx.Svckit.Types.{Discrepancy, discrepancy_name}
use scylla_cluster_sync_cxx.Svckit.Metrics.{Metrics}
use scylla_cluster_sync_cxx.Reader.Filter
use scylla_cluster_sync_cxx.Reader.Filter.{Governor}
use scylla_cluster_sync_cxx.Reader.DualReader.{DualReader, get_discrepancies, clear_discrepancies}
use scylla_cluster_sync_cxx.Wire.{
  Json, Request, Response, http_get, http_post, ok_response, not_found, routes, metrics_response,
}

pub data Route : Type 0 where
  get_health get_status get_metrics get_all post_clear get_filter_stats unrouted : Route

unfoldable pub route : Request → Route
unfolding routes
route r =
    if routes http_get (codes "/health") r
    then get_health
    else if routes http_get (codes "/status") r
    then get_status
    else if routes http_get (codes "/metrics") r
    then get_metrics
    else if routes http_get (codes "/discrepancies") r
    then get_all
    else if routes http_post (codes "/discrepancies/clear") r
    then post_clear
    else if routes http_get (codes "/filter/stats") r
    then get_filter_stats
    else unrouted

-- DualReader::filter_enabled
filter_enabled : DualReader → Bool
filter_enabled r = elim r.filter [ none ↦ false | some g ↦ Filter.is_enabled g ]

value_or_empty : Option Text → Text
value_or_empty none = codes ""
value_or_empty (some v) = v

module _ {D : Type 0} (J : Json D) where
  json_fields : List (Text × Text) → List (Text × J.Value)
  json_fields [] = []
  json_fields ((k, v) ∷ rest) = (k, J.text v) ∷ json_fields rest

  -- discrepancy_to_json
  unfoldable pub discrepancy_to_json : Discrepancy → J.Value
  unfolding json_fields value_or_empty
  discrepancy_to_json d = J.object (
      (codes "id", J.text d.id)
      ∷ (codes "table", J.text d.table)
      ∷ (codes "type", J.text (discrepancy_name d.kind))
      ∷ (codes "source_value", J.text (value_or_empty d.source_value))
      ∷ (codes "target_value", J.text (value_or_empty d.target_value))
      ∷ (codes "key", J.object (json_fields d.key))
      ∷ [])

  sent : List (Text × J.Value) → Response J.Body
  sent fields = ok_response (codes "application/json") (J.dump (J.object fields))

  unfoldable pub health : DualReader → Response J.Body
  unfolding sent
  health r = sent (
      (codes "status", J.text (codes "healthy"))
      ∷ (codes "service", J.text (codes "dual-reader"))
      ∷ [])

  unfoldable pub status : DualReader → Response J.Body
  unfolding sent filter_enabled
  status r = sent (
      (codes "service", J.text (codes "dual-reader"))
      ∷ (codes "status", J.text (codes "running"))
      ∷ (codes "total_discrepancies", J.count (length (get_discrepancies r.discrepancies)))
      ∷ (codes "filter_enabled", J.flag (filter_enabled r))
      ∷ [])

  unfoldable pub all_discrepancies : DualReader → Response J.Body
  unfolding sent discrepancy_to_json get_discrepancies
  all_discrepancies r =
      let found = get_discrepancies r.discrepancies in
      sent (
        (codes "total", J.count (length found))
        ∷ (codes "discrepancies", J.array (map discrepancy_to_json found))
        ∷ [])

  stats_fields : Option Governor → List (Text × J.Value)
  stats_fields none = []
  stats_fields (some g) =
      if Filter.is_enabled g
      then (
        codes "stats",
        J.object (
            (codes "dual_reads", J.count g.stats.dual_reads)
            ∷ (codes "source_only_reads", J.count g.stats.source_only_reads)
            ∷ (codes "tables_filtered", J.count g.stats.tables_filtered)
            ∷ (codes "domains_filtered", J.count g.stats.domains_filtered)
            ∷ []),
      )
        ∷ []
      else []

  filter_stats : DualReader → Response J.Body
  unfolding sent stats_fields filter_enabled
  filter_stats r =
      sent ((codes "filter_enabled", J.flag (filter_enabled r)) ∷ stats_fields r.filter)

  unfoldable pub answer :
      (Metrics → Text) → Option Metrics → Route → DualReader → Response J.Body × DualReader
  unfolding health status all_discrepancies filter_stats sent clear_discrepancies
  answer serialize metrics get_health r = (health r, r)
  answer serialize metrics get_status r = (status r, r)
  answer serialize metrics get_metrics r = (metrics_response J serialize metrics, r)
  answer serialize metrics get_all r = (all_discrepancies r, r)
  answer serialize metrics post_clear r = (
    sent (
        (codes "success", J.flag true)
        ∷ (codes "message", J.text (codes "Discrepancies cleared"))
        ∷ []),
    clear_discrepancies r,
  )
  answer serialize metrics get_filter_stats r = (filter_stats r, r)
  answer serialize metrics unrouted r = (not_found (J.raw []), r)

  unfoldable pub serve :
      (Metrics → Text) → Option Metrics → Request → DualReader → Response J.Body × DualReader
  unfolding answer route
  serve serialize metrics q r = answer serialize metrics (route q) r
