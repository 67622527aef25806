-- ===== src/Reader/Tests.antt =====
-- The laws of the dual reader at concrete states.
use scylla_cluster_sync_cxx.Prelude.{
  [], codes, false, find, if◌then◌else◌, none, refl, some, text_eq, true, ◌++◌, ◌↔◌, ◌∷◌, ◌≡◌, ◌⊎◌,
}
use scylla_cluster_sync_cxx.Reader.DualReader.{
  DualReader, compare_clusters, compared_result, reconcile_discrepancy,
}
use scylla_cluster_sync_cxx.Reader.DualReader.Discrepancies.{
  Handled, copies_kind, reconcile_discrepancy_found, reconcile_sends,
}
use scylla_cluster_sync_cxx.Reader.DualReader.Validation.{compare_clusters_outcome}
use scylla_cluster_sync_cxx.Reader.Filter.{FilterConfig, Governor, construct, decide, dual_read}
use scylla_cluster_sync_cxx.Reader.Filter.Laws.{IsCompared, compare_gate_iff}
use scylla_cluster_sync_cxx.Reader.Reconciliation.{manual, reconcile, source_wins}
use scylla_cluster_sync_cxx.Svckit.Database.{execute}
use scylla_cluster_sync_cxx.Svckit.Database.Tests.{online, refuses_all, refuses_bad}
use scylla_cluster_sync_cxx.Svckit.Errors.{SyncError, ok, throw}
use scylla_cluster_sync_cxx.Svckit.Metrics.{record_if_present}
use scylla_cluster_sync_cxx.Svckit.Types.{Discrepancy, missing_in_target}

abbrev sample_config : FilterConfig
sample_config = record {
  enabled = true;
  compare_tables = codes "ks.t" ∷ [];
  compare_system_domain_ids = codes "d1" ∷ [];
  system_domain_id_column = codes "system_domain_id";
  log_discrepancies = false;
  discrepancy_log_path = [];
}

abbrev sample_gate : Governor
sample_gate = record {
  compare_tables = codes "ks.t" ∷ [];
  compare_domains = codes "d1" ∷ [];
  config = sample_config;
  stats = record {
    dual_reads = 0;
    source_only_reads = 0;
    tables_filtered = 0;
    domains_filtered = 0;
  };
}

abbrev lost_row : Discrepancy
lost_row = record {
  id = codes "disc-0";
  table = codes "ks.t";
  key = [];
  kind = missing_in_target;
  source_value = some (codes "row");
  target_value = none;
  detected_at = 3;
}

abbrev sample_reader : DualReader
sample_reader = record {
  tables = codes "ks.t" ∷ [];
  source = online refuses_bad;
  target = online refuses_all;
  filter = some sample_gate;
  strategy = manual;
  metrics = none;
  discrepancies = (codes "disc-0", lost_row) ∷ [];
}

compare_gate_iff_example :
    ((decide (construct sample_config) (codes "ks.t") (codes "d1")).0 ≡ dual_read)
    ↔ IsCompared sample_config.enabled sample_config.compare_tables
        sample_config.compare_system_domain_ids
        (codes "ks.t")
        (codes "d1")
compare_gate_iff_example = compare_gate_iff sample_config (codes "ks.t") (codes "d1")

reconcile_discrepancy_found_example :
    let (result, target) = reconcile sample_reader.strategy lost_row sample_reader.target in
    let (outcome, r') = reconcile_discrepancy sample_reader (codes "disc-0") in
    (outcome ≡ ok tt)
    × (r' ≡ record sample_reader { target = target; discrepancies = r'.discrepancies })
    × (find (codes "disc-0") r'.discrepancies ≡ (if result.success then none else some lost_row))
    × (find (codes "disc-1") r'.discrepancies ≡ (
        if text_eq (codes "disc-0") (codes "disc-1")
        then (if result.success then none else some lost_row)
        else find (codes "disc-1") sample_reader.discrepancies))
unfolding find text_eq
reconcile_discrepancy_found_example =
    reconcile_discrepancy_found sample_reader (codes "disc-0") (codes "disc-1") lost_row refl

reconcile_sends_example :
    Handled
      (copies_kind source_wins lost_row.kind)
      lost_row
      (online refuses_all)
      (reconcile source_wins lost_row (online refuses_all))
reconcile_sends_example = reconcile_sends source_wins lost_row (online refuses_all)

compare_clusters_outcome_example :
    let query = codes "SELECT * FROM " ++ (codes "ks.t") in
    let (first, source) = execute sample_reader.source query in
    let (second, target) = execute sample_reader.target query in
    let (result, r') = compare_clusters sample_reader (codes "ks.t") 4 in
    ((e : SyncError) × (first ≡ throw e)
      × (result ≡ throw e)
      × (r' ≡ record sample_reader { source = source }))
    ⊎ (((e : SyncError) × (first ≡ ok tt)
          × (second ≡ throw e)
          × (result ≡ throw e)
          × (r' ≡ record sample_reader { source = source; target = target }))
        ⊎ ((first ≡ ok tt)
            × (second ≡ ok tt)
            × (result ≡ ok (compared_result (codes "ks.t") 4))
            × (r' ≡ record sample_reader {
              source = source;
              target = target;
              metrics = record_if_present sample_reader.metrics true;
            })))
compare_clusters_outcome_example = compare_clusters_outcome sample_reader (codes "ks.t") 4
