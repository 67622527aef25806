-- ===== src/Writer/Config/Tests.antt =====
-- A configuration of the writer with its two clusters, and a password in the environment.
use scylla_cluster_sync_cxx.Prelude.{none, some, codes}
use scylla_cluster_sync_cxx.Wire.Tests.{Tree, no_field, field, count, object}
use scylla_cluster_sync_cxx.Svckit.Config.{default_observability}
use scylla_cluster_sync_cxx.Svckit.Config.Tests.{cluster_node, cluster_config}
use scylla_cluster_sync_cxx.Writer.Config.{DualWriterConfig, Environment, default_writer, no_filter}

abbrev root_node : Tree
root_node = object (
    field (codes "source") cluster_node (
      field (codes "target") cluster_node (
        field (codes "writer") (object (field (codes "retry_interval_secs") (count 2) no_field))
          no_field)))

abbrev env : Environment
env = record {
  source_username = none;
  source_password = some (codes "secret");
  target_username = none;
  target_password = none;
}

abbrev sample_config : DualWriterConfig
sample_config = record {
  source = record cluster_config { password = some (codes "secret") };
  target = cluster_config;
  writer = record default_writer { retry_delay_ms = 2000 };
  filter = no_filter;
  observability = default_observability;
}
