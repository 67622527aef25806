-- ===== src/Loader/Config/Tests.antt =====
-- The loader's configurations, read from concrete trees.
use scylla_cluster_sync_cxx.Prelude.{◌≡◌, ◌↔◌, refl, true, false, Text, codes, contains, text_eq}
use scylla_cluster_sync_cxx.Wire.Tests.{Tree, no_item, item, no_field, field, text, array, object}
use scylla_cluster_sync_cxx.Wildcard.{IsBlacklisted}
use scylla_cluster_sync_cxx.Svckit.Types.{skip_table, skip_tenant}
use scylla_cluster_sync_cxx.Svckit.Config.{rooted, Loaded, loaded, config_error}
use scylla_cluster_sync_cxx.Svckit.Config.Tests.{nodes}
use scylla_cluster_sync_cxx.Loader.Filter.{FilterConfig, should_skip_table, check_tenant_id}
use scylla_cluster_sync_cxx.Loader.IndexManager.Config.{load_indexes_from_config}
use scylla_cluster_sync_cxx.Loader.IndexManager.Tests.{two_indexes}
use scylla_cluster_sync_cxx.Loader.Config.{load_filter_config, startup_filter}
use scylla_cluster_sync_cxx.Loader.Config.Startup.{InForce, startup_filter_decides}

abbrev rules_tree : Tree
rules_tree = object (
    field (codes "filters")
      (object
        (field (codes "table_blacklist") (array (item (text (codes "ks.*")) no_item)) no_field))
      no_field)

abbrev rules_file : Loaded FilterConfig
rules_file = load_filter_config nodes (codes "rules.yaml") (rooted rules_tree)

startup_filter_decides_example :
    (((should_skip_table (startup_filter false rules_file) (codes "ks.t")).0 ≡ skip_table)
      ↔ InForce false rules_file (λ c. IsBlacklisted c.table_blacklist (codes "ks.t")))
    × (((check_tenant_id (startup_filter false rules_file) (codes "t9")).0 ≡ skip_tenant)
        ↔ InForce false rules_file (λ c. contains c.tenant_blacklist (codes "t9") ≡ true))
startup_filter_decides_example = startup_filter_decides false rules_file (codes "ks.t") (codes "t9")

abbrev index_tree : Text → Tree
index_tree name = object (
    field (codes "keyspace") (text (codes "ks")) (
      field (codes "table") (text (codes "t")) (
        field (codes "index_name") (text name)
          (field (codes "column_name") (text (codes "a")) no_field))))

two_indexes_loaded :
    load_indexes_from_config nodes
      (codes "indexes.yaml")
      (rooted (array (item (index_tree (codes "i1")) (item (index_tree (codes "i2")) no_item))))
    ≡ loaded two_indexes
unfolding load_indexes_from_config text_eq
two_indexes_loaded = refl

no_sequence_refused :
    load_indexes_from_config nodes (codes "indexes.yaml") (rooted (index_tree (codes "i1")))
    ≡ config_error (codes "Index config must be a YAML sequence")
unfolding load_indexes_from_config text_eq
no_sequence_refused = refl
