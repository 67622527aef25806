-- ===== src/Loader/Filter.antt =====
-- services/sstable-loader/src/filter.cpp and its header: SSTableBlacklistGovernor. The mutex is not modelled: each
-- method runs under it, so that calls are atomic.
pub mod Laws
use scylla_cluster_sync_cxx.Prelude.{
  ℕ, Bool, true, false, ◌&&◌, ◌||◌, not, List, [], ◌∷◌, if◌then◌else◌, Text, fetch_add, contains,
  insert_all, is_empty,
}
use scylla_cluster_sync_cxx.Svckit.Types.{FilterDecision, allow, skip_table, skip_tenant}
use scylla_cluster_sync_cxx.Wildcard.{any_wildcard}

pub record FilterConfig : Type 0 where
  pub tenant_blacklist : List Text
  pub table_blacklist : List Text
  pub tenant_id_columns : List Text

pub record FilterStats : Type 0 where
  pub tables_skipped : ℕ
  pub rows_skipped : ℕ
  pub rows_allowed : ℕ

pub record Governor : Type 0 where
  pub table_blacklist : List Text
  pub tenant_blacklist : List Text
  pub tenant_id_columns : List Text
  pub config : FilterConfig
  pub stats : FilterStats

unfoldable pub construct : FilterConfig → Governor
construct config = record {
  table_blacklist = insert_all [] config.table_blacklist;
  tenant_blacklist = insert_all [] config.tenant_blacklist;
  tenant_id_columns = config.tenant_id_columns;
  config = config;
  stats = record { tables_skipped = 0; rows_skipped = 0; rows_allowed = 0 };
}

unfoldable pub count_table_skipped : Governor → Governor
count_table_skipped g =
    let stats = g.stats in
    record g { stats = record stats { tables_skipped = fetch_add stats.tables_skipped 1 } }

-- The exact match first, then the wildcard loop.
unfoldable pub should_skip_table : Governor → Text → FilterDecision × Governor
unfolding count_table_skipped
should_skip_table g table =
    if contains g.table_blacklist table
    then (skip_table, count_table_skipped g)
    else (if any_wildcard g.table_blacklist table
        then (skip_table, count_table_skipped g)
        else (allow, g))

unfoldable pub check_tenant_id : Governor → Text → FilterDecision × Governor
check_tenant_id g tenant =
    let stats = g.stats in
    if contains g.tenant_blacklist tenant
    then (
      skip_tenant,
      record g { stats = record stats { rows_skipped = fetch_add stats.rows_skipped 1 } },
    )
    else (
      allow,
      record g { stats = record stats { rows_allowed = fetch_add stats.rows_allowed 1 } },
    )

unfoldable pub is_enabled : Governor → Bool
is_enabled g = not (is_empty g.tenant_blacklist) || not (is_empty g.table_blacklist)

unfoldable pub reload_config : Governor → Governor
reload_config g = record g {
  table_blacklist = insert_all [] g.config.table_blacklist;
  tenant_blacklist = insert_all [] g.config.tenant_blacklist;
  tenant_id_columns = g.config.tenant_id_columns;
}
