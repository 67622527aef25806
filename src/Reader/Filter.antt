-- ===== src/Reader/Filter.antt =====
-- services/dual-reader/src/filter.cpp: DualReaderFilterGovernor, the AND gate of two whitelists.
-- Each method runs under the mutex, so that calls are atomic.
pub mod Laws
use scylla_cluster_sync_cxx.Prelude.{
  ℕ, Bool, true, false, List, [], ◌∷◌, if◌then◌else◌, Text, fetch_add, contains, insert_all,
  is_empty,
}
use scylla_cluster_sync_cxx.Svckit.Types.{FilterDecision, allow, source_only_read}

pub record FilterConfig : Type 0 where
  pub enabled : Bool
  pub compare_tables : List Text
  pub compare_system_domain_ids : List Text
  pub system_domain_id_column : Text
  pub log_discrepancies : Bool
  pub discrepancy_log_path : Text

pub data ReadDecision : Type 0 where
  dual_read source_only : ReadDecision

pub record FilterStats : Type 0 where
  pub dual_reads : ℕ
  pub source_only_reads : ℕ
  pub tables_filtered : ℕ
  pub domains_filtered : ℕ

pub record Governor : Type 0 where
  pub compare_tables : List Text
  pub compare_domains : List Text
  pub config : FilterConfig
  pub stats : FilterStats

unfoldable pub construct : FilterConfig → Governor
construct config = record {
  compare_tables = insert_all [] config.compare_tables;
  compare_domains = insert_all [] config.compare_system_domain_ids;
  config = config;
  stats = record {
    dual_reads = 0;
    source_only_reads = 0;
    tables_filtered = 0;
    domains_filtered = 0;
  };
}

dual : Governor → ReadDecision × Governor
dual g =
    let stats = g.stats in
    (dual_read, record g { stats = record stats { dual_reads = fetch_add stats.dual_reads 1 } })

table_filtered : Governor → ReadDecision × Governor
table_filtered g =
    let stats = g.stats in
    (
      source_only,
      record g {
        stats = record stats {
          tables_filtered = fetch_add stats.tables_filtered 1;
          source_only_reads = fetch_add stats.source_only_reads 1;
        };
      },
    )

domain_filtered : Governor → ReadDecision × Governor
domain_filtered g =
    let stats = g.stats in
    (
      source_only,
      record g {
        stats = record stats {
          domains_filtered = fetch_add stats.domains_filtered 1;
          source_only_reads = fetch_add stats.source_only_reads 1;
        };
      },
    )

-- Step 2, for a domain that may be empty, which stands for none.
decide_domain : Governor → Text → ReadDecision × Governor
unfolding dual domain_filtered
decide_domain g domain =
    if is_empty domain
    then dual g
    else (if is_empty g.compare_domains
        then dual g
        else (if contains g.compare_domains domain then dual g else domain_filtered g))

-- decide(): the disabled filter, step 1, step 2.
unfoldable pub decide : Governor → Text → Text → ReadDecision × Governor
unfolding decide_domain table_filtered dual
decide g table domain =
    if g.config.enabled
    then (if is_empty g.compare_tables
        then decide_domain g domain
        else (if contains g.compare_tables table then decide_domain g domain else table_filtered g))
    else dual g

as_filter_decision : ReadDecision → FilterDecision
as_filter_decision dual_read = allow
as_filter_decision source_only = source_only_read

unfoldable pub should_skip_table : Governor → Text → FilterDecision × Governor
unfolding decide as_filter_decision
should_skip_table g table =
    let (decision, g') = decide g table [] in (as_filter_decision decision, g')

unfoldable pub check_tenant_id : Governor → Text → FilterDecision × Governor
check_tenant_id g domain =
    let stats = g.stats in
    let filtered = record g {
      stats = record stats { domains_filtered = fetch_add stats.domains_filtered 1 };
    } in
    if g.config.enabled
    then (if is_empty g.compare_domains
        then (allow, g)
        else (if contains g.compare_domains domain
            then (allow, g)
            else (source_only_read, filtered)))
    else (allow, g)

unfoldable pub is_enabled : Governor → Bool
is_enabled g = g.config.enabled

unfoldable pub reload_config : Governor → Governor
reload_config g = record g {
  compare_tables = insert_all [] g.config.compare_tables;
  compare_domains = insert_all [] g.config.compare_system_domain_ids;
}
