-- ===== src/Loader/Ranges.antt =====
-- services/sstable-loader/src/loader.cpp: the state of SSTableLoader, and its work on one row and on
-- one token range. The JSON library is a parameter: it parses a row into the columns that it holds,
-- each as the text that `get` or `dump` gives. Pauses between attempts, log lines, and a dump that
-- throws on invalid UTF-8 are not modelled.
pub mod Laws
use scylla_cluster_sync_cxx.Prelude.{
  ℕ, zero, suc, ◌||◌, Bool, true, false, not, Option, none, some, List, [], ◌∷◌, ◌++◌,
  if◌then◌else◌, Text, codes, decimal, is_empty, fetch_add,
}
use scylla_cluster_sync_cxx.Svckit.Errors.{
  SyncError, database_error, what, Result, ok, throw, is_ok,
}
use scylla_cluster_sync_cxx.Svckit.Types.{
  FilterDecision, allow, skip_table, skip_tenant, source_only_read,
}
use scylla_cluster_sync_cxx.Svckit.Database.{Connection, execute}
use scylla_cluster_sync_cxx.Loader.Filter
use scylla_cluster_sync_cxx.Loader.Filter.{Governor}
use scylla_cluster_sync_cxx.Loader.TokenRange.{TokenRange, build_range_query}

pub record TableConfig : Type 0 where
  pub name : Text
  pub partition_key : List Text

-- The fields of LoaderConfig that the loader reads.
pub record LoaderConfig : Type 0 where
  pub tables : List TableConfig
  pub num_ranges_per_core : ℕ
  pub max_concurrent_loaders : ℕ
  pub max_retries : ℕ
  pub enable_pagination : Bool
  pub page_retry_attempts : ℕ
  pub tenant_id_columns : List Text

pub record SsTableLoader : Type 0 where
  pub config : LoaderConfig
  pub source : Connection
  pub target : Connection
  pub filter : Option Governor
  pub total_rows : ℕ
  pub migrated_rows : ℕ
  pub failed_rows : ℕ
  pub filtered_rows : ℕ
  pub tables_completed : ℕ
  pub tables_total : ℕ
  pub tables_skipped : ℕ
  pub skipped_ranges : ℕ
  pub is_running : Bool
  pub is_paused : Bool

-- insert_row_with_retry: `left` attempts after this one.
unfoldable pub insert_attempts : ℕ → Text → SsTableLoader → Bool × SsTableLoader
insert_attempts zero insert_query l =
    let (r, target) = execute l.target insert_query in
    if is_ok r
    then (true, record l { target = target; migrated_rows = fetch_add l.migrated_rows 1 })
    else (false, record l { target = target; failed_rows = fetch_add l.failed_rows 1 })
insert_attempts (suc left) insert_query l =
    let (r, target) = execute l.target insert_query in
    let retried = insert_attempts left insert_query (record l { target = target }) in
    if is_ok r
    then (true, record l { target = target; migrated_rows = fetch_add l.migrated_rows 1 })
    else retried

unfoldable pub insert_row_with_retry : ℕ → Text → SsTableLoader → Bool × SsTableLoader
unfolding insert_attempts
insert_row_with_retry max_retries insert_query l = insert_attempts max_retries insert_query l

unfoldable pub is_skip_tenant : FilterDecision → Bool
is_skip_tenant skip_tenant = true
is_skip_tenant allow = false
is_skip_tenant skip_table = false
is_skip_tenant source_only_read = false

-- The loop over the tenant columns: the first column whose value is blacklisted ends it.
unfoldable pub check_columns : List Text → (Text → Option Text) → Governor → Bool × Governor
unfolding is_skip_tenant
check_columns [] row g = (false, g)
check_columns (column ∷ columns) row g = elim (row column) [
  | none ↦ check_columns columns row g
  | some tenant ↦
      let (decision, g1) = Filter.check_tenant_id g tenant in
      let rest = check_columns columns row g1 in
      if is_skip_tenant decision then (true, g1) else rest
]

-- `parsed` is what json::parse makes of the row, `none` for a json::exception.
unfoldable pub filter_parsed :
    Option (Text → Option Text) → List Text → Governor → SsTableLoader → Bool × SsTableLoader
unfolding check_columns
filter_parsed none columns g l = (false, l)
filter_parsed (some row) columns g l =
    let (skip, g1) = check_columns columns row g in
    (
      skip,
      record l {
        filter = some g1;
        filtered_rows = if skip then fetch_add l.filtered_rows 1 else l.filtered_rows;
      },
    )

-- filter_json_row: whether the row is left out.
unfoldable pub filter_json_row :
    (Text → Option (Text → Option Text)) → Text → List Text → SsTableLoader → Bool × SsTableLoader
unfolding filter_parsed
filter_json_row parse json_row columns l = elim l.filter [
  | none ↦ (false, l)
  | some g ↦
      if not (Filter.is_enabled g) || is_empty columns
      then (false, l)
      else filter_parsed (parse json_row) columns g l
]

-- The page's attempts, `left` of them after this one. Of the pages, the source fetches one.
unfoldable pub fetch_page : ℕ → ℕ → Text → Connection → Result (Unit {0}) × Connection
unfolding decimal
fetch_page zero attempts query c =
    let (r, c1) = execute c query in
    elim r [
      | ok u ↦ (ok tt, c1)
      | throw e ↦ (
        throw (
            database_error (
              codes "Page 0 fetch failed after "
              ++ (decimal 20 attempts ++ (codes " retries: " ++ what e)))),
        c1,
      )
    ]
fetch_page (suc left) attempts query c =
    let (r, c1) = execute c query in
    let retried = fetch_page left attempts query c1 in
    elim r [ ok u ↦ (ok tt, c1) | throw e ↦ retried ]

-- The unpaged path: one SELECT of the whole range.
unfoldable pub read_unpaged : Text → SsTableLoader → Result (Unit {0}) × SsTableLoader
read_unpaged query l =
    let (r, source) = execute l.source query in
    elim r [
      | ok u ↦ (ok tt, record l { source = source })
      | throw e ↦ (
        throw e,
        record l {
          source = source;
          failed_rows = fetch_add l.failed_rows 1;
          skipped_ranges = fetch_add l.skipped_ranges 1;
        },
      )
    ]

unfoldable pub process_range_sync :
    SsTableLoader → TokenRange → Text → List Text → Result (Unit {0}) × SsTableLoader
unfolding fetch_page read_unpaged
process_range_sync l range table partition_keys =
    let query = build_range_query table partition_keys range in
    let attempts = l.config.page_retry_attempts in
    let (r, source) = fetch_page attempts attempts query l.source in
    if l.config.enable_pagination then (r, record l { source = source }) else read_unpaged query l

-- The body of a thread in migrate_table, run without a break: a range that fails is counted, and
-- nothing is thrown on.
unfoldable pub run_range : Text → List Text → TokenRange → SsTableLoader → SsTableLoader
unfolding process_range_sync
run_range table partition_keys range l =
    let (r, l1) = process_range_sync l range table partition_keys in
    if is_ok r then l1 else record l1 { skipped_ranges = fetch_add l1.skipped_ranges 1 }
