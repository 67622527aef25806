-- ===== src/Loader/Config.antt =====
-- services/sstable-loader/src/config.cpp with its header, and load_filter_config of filter.cpp.
pub mod Laws
pub mod Startup
pub mod Tests
use scylla_cluster_sync_cxx.Prelude.{
  ℕ, Bool, true, false, ◌&&◌, Option, none, some, List, [], ◌∷◌, if◌then◌else◌, Text, codes,
}
use scylla_cluster_sync_cxx.Svckit.Database.{DatabaseConfig}
use scylla_cluster_sync_cxx.Svckit.Config.{
  Yaml, ObservabilityConfig, ◌>>=◌, is_section, read_or, read_text, read_texts, read_sequence,
  load_database_config, load_observability_config, with_credentials, File, Loaded, loaded,
  config_error, yaml_exception, load_config_yaml, with_root,
}
use scylla_cluster_sync_cxx.Loader.Filter
use scylla_cluster_sync_cxx.Loader.Filter.{FilterConfig, Governor}
use scylla_cluster_sync_cxx.Loader.Ranges.{TableConfig}

pub record LoaderConfig : Type 0 where
  pub tables : List TableConfig
  pub num_ranges_per_core : ℕ
  pub max_concurrent_loaders : ℕ
  pub batch_size : ℕ
  pub checkpoint_interval_secs : ℕ
  pub checkpoint_file : Text
  pub prefetch_rows : ℕ
  pub compression : Bool
  pub max_throughput_mbps : ℕ
  pub max_retries : ℕ
  pub retry_delay_secs : ℕ
  pub skip_on_error : Bool
  pub failed_rows_file : Text
  pub insert_batch_size : ℕ
  pub insert_concurrency : ℕ
  pub enable_pagination : Bool
  pub page_size : ℕ
  pub page_retry_attempts : ℕ
  pub page_retry_backoff_ms : ℕ

pub record SsTableLoaderConfig : Type 0 where
  pub source : DatabaseConfig
  pub target : DatabaseConfig
  pub loader : LoaderConfig
  pub observability : ObservabilityConfig

pub record Environment : Type 0 where
  pub source_username : Option Text
  pub source_password : Option Text
  pub target_username : Option Text
  pub target_password : Option Text

abbrev pub default_loader : LoaderConfig
default_loader = record {
  tables = [];
  num_ranges_per_core = 4;
  max_concurrent_loaders = 32;
  batch_size = 5000;
  checkpoint_interval_secs = 60;
  checkpoint_file = codes "/tmp/sstable-loader-checkpoint.json";
  prefetch_rows = 10000;
  compression = true;
  max_throughput_mbps = 1000;
  max_retries = 3;
  retry_delay_secs = 5;
  skip_on_error = false;
  failed_rows_file = codes "failed_rows.jsonl";
  insert_batch_size = 100;
  insert_concurrency = 32;
  enable_pagination = false;
  page_size = 5000;
  page_retry_attempts = 3;
  page_retry_backoff_ms = 500;
}

abbrev pub no_filter : FilterConfig
no_filter = record { tenant_blacklist = []; table_blacklist = []; tenant_id_columns = [] }

-- The default column, where none is given.
or_domain_id : List Text → List Text
or_domain_id [] = codes "system_domain_id" ∷ []
or_domain_id (c ∷ cs) = c ∷ cs

text_or : Option Text → Text → Text
text_or none d = d
text_or (some t) d = t

module _ (Y : Yaml) where
  -- A table that is no map has no name and no key.
  unfoldable pub parse_table_config : Y.Node → Option TableConfig
  unfolding is_section read_sequence
  parse_table_config node =
      if is_section Y node
      then (Y.as_text (Y.get node (codes "name")) >>= λ name.
          read_sequence Y node (codes "partition_key") >>= λ keys.
          some (record { name = name; partition_key = keys }))
      else some (record { name = codes ""; partition_key = [] })

  unfoldable pub parse_tables : List Y.Node → Option (List TableConfig)
  unfolding parse_table_config
  parse_tables [] = some []
  parse_tables (n ∷ ns) = elim (parse_table_config n) [
    | none ↦ none
    | some t ↦ elim (parse_tables ns) [ none ↦ none | some ts ↦ some (t ∷ ts) ]
  ]

  tables_of : Y.Node → Option (List TableConfig)
  unfolding parse_tables
  tables_of node =
      let tables = Y.get node (codes "tables") in
      if Y.is_defined tables && Y.is_sequence tables then parse_tables (Y.items tables) else some []

  -- `if (node[k]) x = node[k].as<uint32_t>(d);` where `d` is the default too.
  number_or : ℕ → Y.Node → Text → ℕ → ℕ
  unfolding read_or
  number_or width node k d = read_or Y (Y.as_number width) node k d d

  read_loader : Y.Node → Option LoaderConfig
  unfolding tables_of read_text text_or number_or read_or
  read_loader node = do
    tables ← tables_of node
    checkpoint_file ← read_text Y node (codes "checkpoint_file") none
    failed_rows_file ← read_text Y node (codes "failed_rows_file") none
    some (record {
      tables = tables;
      num_ranges_per_core = number_or 32 node (codes "num_ranges_per_core") 4;
      max_concurrent_loaders = number_or 32 node (codes "max_concurrent_loaders") 32;
      batch_size = number_or 32 node (codes "batch_size") 5000;
      checkpoint_interval_secs = number_or 64 node (codes "checkpoint_interval_secs") 60;
      checkpoint_file = text_or checkpoint_file default_loader.checkpoint_file;
      prefetch_rows = number_or 32 node (codes "prefetch_rows") 10000;
      compression = read_or Y Y.as_flag node (codes "compression") true true;
      max_throughput_mbps = number_or 64 node (codes "max_throughput_mbps") 1000;
      max_retries = number_or 32 node (codes "max_retries") 3;
      retry_delay_secs = number_or 64 node (codes "retry_delay_secs") 5;
      skip_on_error = read_or Y Y.as_flag node (codes "skip_on_error") false false;
      failed_rows_file = text_or failed_rows_file default_loader.failed_rows_file;
      insert_batch_size = number_or 32 node (codes "insert_batch_size") 100;
      insert_concurrency = number_or 32 node (codes "insert_concurrency") 32;
      enable_pagination = read_or Y Y.as_flag node (codes "enable_pagination") false false;
      page_size = number_or 32 node (codes "page_size") 5000;
      page_retry_attempts = number_or 32 node (codes "page_retry_attempts") 3;
      page_retry_backoff_ms = number_or 64 node (codes "page_retry_backoff_ms") 500;
    })

  unfoldable pub parse_loader_config : Y.Node → Option LoaderConfig
  unfolding is_section read_loader
  parse_loader_config node = if is_section Y node then read_loader node else some default_loader

  read_root : Environment → Y.Node → Option SsTableLoaderConfig
  unfolding load_database_config parse_loader_config load_observability_config with_credentials
  read_root env root = do
    source ← load_database_config Y (Y.get root (codes "source"))
    target ← load_database_config Y (Y.get root (codes "target"))
    loader ← parse_loader_config (Y.get root (codes "loader"))
    observability ← load_observability_config Y (Y.get root (codes "observability"))
    some (record {
      source = with_credentials env.source_username env.source_password source;
      target = with_credentials env.target_username env.target_password target;
      loader = loader;
      observability = observability;
    })

  unfoldable pub from_yaml : Environment → Text → File Y.Node → Loaded SsTableLoaderConfig
  unfolding load_config_yaml with_root read_root
  from_yaml env path file = with_root Y (load_config_yaml Y path file) (read_root env)

  read_filters : Y.Node → Option FilterConfig
  unfolding read_texts or_domain_id
  read_filters filters = do
    tenants ← read_texts Y filters (codes "tenant_blacklist")
    tables ← read_texts Y filters (codes "table_blacklist")
    columns ← read_texts Y filters (codes "tenant_id_columns")
    some (record {
      tenant_blacklist = tenants;
      table_blacklist = tables;
      tenant_id_columns = or_domain_id columns;
    })

  -- Without a map of filters, the early return.
  unfoldable pub filters_of : Y.Node → Option FilterConfig
  unfolding is_section read_filters
  filters_of root =
      let filters = Y.get root (codes "filters") in
      if is_section Y filters then read_filters filters else some no_filter

  unfoldable pub load_filter_config : Text → File Y.Node → Loaded FilterConfig
  unfolding load_config_yaml with_root filters_of
  load_filter_config path file = with_root Y (load_config_yaml Y path file) filters_of

-- main: the governor of the service. Whatever keeps the rules from being loaded, and --skip-filters,
-- leave it without rules.
unfoldable pub startup_filter : Bool → Loaded FilterConfig → Governor
unfolding Filter.construct
startup_filter true rules = Filter.construct no_filter
startup_filter false (loaded rules) = Filter.construct rules
startup_filter false (config_error message) = Filter.construct no_filter
startup_filter false yaml_exception = Filter.construct no_filter
