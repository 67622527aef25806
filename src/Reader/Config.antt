-- ===== src/Reader/Config.antt =====
-- services/dual-reader/src/config.cpp with its header, and make_strategy of main.cpp.
pub mod Laws
use scylla_cluster_sync_cxx.Prelude.{
  ℕ, Bool, true, false, Option, none, some, List, [], if◌then◌else◌, Text, codes, text_eq,
}
use scylla_cluster_sync_cxx.Svckit.Database.{DatabaseConfig}
use scylla_cluster_sync_cxx.Svckit.Config.{
  Yaml, ObservabilityConfig, ◌>>=◌, is_section, read_or, read_sequence, load_database_config,
  load_observability_config, with_credentials, File, Loaded, load_config_yaml, with_root,
}
use scylla_cluster_sync_cxx.Reader.Filter.{FilterConfig}
use scylla_cluster_sync_cxx.Reader.Reconciliation
use scylla_cluster_sync_cxx.Reader.Reconciliation.{Strategy}

pub data ReconciliationMode : Type 0 where
  source_wins newest_wins manual : ReconciliationMode

-- make_strategy: the strategies by the names of their modes.
unfoldable pub make_strategy : ReconciliationMode → Strategy
make_strategy source_wins = Reconciliation.source_wins
make_strategy newest_wins = Reconciliation.newest_wins
make_strategy manual = Reconciliation.manual

-- Any other text is the first mode.
unfoldable pub mode_of : Text → ReconciliationMode
mode_of mode =
    if text_eq mode (codes "newest_wins")
    then newest_wins
    else if text_eq mode (codes "manual")
    then manual
    else source_wins

pub record ReaderConfig (Y : Yaml) : Type 0 where
  pub tables : List Text
  pub validation_interval_secs : ℕ
  pub sample_rate : Y.Float
  pub max_concurrent_reads : ℕ
  pub batch_size : ℕ
  pub max_discrepancies_to_report : ℕ
  pub auto_reconcile : Bool
  pub reconciliation_mode : ReconciliationMode

pub record DualReaderConfig (Y : Yaml) : Type 0 where
  pub source : DatabaseConfig
  pub target : DatabaseConfig
  pub reader : ReaderConfig Y
  pub filter : FilterConfig
  pub observability : ObservabilityConfig

pub record Environment : Type 0 where
  pub source_username : Option Text
  pub source_password : Option Text
  pub target_username : Option Text
  pub target_password : Option Text

abbrev pub default_filter : FilterConfig
default_filter = record {
  enabled = false;
  compare_tables = [];
  compare_system_domain_ids = [];
  system_domain_id_column = codes "system_domain_id";
  log_discrepancies = true;
  discrepancy_log_path = codes "discrepancies.jsonl";
}

module _ (Y : Yaml) where
  default_reader : ReaderConfig Y
  default_reader = record {
    tables = [];
    validation_interval_secs = 300;
    sample_rate = Y.hundredth;
    max_concurrent_reads = 10;
    batch_size = 1000;
    max_discrepancies_to_report = 100;
    auto_reconcile = false;
    reconciliation_mode = source_wins;
  }

  unfoldable pub mode_at : Y.Node → ReconciliationMode
  unfolding mode_of
  mode_at node =
      let field = Y.get node (codes "reconciliation_mode") in
      if Y.is_defined field
      then mode_of (elim (Y.as_text field) [ none ↦ codes "source_wins" | some t ↦ t ])
      else source_wins

  read_reader : Y.Node → Option (ReaderConfig Y)
  unfolding read_or read_sequence mode_at
  read_reader node = do
    tables ← read_sequence Y node (codes "tables")
    some (record {
      tables = tables;
      validation_interval_secs =
          read_or Y (Y.as_number 64) node (codes "validation_interval_secs") 300 300;
      sample_rate = read_or Y Y.as_float node (codes "sample_rate") Y.hundredth Y.hundredth;
      max_concurrent_reads = read_or Y (Y.as_number 32) node (codes "max_concurrent_reads") 10 10;
      batch_size = read_or Y (Y.as_number 32) node (codes "batch_size") 1000 1000;
      max_discrepancies_to_report =
          read_or Y (Y.as_number 32) node (codes "max_discrepancies_to_report") 100 100;
      auto_reconcile = read_or Y Y.as_flag node (codes "auto_reconcile") false false;
      reconciliation_mode = mode_at node;
    })

  unfoldable pub parse_reader_config : Y.Node → Option (ReaderConfig Y)
  unfolding is_section read_reader default_reader
  parse_reader_config node = if is_section Y node then read_reader node else some default_reader

  read_filter : Y.Node → Option FilterConfig
  unfolding read_or read_sequence
  read_filter node = do
    tables ← read_sequence Y node (codes "compare_tables")
    domains ← read_sequence Y node (codes "compare_system_domain_ids")
    some (record {
      enabled = read_or Y Y.as_flag node (codes "enabled") false false;
      compare_tables = tables;
      compare_system_domain_ids = domains;
      system_domain_id_column =
          read_or Y Y.as_text node (codes "system_domain_id_column") (codes "system_domain_id")
            (codes "system_domain_id");
      log_discrepancies = read_or Y Y.as_flag node (codes "log_discrepancies") true true;
      discrepancy_log_path =
          read_or Y Y.as_text node (codes "discrepancy_log_path") (codes "discrepancies.jsonl")
            (codes "discrepancies.jsonl");
    })

  unfoldable pub parse_filter_config : Y.Node → Option FilterConfig
  unfolding is_section read_filter
  parse_filter_config node = if is_section Y node then read_filter node else some default_filter

  read_root : Environment → Y.Node → Option (DualReaderConfig Y)
  unfolding load_database_config parse_reader_config parse_filter_config load_observability_config
      with_credentials
  read_root env root = do
    source ← load_database_config Y (Y.get root (codes "source"))
    target ← load_database_config Y (Y.get root (codes "target"))
    reader ← parse_reader_config (Y.get root (codes "reader"))
    filter ← parse_filter_config (Y.get root (codes "filter"))
    observability ← load_observability_config Y (Y.get root (codes "observability"))
    some (record {
      source = with_credentials env.source_username env.source_password source;
      target = with_credentials env.target_username env.target_password target;
      reader = reader;
      filter = filter;
      observability = observability;
    })

  unfoldable pub from_yaml : Environment → Text → File Y.Node → Loaded (DualReaderConfig Y)
  unfolding load_config_yaml with_root read_root
  from_yaml env path file = with_root Y (load_config_yaml Y path file) (read_root env)
