-- ===== src/Writer/Config.antt =====
-- services/dual-writer/src/config.cpp and its header. `Environment` holds the variables that override the
-- credentials.
pub mod Laws
pub mod Tests
use scylla_cluster_sync_cxx.Prelude.{
  ℕ, ◌*◌, ◌%◌, ◌^◌, Bool, false, Option, none, some, List, [], ◌∷◌, if◌then◌else◌, Text, codes,
}
use scylla_cluster_sync_cxx.Svckit.Database.{DatabaseConfig}
use scylla_cluster_sync_cxx.Svckit.Config.{
  Yaml, ObservabilityConfig, ◌>>=◌, is_section, read_or, read_texts, load_database_config,
  load_observability_config, with_credentials, File, Loaded, load_config_yaml, with_root,
}
use scylla_cluster_sync_cxx.Writer.DualWriter.{WriterConfig}
use scylla_cluster_sync_cxx.Writer.Filter.{FilterConfig}

pub record DualWriterConfig : Type 0 where
  pub source : DatabaseConfig
  pub target : DatabaseConfig
  pub writer : WriterConfig
  pub filter : FilterConfig
  pub observability : ObservabilityConfig

pub record Environment : Type 0 where
  pub source_username : Option Text
  pub source_password : Option Text
  pub target_username : Option Text
  pub target_password : Option Text

abbrev pub default_writer : WriterConfig
default_writer = record {
  max_concurrent_writes = 32;
  write_timeout_ms = 10000;
  max_retries = 3;
  retry_delay_ms = 500;
  skip_on_error = false;
  failed_rows_file = codes "failed_rows.jsonl";
}

abbrev pub no_filter : FilterConfig
no_filter = record { tenant_blacklist = []; table_blacklist = []; tenant_id_columns = [] }

module _ (Y : Yaml) where
  -- The seconds of the configuration in milliseconds, which wrap around.
  unfoldable pub retry_delay : Y.Node → ℕ
  retry_delay node =
      let field = Y.get node (codes "retry_interval_secs") in
      if Y.is_defined field
      then elim (Y.as_number 64 field) [ none ↦ 60 | some n ↦ n ] * 1000 % 2 ^ 64
      else 500

  -- The mode is read, and nothing is done with it.
  unfoldable pub parse_writer_config : Y.Node → WriterConfig
  unfolding is_section read_or retry_delay
  parse_writer_config node =
      let read : WriterConfig = record {
        max_concurrent_writes = read_or Y (Y.as_number 32) node (codes "batch_size") 100 32;
        write_timeout_ms = read_or Y (Y.as_number 32) node (codes "shadow_timeout_ms") 10000 10000;
        max_retries = read_or Y (Y.as_number 32) node (codes "max_retry_attempts") 3 3;
        retry_delay_ms = retry_delay node;
        skip_on_error = read_or Y Y.as_flag node (codes "skip_on_error") false false;
        failed_rows_file =
            read_or Y Y.as_text node (codes "failed_rows_file") (codes "failed_rows.jsonl")
              (codes "failed_rows.jsonl");
      } in
      if is_section Y node then read else default_writer

  read_filter : Y.Node → Option FilterConfig
  unfolding read_texts
  read_filter node = do
    tenants ← read_texts Y node (codes "tenant_blacklist")
    tables ← read_texts Y node (codes "table_blacklist")
    columns ← read_texts Y node (codes "tenant_id_columns")
    some (record {
      tenant_blacklist = tenants;
      table_blacklist = tables;
      tenant_id_columns = columns;
    })

  unfoldable pub parse_filter_config : Y.Node → Option FilterConfig
  unfolding is_section read_filter
  parse_filter_config node = if is_section Y node then read_filter node else some no_filter

  -- `if (root["filters"]) filter = parse_filter_config(root["filters"]);`
  unfoldable pub filters_of : Y.Node → Option FilterConfig
  unfolding parse_filter_config
  filters_of root =
      let filters = Y.get root (codes "filters") in
      if Y.is_defined filters then parse_filter_config filters else some no_filter

  read_root : Environment → Y.Node → Option DualWriterConfig
  unfolding load_database_config parse_writer_config load_observability_config filters_of
      with_credentials
  read_root env root = do
    source ← load_database_config Y (Y.get root (codes "source"))
    target ← load_database_config Y (Y.get root (codes "target"))
    observability ← load_observability_config Y (Y.get root (codes "observability"))
    filter ← filters_of root
    some (record {
      source = with_credentials env.source_username env.source_password source;
      target = with_credentials env.target_username env.target_password target;
      writer = parse_writer_config (Y.get root (codes "writer"));
      filter = filter;
      observability = observability;
    })

  unfoldable pub from_yaml : Environment → Text → File Y.Node → Loaded DualWriterConfig
  unfolding load_config_yaml with_root read_root
  from_yaml env path file = with_root Y (load_config_yaml Y path file) (read_root env)

  -- The filter rules of a file of their own, which main gives to the governor.
  unfoldable pub load_filter_config : Text → File Y.Node → Loaded FilterConfig
  unfolding load_config_yaml with_root filters_of
  load_filter_config path file = with_root Y (load_config_yaml Y path file) filters_of

-- main: where the proxy finds the source cluster.
unfoldable pub proxy_source : DatabaseConfig → Text × ℕ
proxy_source c = (elim c.hosts [ [] ↦ codes "127.0.0.1" | h ∷ hs ↦ h ], c.port)
