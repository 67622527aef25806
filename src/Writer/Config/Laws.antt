-- ===== src/Writer/Config/Laws.antt =====
-- What a configuration of the dual writer holds (services/dual-writer/src/config.cpp).
use scylla_cluster_sync_cxx.Prelude.{
  ◌*◌, ◌%◌, ◌^◌, ◌<◌, ◌≡◌, refl, none, some, false, arith, if◌then◌else◌, codes,
}
use scylla_cluster_sync_cxx.Svckit.Database.{DatabaseConfig}
use scylla_cluster_sync_cxx.Svckit.Config.{
  Yaml, is_section, default_database, load_database_config, load_observability_config,
  override_with,
}
use scylla_cluster_sync_cxx.Writer.Config.{
  DualWriterConfig, Environment, parse_writer_config, retry_delay, filters_of, proxy_source,
}

module _ (Y : Yaml) where
  -- The sections of a configuration, with the environment's credentials over those of the file.
  pub record IsReadFrom (env : Environment) (root : Y.Node) (c : DualWriterConfig) : Type 0 where
    pub source :
        (d : DatabaseConfig) × (load_database_config Y (Y.get root (codes "source")) ≡ some d)
        × (c.source ≡ record d {
          username = override_with env.source_username d.username;
          password = override_with env.source_password d.password;
        })
    pub target :
        (d : DatabaseConfig) × (load_database_config Y (Y.get root (codes "target")) ≡ some d)
        × (c.target ≡ record d {
          username = override_with env.target_username d.username;
          password = override_with env.target_password d.password;
        })
    pub writer : c.writer ≡ parse_writer_config Y (Y.get root (codes "writer"))
    pub filter : filters_of Y root ≡ some c.filter
    pub observability :
        load_observability_config Y (Y.get root (codes "observability")) ≡ some c.observability

  -- The retry delay of a section: 1000 times its seconds, modulo 2^64; 60 seconds where they are no
  -- 64-bit number; half a second where none are given.
  pub retry_delay_outcome :
      (node : Y.Node)
      → let seconds = Y.get node (codes "retry_interval_secs") in
        (retry_delay Y node < 2 ^ 64)
        × (retry_delay Y node ≡ (
            if Y.is_defined seconds
            then elim (Y.as_number 64 seconds) [ none ↦ 60000 | some n ↦ n * 1000 % 2 ^ 64 ]
            else 500))
  unfolding retry_delay
  retry_delay_outcome node = ground arith

  -- A configuration whose source is no map is loaded all the same, and the proxy then looks for the
  -- source cluster on this machine, at the default port.
  proxy_source_fallback :
      (node : Y.Node) (c : DatabaseConfig)
      → is_section Y node ≡ false
      → load_database_config Y node ≡ some c
      → proxy_source c ≡ (codes "127.0.0.1", 9042)
  unfolding load_database_config proxy_source
  proxy_source_fallback node c none_given h =
      let same : c ≡ default_database = ground arith in rw same refl
