-- ===== src/Svckit/Database/Tests.antt =====
-- Runs of ScyllaConnection, and the laws of Svckit/Database/Laws at concrete connections.
use scylla_cluster_sync_cxx.Prelude.{
  codes, true, false, none, some, [], ◌∷◌, text_eq, if◌then◌else◌,
}
use scylla_cluster_sync_cxx.Svckit.Database.{DatabaseConfig, Driver, Connection}

abbrev pub sample_config : DatabaseConfig
sample_config = record {
  driver = codes "scylla";
  hosts = codes "a" ∷ codes "b" ∷ [];
  port = 9042;
  keyspace = codes "ks";
  username = none;
  password = none;
  connection_timeout_ms = 5000;
  request_timeout_ms = 30000;
  pool_size = 8;
  speculative_execution = false;
  speculative_delay_ms = 100;
}

-- A cluster that refuses one statement and accepts the rest.
abbrev pub refuses_bad : Driver
refuses_bad = record {
  cluster_new = true;
  session_new = true;
  connect_error = λ options keyspace. none;
  reply = λ history cql. if text_eq cql (codes "bad") then some (codes "syntax") else none;
}

-- A cluster that refuses everything.
abbrev pub refuses_all : Driver
refuses_all = record {
  cluster_new = true;
  session_new = true;
  connect_error = λ options keyspace. some (codes "down");
  reply = λ history cql. some (codes "unavailable");
}

abbrev pub online : Driver → Connection
online d = record {
  config = sample_config;
  driver = d;
  cluster = true;
  session = true;
  connected = true;
  issued = [];
}
