-- ===== src/Svckit/Database.antt =====
-- svckit/include/svckit/{config,database}.hpp and svckit/src/database.cpp: ScyllaConnection.
-- The DataStax driver is a parameter: `Driver` says how it answers, and may answer in any way.
pub mod Laws
pub mod Tests
use scylla_cluster_sync_cxx.Prelude.{
  ℕ, ◌+◌, Text, codes, Bool, true, false, ◌&&◌, Option, none, some, List, [], ◌∷◌, ◌++◌, ltb,
  if◌then◌else◌,
}
use scylla_cluster_sync_cxx.Svckit.Errors.{SyncError, database_error, Result, ok, throw}

pub record DatabaseConfig : Type 0 where
  pub driver : Text
  pub hosts : List Text
  pub port : ℕ
  pub keyspace : Text
  pub username : Option Text
  pub password : Option Text
  pub connection_timeout_ms : ℕ
  pub request_timeout_ms : ℕ
  pub pool_size : ℕ
  pub speculative_execution : Bool
  pub speculative_delay_ms : ℕ

-- What `connect` sets on the CassCluster.
pub record ClusterOptions : Type 0 where
  pub contact_points : Text
  pub port : ℕ
  pub connect_timeout : ℕ
  pub request_timeout : ℕ
  pub io_threads : ℕ
  pub credentials : Option (Text × Text)
  pub speculative_delay : Option ℕ

-- The driver and the cluster behind it. `reply` is the error message of a statement, `none` for
-- CASS_OK, given the statements that were issued before on this session (the newest first).
pub record Driver : Type 0 where
  pub cluster_new : Bool
  pub session_new : Bool
  pub connect_error : ClusterOptions → Option Text → Option Text
  pub reply : List Text → Text → Option Text

-- `session` and `cluster` say whether the unique_ptrs hold a handle; `issued` lists the statements
-- handed to the driver, the newest first.
pub record Connection : Type 0 where
  pub config : DatabaseConfig
  pub driver : Driver
  pub cluster : Bool
  pub session : Bool
  pub connected : Bool
  pub issued : List Text

unfoldable pub contact_points : List Text → Text
contact_points [] = []
contact_points (h ∷ []) = h
contact_points (h ∷ g ∷ hs) = h ++ (b',' ∷ contact_points (g ∷ hs))

both : Option Text → Option Text → Option (Text × Text)
both (some u) (some p) = some (u, p)
both (some u) none = none
both none p = none

cluster_options : DatabaseConfig → ClusterOptions
unfolding contact_points both
cluster_options c = record {
  contact_points = contact_points c.hosts;
  port = c.port;
  connect_timeout = c.connection_timeout_ms;
  request_timeout = c.request_timeout_ms;
  io_threads = if ltb c.pool_size 1 then 1 else c.pool_size;
  credentials = both c.username c.password;
  speculative_delay = if c.speculative_execution then some c.speculative_delay_ms else none;
}

-- cass_session_connect_keyspace where the config names a keyspace.
connect_keyspace : Text → Option Text
connect_keyspace [] = none
connect_keyspace (c ∷ s) = some (c ∷ s)

-- connect(): the result, and the connection with the handles that are held by then.
unfoldable pub connect : Connection → Result (Unit {0}) × Connection
unfolding cluster_options connect_keyspace
connect c =
    if c.driver.cluster_new
    then (if c.driver.session_new
        then elim (c.driver.connect_error (cluster_options c.config)
            (connect_keyspace c.config.keyspace)) [
              | none ↦ (ok tt, record c { cluster = true; session = true; connected = true })
              | some msg ↦ (
                throw (
                    database_error (
                      codes "Failed to connect to "
                      ++ (c.config.driver ++ (codes " cluster: " ++ msg)))),
                record c { cluster = true; session = true },
              )
            ]
        else (
          throw (database_error (codes "Failed to allocate CassSession")),
          record c { cluster = true },
        ))
    else (throw (database_error (codes "Failed to allocate CassCluster")), c)

-- The constructor: a connection with no handles, then connect().
unfoldable pub construct : DatabaseConfig → Driver → Result (Unit {0}) × Connection
unfolding connect
construct config driver = connect (record {
  config = config;
  driver = driver;
  cluster = false;
  session = false;
  connected = false;
  issued = [];
})

-- close(): the connection after it, and how many times cass_session_close was called.
unfoldable pub close : Connection → Connection × ℕ
close c = if c.connected && c.session then (record c { connected = false }, 1) else (c, 0)

-- The move constructor: the new connection, and what is left of `other`.
unfoldable pub move : Connection → Connection × Connection
move other = (other, record other { cluster = false; session = false; connected = false })

-- Move assignment to another object: the target after it, what is left of `other`, and the calls
-- of cass_session_close.
unfoldable pub move_assign : Connection → Connection → Connection × Connection × ℕ
unfolding close move
move_assign this other =
    let (old, closes) = close this in let (new, rest) = move other in (new, rest, closes)

-- execute(): synchronous execution of a statement.
unfoldable pub execute : Connection → Text → Result (Unit {0}) × Connection
execute c cql =
    if c.connected && c.session
    then (
      elim (c.driver.reply c.issued cql) [
        | none ↦ ok tt
        | some msg ↦ throw (database_error (codes "Query execution failed: " ++ msg))
      ],
      record c { issued = cql ∷ c.issued },
    )
    else (throw (database_error (codes "Cannot execute query — session not connected")), c)

-- ping(): a catch-all handler turns every exception into false.
unfoldable pub ping : Connection → Bool × Connection
unfolding execute
ping c =
    if c.connected && c.session
    then (let (r, c') = execute c (codes "SELECT now() FROM system.local") in
        (elim r [ ok u ↦ true | throw e ↦ false ], c'))
    else (false, c)
