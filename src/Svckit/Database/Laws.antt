-- ===== src/Svckit/Database/Laws.antt =====
-- What the services rely on of ScyllaConnection (svckit/src/database.cpp).
use scylla_cluster_sync_cxx.Prelude.{
  ◌+◌, ◌≡◌, ◌↔◌, Text, codes, true, false, ◌&&◌, ◌∷◌, arith, if◌then◌else◌,
}
use scylla_cluster_sync_cxx.Svckit.Errors.{database_error, ok, throw}
use scylla_cluster_sync_cxx.Svckit.Database.{
  DatabaseConfig, Driver, Connection, construct, close, move, move_assign, execute, ping,
}

-- A statement changes nothing of the connection but the log, which grows by it if it is issued.
pub execute_keeps :
    (c : Connection) (cql : Text)
    → (execute c cql).1
      ≡ record c { issued = if c.connected && c.session then cql ∷ c.issued else c.issued }
unfolding execute
execute_keeps c cql = ground arith

-- A closed connection refuses every statement: `execute` throws "not connected", `ping` is false,
-- no statement reaches the driver, and closing it again does not close the session again.
pub close_refuses :
    (c : Connection) (cql : Text)
    → (execute (close c).0 cql ≡ (
      throw (database_error (codes "Cannot execute query — session not connected")),
      (close c).0,
    ))
      × (ping (close c).0 ≡ (false, (close c).0))
      × ((close (close c).0).1 ≡ 0)
unfolding close execute ping
close_refuses c cql = ground arith

-- Whatever was constructed and moved or not, a session is closed exactly once: a moved-from
-- connection closes nothing and refuses statements, the new one closes what the old one would have,
-- and move assignment closes the session that the target held before.
pub move_closes_once :
    (c d : Connection) (cql : Text)
    → ((close (move c).1).1 ≡ 0)
      × ((close (move c).0).1 ≡ (close c).1)
      × ((close (move_assign d c).0).1 + (move_assign d c).2 ≡ (close c).1 + (close d).1)
      × ((close (move_assign d c).1).1 ≡ 0)
      × ((execute (move c).1 cql).1 ≡ (move c).1)
unfolding close move move_assign execute
move_closes_once c d cql = ground arith

-- `ping` is true exactly when its probe statement is executed without an error, and it sends that
-- statement to the cluster exactly when a session is connected.
pub ping_iff :
    (c : Connection)
    → (((ping c).0 ≡ true) ↔ ((execute c (codes "SELECT now() FROM system.local")).0 ≡ ok tt))
      × ((ping c).1 ≡ (execute c (codes "SELECT now() FROM system.local")).1)
unfolding ping
ping_iff c = ground arith

-- The constructor ends with a connected session exactly when it does not throw.
pub construct_connected :
    (config : DatabaseConfig) (driver : Driver)
    → (((construct config driver).0 ≡ ok tt) ↔ ((construct config driver).1.connected ≡ true))
unfolding construct
construct_connected config driver = ground arith
