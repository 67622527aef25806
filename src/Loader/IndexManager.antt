-- ===== src/Loader/IndexManager.antt =====
-- services/sstable-loader/src/index_manager.cpp: dropping, rebuilding and verifying secondary
-- indexes, one after the other or in batches of threads. Two threads of a batch interleave by whole
-- statements: `schedule` says in which order the threads of a batch run, and push under the lock.
-- The pauses are not modelled.
pub mod Config
pub mod Standard
pub mod Parallel
pub mod Tests
use scylla_cluster_sync_cxx.Prelude.{
  ℕ, zero, suc, Bool, true, false, List, [], ◌∷◌, ◌++◌, if◌then◌else◌, ltb, Text, codes, text_eq,
  decimal, length, take, drop, is_empty,
}
use scylla_cluster_sync_cxx.Svckit.Errors.{
  SyncError, database_error, what, Result, ok, throw, is_ok,
}
use scylla_cluster_sync_cxx.Svckit.Database.{Connection, execute}

pub record IndexInfo : Type 0 where
  pub keyspace : Text
  pub table : Text
  pub index_name : Text
  pub column_name : Text
  pub index_type : Text

unfoldable pub drop_ddl : IndexInfo → Text
drop_ddl i = codes "DROP INDEX IF EXISTS " ++ (i.keyspace ++ (codes "." ++ i.index_name))

unfoldable pub create_ddl : IndexInfo → Text
create_ddl i =
    codes "CREATE INDEX IF NOT EXISTS "
    ++ (i.index_name
        ++ (codes " ON "
            ++ (i.keyspace
                ++ (codes "." ++ (i.table ++ (codes " (" ++ (i.column_name ++ codes ")")))))))

unfoldable pub verify_query : IndexInfo → Text
verify_query i =
    codes "SELECT index_name FROM system_schema.indexes WHERE keyspace_name = '"
    ++ (i.keyspace
        ++ (codes "' AND table_name = '"
            ++ (i.table ++ (codes "' AND index_name = '" ++ (i.index_name ++ codes "'")))))

-- StandardIndexStrategy::drop_indexes: a failure is logged, and the next index follows.
unfoldable pub standard_drop : List IndexInfo → Connection → List Text × Connection
standard_drop [] c = ([], c)
standard_drop (i ∷ is) c =
    let (r, c1) = execute c (drop_ddl i) in
    let (names, c2) = standard_drop is c1 in (if is_ok r then i.index_name ∷ names else names, c2)

-- StandardIndexStrategy::rebuild_indexes: the first failure is thrown.
unfoldable pub standard_rebuild : List IndexInfo → Connection → Result (Unit {0}) × Connection
standard_rebuild [] c = (ok tt, c)
standard_rebuild (i ∷ is) c =
    let (r, c1) = execute c (create_ddl i) in
    let rest = standard_rebuild is c1 in
    elim r [
      | ok u ↦ rest
      | throw e ↦ (
        throw (
            database_error
              (codes "Failed to rebuild index " ++ (i.index_name ++ (codes ": " ++ what e)))),
        c1,
      )
    ]

-- StandardIndexStrategy::verify_indexes
unfoldable pub standard_verify : List IndexInfo → Connection → Bool × Connection
standard_verify [] c = (true, c)
standard_verify (i ∷ is) c =
    let (r, c1) = execute c (verify_query i) in
    let rest = standard_verify is c1 in if is_ok r then rest else (false, c1)

-- The threads of one batch, in the order in which they run: what each pushes, if it drops its index.
unfoldable pub drop_threads : List IndexInfo → Connection → List Text × Connection
drop_threads [] c = ([], c)
drop_threads (i ∷ is) c =
    let (r, c1) = execute c (drop_ddl i) in
    let (names, c2) = drop_threads is c1 in (if is_ok r then i.index_name ∷ names else names, c2)

-- The threads of one batch: the names of those that fail.
unfoldable pub rebuild_threads : List IndexInfo → Connection → List Text × Connection
rebuild_threads [] c = ([], c)
rebuild_threads (i ∷ is) c =
    let (r, c1) = execute c (create_ddl i) in
    let (names, c2) = rebuild_threads is c1 in (if is_ok r then names else i.index_name ∷ names, c2)

-- The loop over batches of `p`, on fuel: one round of the fuel for each batch.
module _ (threads : List IndexInfo → Connection → List Text × Connection)
    (schedule : List IndexInfo → List IndexInfo) where
  unfoldable pub batches : ℕ → ℕ → List IndexInfo → Connection → List Text × Connection
  batches zero p is c = ([], c)
  batches (suc fuel) p [] c = ([], c)
  batches (suc fuel) p (i ∷ is) c =
      let (names, c1) = threads (schedule (take p (i ∷ is))) c in
      let (more, c2) = batches fuel p (drop p (i ∷ is)) c1 in (names ++ more, c2)

-- ParallelIndexStrategy::drop_indexes: a batch for each index is fuel enough.
unfoldable pub parallel_drop :
    (List IndexInfo → List IndexInfo) → ℕ → List IndexInfo → Connection → List Text × Connection
unfolding batches drop_threads
parallel_drop schedule p is c = batches drop_threads schedule (length is) p is c

unfoldable pub rebuild_failure : ℕ → SyncError
unfolding decimal
rebuild_failure n =
    database_error (codes "Failed to rebuild " ++ (decimal 20 n ++ codes " indexes"))

-- ParallelIndexStrategy::rebuild_indexes
unfoldable pub parallel_rebuild :
    (List IndexInfo → List IndexInfo)
    → ℕ
    → List IndexInfo
    → Connection
    → Result (Unit {0}) × Connection
unfolding batches rebuild_threads
parallel_rebuild schedule p is c =
    let (failures, c') = batches rebuild_threads schedule (length is) p is c in
    (if is_empty failures then ok tt else throw (rebuild_failure (length failures)), c')

pub data Strategy : Type 0 where
  standard : Strategy
  parallel : ℕ → Strategy

-- The constructor of ParallelIndexStrategy: at least one thread.
unfoldable pub parallel_strategy : ℕ → Strategy
parallel_strategy parallelism = parallel (if ltb parallelism 1 then 1 else parallelism)

unfoldable pub strategy_name : Strategy → Text
strategy_name standard = codes "StandardIndexStrategy"
strategy_name (parallel p) = codes "ParallelIndexStrategy"

-- The manager holds the strategy and the indexes; both strategies share the connection.
pub record IndexManager : Type 0 where
  pub strategy : Strategy
  pub indexes : List IndexInfo

unfoldable pub create_index_manager : List IndexInfo → ℕ → IndexManager
unfolding parallel_strategy
create_index_manager indexes parallelism = record {
  strategy = if ltb 1 parallelism then parallel_strategy parallelism else standard;
  indexes = indexes;
}

unfoldable pub index_count : IndexManager → ℕ
index_count m = length m.indexes

-- The filter of drop_keyspace and rebuild_keyspace.
unfoldable pub in_keyspace : Text → List IndexInfo → List IndexInfo
in_keyspace keyspace [] = []
in_keyspace keyspace (i ∷ is) =
    let rest = in_keyspace keyspace is in if text_eq i.keyspace keyspace then i ∷ rest else rest

module _ (schedule : List IndexInfo → List IndexInfo) where
  -- The virtual call `strategy_->drop_indexes(indexes)`.
  unfoldable pub drop_indexes : Strategy → List IndexInfo → Connection → List Text × Connection
  drop_indexes standard is c = standard_drop is c
  drop_indexes (parallel p) is c = parallel_drop schedule p is c

  unfoldable pub rebuild_indexes :
      Strategy → List IndexInfo → Connection → Result (Unit {0}) × Connection
  rebuild_indexes standard is c = standard_rebuild is c
  rebuild_indexes (parallel p) is c = parallel_rebuild schedule p is c

  unfoldable pub drop_all : IndexManager → Connection → List Text × Connection
  unfolding drop_indexes
  drop_all m c = drop_indexes m.strategy m.indexes c

  unfoldable pub rebuild_all : IndexManager → Connection → Result (Unit {0}) × Connection
  unfolding rebuild_indexes
  rebuild_all m c = rebuild_indexes m.strategy m.indexes c

  unfoldable pub drop_keyspace : IndexManager → Text → Connection → List Text × Connection
  unfolding drop_indexes in_keyspace
  drop_keyspace m keyspace c = drop_indexes m.strategy (in_keyspace keyspace m.indexes) c

  unfoldable pub rebuild_keyspace :
      IndexManager → Text → Connection → Result (Unit {0}) × Connection
  unfolding rebuild_indexes in_keyspace
  rebuild_keyspace m keyspace c = rebuild_indexes m.strategy (in_keyspace keyspace m.indexes) c

-- Both strategies verify one index after the other.
unfoldable pub verify_all : IndexManager → Connection → Bool × Connection
unfolding standard_verify
verify_all m c = standard_verify m.indexes c
