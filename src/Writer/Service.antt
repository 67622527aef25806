-- ===== src/Writer/Service.antt =====
-- services/dual-writer: the DualWriter as its threads share it (writer.cpp, main.cpp). A run is a list
-- of steps in any order: writes and health checks of the connections, one step of the retry thread,
-- a reload of the filter by its thread. Each step is atomic, as the locks and the atomic counters
-- make it; a step that its thread is not ready for changes nothing.
pub mod Fits
pub mod Invariant
pub mod Loss
pub mod Tests
use scylla_cluster_sync_cxx.Prelude.{ℕ, Option, none, some, List, [], ◌∷◌, ◌++◌, Text}
use scylla_cluster_sync_cxx.Writer.Filter
use scylla_cluster_sync_cxx.Writer.Filter.{Governor}
use scylla_cluster_sync_cxx.Writer.DualWriter.{FailedWrite, DualWriter, write, health_check}
use scylla_cluster_sync_cxx.Writer.Retry.{Verdict, remove, update, retry_one, erase_all, assign_all}

-- The locals of the retry loop between the snapshot and the mutations: `left` is the part of the
-- snapshot that the loop over it has not reached.
pub record Round : Type 0 where
  pub left : List (Text × FailedWrite)
  pub to_remove : List Text
  pub to_update : List (Text × FailedWrite)

-- `round` is `none` while the retry thread sleeps.
pub record Service : Type 0 where
  pub writer : DualWriter
  pub round : Option Round

pub data Step : Type 0 where
  client_write : Text → ℕ → ℕ → Text → Text → Step
  client_health : Step
  take_snapshot : Step
  judge_next : Step
  apply_round : Step
  reload_filter : Step

-- The snapshot of the queue; an empty queue sends the thread back to sleep.
unfoldable pub snapshot_of : List (Text × FailedWrite) → Option Round
snapshot_of [] = none
snapshot_of (entry ∷ rest) = some (record { left = entry ∷ rest; to_remove = []; to_update = [] })

unfoldable pub record_verdict : Text → Verdict → Round → Round
record_verdict id remove r = record r { to_remove = r.to_remove ++ (id ∷ []) }
record_verdict id (update fw) r = record r { to_update = r.to_update ++ ((id, fw) ∷ []) }

-- The loop's body at the next entry of the snapshot.
unfoldable pub judge_entry : DualWriter → List (Text × FailedWrite) → Round → Service
unfolding record_verdict
judge_entry w [] r = record { writer = w; round = some r }
judge_entry w ((id, fw) ∷ rest) r =
    let (verdict, w1) = retry_one w fw in
    record { writer = w1; round = some (record_verdict id verdict (record r { left = rest })) }

-- The mutations, once the loop over the snapshot is done.
unfoldable pub apply_if_done : DualWriter → List (Text × FailedWrite) → Round → Service
apply_if_done w [] r = record {
  writer = record w { pending = assign_all r.to_update (erase_all r.to_remove w.pending) };
  round = none;
}
apply_if_done w (entry ∷ rest) r = record { writer = w; round = some r }

reload : Option Governor → Option Governor
reload none = none
reload (some g) = some (Filter.reload_config g)

unfoldable pub begin_round : DualWriter → Option Round → Service
unfolding snapshot_of
begin_round w none = record { writer = w; round = snapshot_of w.pending }
begin_round w (some r) = record { writer = w; round = some r }

unfoldable pub judge : DualWriter → Option Round → Service
unfolding judge_entry
judge w none = record { writer = w; round = none }
judge w (some r) = judge_entry w r.left r

unfoldable pub finish_round : DualWriter → Option Round → Service
unfolding apply_if_done
finish_round w none = record { writer = w; round = none }
finish_round w (some r) = apply_if_done w r.left r

unfoldable pub step : Service → Step → Service
unfolding begin_round judge finish_round reload
step s (client_write id now elapsed cql keyspace) = record s {
  writer = (write s.writer id now elapsed cql keyspace).1;
}
step s client_health = record s { writer = (health_check s.writer).1 }
step s take_snapshot = begin_round s.writer s.round
step s judge_next = judge s.writer s.round
step s apply_round = finish_round s.writer s.round
step s reload_filter =
    let w = s.writer in record s { writer = record w { filter = reload w.filter } }

unfoldable pub run : Service → List Step → Service
run s [] = s
run s (e ∷ es) = run (step s e) es
