-- ===== src/Writer/Retry.antt =====
-- services/dual-writer/src/writer.cpp, retry_failed_writes_loop: the background retry of shadow
-- writes. The sleep and the stop token are not modelled: `retry_cycle` is one round of the loop.
pub mod Apply
pub mod Counts
pub mod Progress
pub mod Queues
use scylla_cluster_sync_cxx.Prelude.{
  ℕ, ◌+◌, ◌%◌, ◌^◌, List, [], ◌∷◌, leb, if◌then◌else◌, Text, fetch_add, erase, assign,
}
use scylla_cluster_sync_cxx.Svckit.Errors.{what, ok, throw}
use scylla_cluster_sync_cxx.Writer.DualWriter.{
  FailedWrite, WriterStats, DualWriter, blacklists, run_target,
}

-- Whether an entry goes to `to_remove`, or to `to_update` with a new value.
pub data Verdict : Type 0 where
  remove : Verdict
  update : FailedWrite → Verdict

count_abandoned : DualWriter → DualWriter
count_abandoned w =
    let stats = w.stats in
    record w { stats = record stats { abandoned_writes = fetch_add stats.abandoned_writes 1 } }

count_retried : DualWriter → DualWriter
count_retried w =
    let stats = w.stats in
    record w { stats = record stats { retried_writes = fetch_add stats.retried_writes 1 } }

-- Check 3: send the statement to the target again.
unfoldable pub resend : DualWriter → FailedWrite → Verdict × DualWriter
unfolding run_target count_retried
resend w fw =
    let (r, w1) = run_target w fw.cql in
    elim r [
      | ok u ↦ (remove, count_retried w1)
      | throw e ↦ (update (record fw { attempts = (fw.attempts + 1) % 2 ^ 32; error = what e }), w1)
    ]

-- Check 2: a table that is blacklisted by now.
recheck : DualWriter → FailedWrite → Verdict × DualWriter
unfolding blacklists resend
recheck w fw =
    let (skip, w1) = blacklists w fw.keyspace in if skip then (remove, w1) else resend w1 fw

-- The body of the loop over the snapshot. Check 1: no attempt is left.
unfoldable pub retry_one : DualWriter → FailedWrite → Verdict × DualWriter
unfolding recheck count_abandoned
retry_one w fw =
    if leb w.config.max_retries fw.attempts then (remove, count_abandoned w) else recheck w fw

pub record Pass : Type 0 where
  pub writer : DualWriter
  pub to_remove : List Text
  pub to_update : List (Text × FailedWrite)

settle : Text → Verdict → Pass → Pass
settle id remove p = record p { to_remove = id ∷ p.to_remove }
settle id (update fw) p = record p { to_update = (id, fw) ∷ p.to_update }

-- The loop over the snapshot: the entries are judged in order.
unfoldable pub retry_all : DualWriter → List (Text × FailedWrite) → Pass
unfolding retry_one settle
retry_all w [] = record { writer = w; to_remove = []; to_update = [] }
retry_all w ((id, fw) ∷ rest) =
    let (verdict, w1) = retry_one w fw in settle id verdict (retry_all w1 rest)

unfoldable pub erase_all : List Text → List (Text × FailedWrite) → List (Text × FailedWrite)
erase_all [] m = m
erase_all (id ∷ ids) m = erase_all ids (erase id m)

unfoldable pub assign_all :
    List (Text × FailedWrite) → List (Text × FailedWrite) → List (Text × FailedWrite)
assign_all [] m = m
assign_all ((id, fw) ∷ rest) m = assign_all rest (assign id fw m)

-- The mutations under the lock, on the queue `m` as it is by then.
unfoldable pub apply_pass : Pass → List (Text × FailedWrite) → List (Text × FailedWrite)
unfolding erase_all assign_all
apply_pass p m = assign_all p.to_update (erase_all p.to_remove m)

-- One round with no write in between.
unfoldable pub retry_cycle : DualWriter → DualWriter
unfolding retry_all apply_pass
retry_cycle w =
    let p = retry_all w w.pending in
    let w1 = p.writer in record w1 { pending = apply_pass p w1.pending }
