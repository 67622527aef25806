-- ===== src/Writer/DualWriter.antt =====
-- services/dual-writer/src/writer.cpp and include/dual_writer/writer.hpp: the write path.
-- Arguments stand for what the code takes from outside: `id` for the random id of generate_id,
-- `now` for the clock, `elapsed` for the microseconds that a write took.
pub mod Laws
use scylla_cluster_sync_cxx.Prelude.{
  ℕ, Bool, true, false, ◌&&◌, Option, none, some, List, ◌++◌, if◌then◌else◌, Text, codes, fetch_add,
  emplace, length,
}
use scylla_cluster_sync_cxx.Svckit.Errors.{SyncError, what, Result, ok, throw}
use scylla_cluster_sync_cxx.Svckit.Types.{
  FilterDecision, allow, skip_table, skip_tenant, source_only_read,
}
use scylla_cluster_sync_cxx.Svckit.Metrics.{Metrics, record_if_present}
use scylla_cluster_sync_cxx.Svckit.Database.{Connection, execute, ping}
use scylla_cluster_sync_cxx.Writer.Filter
use scylla_cluster_sync_cxx.Writer.Filter.{Governor}

pub data WriteMode : Type 0 where
  source_only dual_async dual_sync target_only : WriteMode

unfoldable pub mode_name : WriteMode → Text
mode_name source_only = codes "source_only"
mode_name dual_async = codes "dual_async"
mode_name dual_sync = codes "dual_sync"
mode_name target_only = codes "target_only"

-- `latency_us` is `latency_ms` in microseconds.
pub record WriteResult : Type 0 where
  pub source_ok : Bool
  pub target_ok : Bool
  pub error_message : Text
  pub latency_us : ℕ

abbrev pub fully_successful : WriteResult → Bool
fully_successful r = r.source_ok && r.target_ok

abbrev pub no_result : WriteResult
no_result = record {
  source_ok = false;
  target_ok = false;
  error_message = codes "";
  latency_us = 0;
}

pub record FailedWrite : Type 0 where
  pub id : Text
  pub cql : Text
  pub keyspace : Text
  pub error : Text
  pub attempts : ℕ
  pub first_attempt : ℕ

pub record WriterStats : Type 0 where
  pub total_writes : ℕ
  pub successful_writes : ℕ
  pub failed_writes : ℕ
  pub retried_writes : ℕ
  pub filtered_writes : ℕ
  pub abandoned_writes : ℕ

pub record WriterConfig : Type 0 where
  pub max_concurrent_writes : ℕ
  pub write_timeout_ms : ℕ
  pub max_retries : ℕ
  pub retry_delay_ms : ℕ
  pub skip_on_error : Bool
  pub failed_rows_file : Text

-- `failed_writes_` is `pending` here; `filter_` and `metrics_` may be null.
pub record DualWriter : Type 0 where
  pub config : WriterConfig
  pub source : Connection
  pub target : Connection
  pub filter : Option Governor
  pub metrics : Option Metrics
  pub pending : List (Text × FailedWrite)
  pub stats : WriterStats

is_skip : FilterDecision → Bool
is_skip allow = false
is_skip skip_table = true
is_skip skip_tenant = false
is_skip source_only_read = false

asks_filter : Option Governor → Text → Bool × Option Governor
unfolding is_skip
asks_filter none keyspace = (false, none)
asks_filter (some g) keyspace =
    if Filter.is_enabled g
    then (let (decision, g') = Filter.should_skip_table g keyspace in (is_skip decision, some g'))
    else (false, some g)

-- `filter_ && filter_->is_enabled() && filter_->should_skip_table(keyspace) == SkipTable`
unfoldable pub blacklists : DualWriter → Text → Bool × DualWriter
unfolding asks_filter
blacklists w keyspace =
    let (skip, filter) = asks_filter w.filter keyspace in (skip, record w { filter = filter })

unfoldable pub run_source : DualWriter → Text → Result (Unit {0}) × DualWriter
run_source w cql = let (r, c) = execute w.source cql in (r, record w { source = c })

unfoldable pub run_target : DualWriter → Text → Result (Unit {0}) × DualWriter
run_target w cql = let (r, c) = execute w.target cql in (r, record w { target = c })

source_outcome : Result (Unit {0}) → WriteResult
source_outcome (ok u) = record no_result { source_ok = true }
source_outcome (throw e) = record no_result {
  error_message = codes "Source write failed: " ++ what e;
}

target_outcome : Bool → Result (Unit {0}) → WriteResult
target_outcome source_ok (ok u) = record no_result { source_ok = source_ok; target_ok = true }
target_outcome source_ok (throw e) = record no_result {
  source_ok = source_ok;
  error_message = codes "Target write failed: " ++ what e;
}

unfoldable pub write_source_only : DualWriter → Text → WriteResult × DualWriter
unfolding run_source source_outcome
write_source_only w cql = let (r, w') = run_source w cql in (source_outcome r, w')

unfoldable pub write_target_only : DualWriter → Text → WriteResult × DualWriter
unfolding run_target target_outcome
write_target_only w cql = let (r, w') = run_target w cql in (target_outcome false r, w')

count_filtered : DualWriter → DualWriter
count_filtered w =
    let stats = w.stats in
    record w { stats = record stats { filtered_writes = fetch_add stats.filtered_writes 1 } }

both_sync : DualWriter → Text → WriteResult × DualWriter
unfolding run_source run_target source_outcome target_outcome
both_sync w cql =
    let (r, w1) = run_source w cql in
    elim r [
      | throw e ↦ (source_outcome (throw e), w1)
      | ok u ↦ let (t, w2) = run_target w1 cql in (target_outcome true t, w2)
    ]

unfoldable pub write_dual_sync : DualWriter → Text → Text → WriteResult × DualWriter
unfolding blacklists count_filtered write_source_only both_sync
write_dual_sync w cql keyspace =
    let (skip, w1) = blacklists w keyspace in
    if skip then write_source_only (count_filtered w1) cql else both_sync w1 cql

-- A random id that is taken leaves the entry that has it, as `emplace` does.
unfoldable pub enqueue_failed_write : DualWriter → Text → ℕ → Text → Text → Text → DualWriter
enqueue_failed_write w id now cql keyspace error = record w {
  pending =
      emplace id
        (record {
          id = id;
          cql = cql;
          keyspace = keyspace;
          error = error;
          attempts = 1;
          first_attempt = now;
        })
        w.pending;
}

shadow_failed : SyncError → WriteResult
shadow_failed e = record no_result {
  source_ok = true;
  error_message = codes "Target shadow write failed: " ++ what e;
}

unfoldable pub write_dual_async : DualWriter → Text → ℕ → Text → Text → WriteResult × DualWriter
unfolding run_source run_target source_outcome target_outcome shadow_failed enqueue_failed_write
write_dual_async w id now cql keyspace =
    let (r, w1) = run_source w cql in
    elim r [
      | throw e ↦ (source_outcome (throw e), w1)
      | ok u ↦
          let (t, w2) = run_target w1 cql in
          elim t [
            | ok v ↦ (target_outcome true (ok v), w2)
            | throw e ↦ (shadow_failed e, enqueue_failed_write w2 id now cql keyspace (what e))
          ]
    ]

count_total : DualWriter → DualWriter
count_total w =
    let stats = w.stats in
    record w { stats = record stats { total_writes = fetch_add stats.total_writes 1 } }

count_outcome : DualWriter → Bool → DualWriter
count_outcome w source_ok =
    let stats = w.stats in
    record w {
      stats =
          if source_ok
          then record stats { successful_writes = fetch_add stats.successful_writes 1 }
          else record stats { failed_writes = fetch_add stats.failed_writes 1 };
    }

measure : DualWriter → Bool → DualWriter
measure w success = record w { metrics = record_if_present w.metrics success }

filtered_write : DualWriter → Text → WriteResult × DualWriter
unfolding write_source_only count_filtered count_outcome measure
filtered_write w cql =
    let (result, w1) = write_source_only (count_filtered w) cql in
    (result, measure (count_outcome w1 result.source_ok) result.source_ok)

dispatched_write : DualWriter → Text → ℕ → ℕ → Text → Text → WriteResult × DualWriter
unfolding write_dual_async count_outcome measure
dispatched_write w id now elapsed cql keyspace =
    let (result, w1) = write_dual_async w id now cql keyspace in
    let timed = record result { latency_us = elapsed } in
    (timed, measure (count_outcome w1 timed.source_ok) (fully_successful timed))

-- write(): the filter gate, then the mode, which is DualAsync.
unfoldable pub write : DualWriter → Text → ℕ → ℕ → Text → Text → WriteResult × DualWriter
unfolding count_total blacklists filtered_write dispatched_write
write w id now elapsed cql keyspace =
    let (skip, w1) = blacklists (count_total w) keyspace in
    if skip then filtered_write w1 cql else dispatched_write w1 id now elapsed cql keyspace

-- health_check(): both clusters are pinged; a null connection is not modelled.
unfoldable pub health_check : DualWriter → Bool × DualWriter
health_check w =
    let (source_ok, source) = ping w.source in
    let (target_ok, target) = ping w.target in
    (source_ok && target_ok, record w { source = source; target = target })

pub record WriterStatsSnapshot : Type 0 where
  pub counters : WriterStats
  pub pending_retries : ℕ

unfoldable pub pending_retry_count : DualWriter → ℕ
pending_retry_count w = length w.pending

unfoldable pub get_stats : DualWriter → WriterStatsSnapshot
unfolding pending_retry_count
get_stats w = record { counters = w.stats; pending_retries = pending_retry_count w }
