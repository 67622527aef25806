-- ===== src/Writer/Tests.antt =====
-- The laws of the dual writer at concrete states: a source that refuses one statement, and a target
-- that refuses everything.
use scylla_cluster_sync_cxx.Prelude.{
  Text, [], arith, codes, contains, emplace, false, fetch_add, find, if◌then◌else◌, inr, length,
  none, not, occurs, refl, some, text_eq, true, ℕ, ◌&&◌, ◌+◌, ◌↔◌, ◌∷◌, ◌≡◌,
}
use scylla_cluster_sync_cxx.Svckit.Database.{execute}
use scylla_cluster_sync_cxx.Svckit.Database.Tests.{online, refuses_all, refuses_bad}
use scylla_cluster_sync_cxx.Svckit.Errors.{is_ok, ok}
use scylla_cluster_sync_cxx.Svckit.Types.{skip_table, skip_tenant}
use scylla_cluster_sync_cxx.Wildcard.{IsBlacklisted}
use scylla_cluster_sync_cxx.Writer.WriteId.{generate_id}
use scylla_cluster_sync_cxx.Writer.WriteId.Laws.{SameWords, generate_id_iff}
use scylla_cluster_sync_cxx.Writer.DualWriter.{
  DualWriter, FailedWrite, WriterStats, blacklists, write, write_dual_async, write_dual_sync,
}
use scylla_cluster_sync_cxx.Writer.DualWriter.Laws.{
  write_blacklisted, write_counts, write_dual_async_outcome, write_dual_sync_outcome,
}
use scylla_cluster_sync_cxx.Writer.Filter.{
  FilterConfig, Governor, check_tenant_id, construct, should_skip_table,
}
use scylla_cluster_sync_cxx.Writer.Filter.Laws.{construct_decides}
use scylla_cluster_sync_cxx.Writer.Retry.{retry_cycle}
use scylla_cluster_sync_cxx.Writer.Retry.Counts.{
  count_if, is_spent, is_listed, Moves, retry_cycle_accounts,
}
use scylla_cluster_sync_cxx.Writer.Retry.Progress.{retry_cycles, retry_queue_drains}

abbrev sample_stats : WriterStats
sample_stats = record {
  total_writes = 0;
  successful_writes = 0;
  failed_writes = 0;
  retried_writes = 0;
  filtered_writes = 0;
  abandoned_writes = 0;
}

abbrev pub queued_write : FailedWrite
queued_write = record {
  id = codes "w1";
  cql = codes "bad";
  keyspace = codes "ks.t";
  error = codes "syntax";
  attempts = 1;
  first_attempt = 7;
}

abbrev blacklist : Governor
blacklist = record {
  table_blacklist = codes "*.secret" ∷ [];
  tenant_blacklist = codes "t9" ∷ [];
  tenant_id_columns = [];
  config = record {
    tenant_blacklist = codes "t9" ∷ [];
    table_blacklist = codes "*.secret" ∷ [];
    tenant_id_columns = [];
  };
  stats = record { tables_skipped = 0; tenants_skipped = 0; rows_allowed = 0 };
}

abbrev pub sample_writer : DualWriter
sample_writer = record {
  config = record {
    max_concurrent_writes = 10;
    write_timeout_ms = 1000;
    max_retries = 3;
    retry_delay_ms = 10;
    skip_on_error = false;
    failed_rows_file = codes "failed";
  };
  source = online refuses_bad;
  target = online refuses_all;
  filter = some blacklist;
  metrics = none;
  pending = (codes "w1", queued_write) ∷ [];
  stats = sample_stats;
}

abbrev sample_filter : FilterConfig
sample_filter = record {
  tenant_blacklist = codes "t9" ∷ [];
  table_blacklist = codes "*.secret" ∷ [];
  tenant_id_columns = [];
}

retry_queue_drains_example : (retry_cycles 3 sample_writer).pending ≡ []
unfolding find
retry_queue_drains_example =
    retry_queue_drains sample_writer 3 (omega arith) (refl, tt) (omega arith, tt) (omega arith)
      (omega arith)

retry_cycle_accounts_example :
    (resent : ℕ) × (length (retry_cycle sample_writer).pending
        + resent
        + count_if (is_spent sample_writer) sample_writer.pending
        + count_if (is_listed sample_writer) sample_writer.pending
      ≡ length sample_writer.pending)
    × Moves sample_writer.stats
        (retry_cycle sample_writer).stats
        resent
        (count_if (is_spent sample_writer) sample_writer.pending)
    × ((retry_cycle sample_writer).source ≡ sample_writer.source)
unfolding find
retry_cycle_accounts_example = retry_cycle_accounts sample_writer (refl, tt)

write_counts_example :
    let (result, w') = write sample_writer [] 5 9 (codes "INSERT") (codes "ks.t") in
    let accepted = is_ok (execute sample_writer.source (codes "INSERT")).0 in
    (result.source_ok ≡ accepted)
    × (w'.stats ≡ record (sample_writer.stats) {
      total_writes = fetch_add sample_writer.stats.total_writes 1;
      successful_writes =
          if accepted
          then fetch_add sample_writer.stats.successful_writes 1
          else sample_writer.stats.successful_writes;
      failed_writes =
          if accepted
          then sample_writer.stats.failed_writes
          else fetch_add sample_writer.stats.failed_writes 1;
      filtered_writes =
          if (blacklists sample_writer (codes "ks.t")).0
          then fetch_add sample_writer.stats.filtered_writes 1
          else sample_writer.stats.filtered_writes;
    })
write_counts_example = write_counts sample_writer [] 5 9 (codes "INSERT") (codes "ks.t")

write_dual_async_outcome_example :
    let (result, w') = write_dual_async sample_writer [] 5 (codes "INSERT") (codes "ks.t") in
    ((result.source_ok ≡ true) ↔ ((execute sample_writer.source (codes "INSERT")).0 ≡ ok tt))
    × ((result.target_ok ≡ true) ↔ (
        ((execute sample_writer.source (codes "INSERT")).0 ≡ ok tt)
        × ((execute sample_writer.target (codes "INSERT")).0 ≡ ok tt)))
    × (w'.source ≡ (execute sample_writer.source (codes "INSERT")).1)
    × (w'.target ≡ (
        if result.source_ok
        then (execute sample_writer.target (codes "INSERT")).1
        else sample_writer.target))
    × (error : Text) × ((w'.pending ≡ (
        if result.source_ok && not result.target_ok
        then emplace []
            (record {
              id = [];
              cql = (codes "INSERT");
              keyspace = (codes "ks.t");
              error = error;
              attempts = 1;
              first_attempt = 5;
            })
            sample_writer.pending
        else sample_writer.pending)))
write_dual_async_outcome_example =
    write_dual_async_outcome sample_writer [] 5 (codes "INSERT") (codes "ks.t")

write_dual_sync_outcome_example :
    let (result, w') = write_dual_sync sample_writer (codes "INSERT") (codes "ks.t") in
    ((result.source_ok ≡ true) ↔ ((execute sample_writer.source (codes "INSERT")).0 ≡ ok tt))
    × ((result.target_ok ≡ true) ↔ (
        ((blacklists sample_writer (codes "ks.t")).0 ≡ false)
        × ((execute sample_writer.source (codes "INSERT")).0 ≡ ok tt)
        × ((execute sample_writer.target (codes "INSERT")).0 ≡ ok tt)))
    × (w'.source ≡ (execute sample_writer.source (codes "INSERT")).1)
    × (w'.target ≡ (
        if not (blacklists sample_writer (codes "ks.t")).0 && result.source_ok
        then (execute sample_writer.target (codes "INSERT")).1
        else sample_writer.target))
    × (w'.pending ≡ sample_writer.pending)
write_dual_sync_outcome_example =
    write_dual_sync_outcome sample_writer (codes "INSERT") (codes "ks.t")

write_blacklisted_example :
    let (result, w') = write sample_writer [] 5 9 (codes "INSERT") (codes "ks.secret") in
    ((result.source_ok ≡ true) ↔ ((execute sample_writer.source (codes "INSERT")).0 ≡ ok tt))
    × (result.target_ok ≡ false)
    × (w'.source ≡ (execute sample_writer.source (codes "INSERT")).1)
    × (w'.target ≡ sample_writer.target)
    × (w'.pending ≡ sample_writer.pending)
unfolding occurs contains text_eq
write_blacklisted_example =
    write_blacklisted sample_writer [] 5 9 (codes "INSERT") (codes "ks.secret") blacklist refl
      (inr (codes "ks", codes "secret", refl, refl, refl))

construct_decides_example :
    (((should_skip_table (construct sample_filter) (codes "ks.secret")).0 ≡ skip_table)
      ↔ IsBlacklisted sample_filter.table_blacklist (codes "ks.secret"))
    × (((check_tenant_id (construct sample_filter) (codes "t9")).0 ≡ skip_tenant)
        ↔ (contains sample_filter.tenant_blacklist (codes "t9") ≡ true))
construct_decides_example = construct_decides sample_filter (codes "ks.secret") (codes "t9")

-- Words that differ in bit 14 alone.
generate_id_iff_example : (generate_id 5 9 ≡ generate_id 16389 9) ↔ SameWords 5 9 16389 9
generate_id_iff_example =
    generate_id_iff 5 9 16389 9 (omega arith) (omega arith) (omega arith) (omega arith)

same_id : generate_id 5 9 ≡ generate_id 16389 9
unfolding generate_id
same_id = refl
