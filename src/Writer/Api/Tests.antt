-- ===== src/Writer/Api/Tests.antt =====
-- The HTTP API of a writer with a queued write.
use scylla_cluster_sync_cxx.Prelude.{codes, length, arith}
use scylla_cluster_sync_cxx.Wire.Tests.{trees, trees-IsLawful}
use scylla_cluster_sync_cxx.Writer.Tests.{sample_writer}
use scylla_cluster_sync_cxx.Writer.Api.{status}
use scylla_cluster_sync_cxx.Writer.Api.Laws.{FitsWords, Reads, status_reports}

sample_writer-FitsWords : FitsWords sample_writer
sample_writer-FitsWords = record {
  total = omega arith;
  successful = omega arith;
  failed = omega arith;
  retried = omega arith;
  filtered = omega arith;
  abandoned = omega arith;
  pending = omega arith;
  filter = (omega arith, omega arith, omega arith);
}

status_reports_example :
    let body = (status trees sample_writer).body in
    Reads trees body (codes "writer") (codes "total_writes") sample_writer.stats.total_writes
    × Reads trees body
        (codes "writer")
        (codes "successful_writes")
        sample_writer.stats.successful_writes
    × Reads trees body (codes "writer") (codes "failed_writes") sample_writer.stats.failed_writes
    × Reads trees body (codes "writer") (codes "retried_writes") sample_writer.stats.retried_writes
    × Reads trees body
        (codes "writer")
        (codes "filtered_writes")
        sample_writer.stats.filtered_writes
    × Reads trees body
        (codes "writer")
        (codes "abandoned_writes")
        sample_writer.stats.abandoned_writes
    × Reads trees body (codes "writer") (codes "pending_retries") (length sample_writer.pending)
status_reports_example = status_reports trees trees-IsLawful sample_writer sample_writer-FitsWords
