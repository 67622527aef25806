-- ===== src/Loader/Threads.antt =====
-- services/sstable-loader/src/loader.cpp, migrate_table: the threads of a batch, one for each range.
-- They run at the same time: between two statements that a thread sends to the source, the others
-- may send theirs. `schedule` puts the live threads in an order, and the first of them sends its
-- next statement. What a thread does to the counters behind its last statement is atomic and
-- commutes with what the others do, so that it is done with that statement.
pub mod Laws
pub mod Alone
use scylla_cluster_sync_cxx.Prelude.{
  ℕ, zero, suc, ◌+◌, List, [], ◌∷◌, ◌++◌, map, if◌then◌else◌, Text, fetch_add,
}
use scylla_cluster_sync_cxx.Svckit.Errors.{is_ok}
use scylla_cluster_sync_cxx.Svckit.Database.{execute}
use scylla_cluster_sync_cxx.Loader.TokenRange.{TokenRange, build_range_query}
use scylla_cluster_sync_cxx.Loader.Ranges.{SsTableLoader}

-- A live thread: its range, and how many attempts are left behind the next one.
pub record Thread : Type 0 where
  pub range : TokenRange
  pub left : ℕ

-- Only a page is fetched again when the source refuses it.
unfoldable pub start_thread : SsTableLoader → TokenRange → Thread
start_thread l r = record {
  range = r;
  left = if l.config.enable_pagination then l.config.page_retry_attempts else 0;
}

-- The counters of a range that failed: on the unpaged path it is counted twice.
unfoldable pub count_failure : SsTableLoader → SsTableLoader
count_failure l =
    if l.config.enable_pagination
    then record l { skipped_ranges = fetch_add l.skipped_ranges 1 }
    else record l {
      failed_rows = fetch_add l.failed_rows 1;
      skipped_ranges = fetch_add (fetch_add l.skipped_ranges 1) 1;
    }

-- One statement of a thread, and what is left of the thread.
unfoldable pub attempt : Text → List Text → Thread → SsTableLoader → List Thread × SsTableLoader
unfolding count_failure
attempt table keys t l =
    let (r, source) = execute l.source (build_range_query table keys t.range) in
    let sent = record l { source = source } in
    if is_ok r then ([], sent) else (elim t.left [
      | zero ↦ ([], count_failure sent)
      | suc left ↦ (record t { left = left } ∷ [], sent)
    ])

-- The statements that the threads may still send.
unfoldable pub work : List Thread → ℕ
work [] = 0
work (t ∷ ts) = suc t.left + work ts

module _ (schedule : List Thread → List Thread) (table : Text) (keys : List Text) where
  -- A number of statements: the threads that are left, and the loader.
  unfoldable pub run_threads : ℕ → List Thread → SsTableLoader → List Thread × SsTableLoader
  unfolding attempt
  run_threads zero ts l = (ts, l)
  run_threads (suc n) ts l = elim (schedule ts) [
    | [] ↦ ([], l)
    | t ∷ rest ↦ let (again, l1) = attempt table keys t l in run_threads n (again ++ rest) l1
  ]

  -- A batch, until its threads are joined.
  unfoldable pub run_batch : List TokenRange → SsTableLoader → SsTableLoader
  unfolding run_threads work start_thread
  run_batch ranges l =
      let threads = map (start_thread l) ranges in (run_threads (work threads) threads l).1
