-- ===== src/Loader/Migration/Laws.antt =====
-- What a migration does with its ranges and tables (services/sstable-loader/src/loader.cpp).
use scylla_cluster_sync_cxx.Prelude.{
  ℕ, zero, suc, ◌≡◌, refl, arith, true, false, none, some, List, [], ◌∷◌, Text, take, drop,
}
use scylla_cluster_sync_cxx.Loader.TokenRange.{TokenRange}
use scylla_cluster_sync_cxx.Loader.Ranges.{SsTableLoader}
use scylla_cluster_sync_cxx.Loader.Threads.{Thread, run_batch, run_threads, work}
use scylla_cluster_sync_cxx.Loader.Threads.Laws.{run_batch_keeps}
use scylla_cluster_sync_cxx.Loader.Migration.{
  stop, control, receive, look, pause_gate, migrate_batches,
}

migrate_batches_stopped :
    (schedule : List Thread → List Thread) (fuel p : ℕ) (table : Text) (keys : List Text)
    (rs : List TokenRange) (l : SsTableLoader)
    → l.is_running ≡ false
    → migrate_batches schedule (suc fuel) p table keys rs [] l ≡ some ([], l)
unfolding migrate_batches look
migrate_batches_stopped schedule fuel p table keys [] l stopped = refl
migrate_batches_stopped schedule fuel p table keys (r ∷ rs) l stopped = ground arith

-- With no loaders allowed, and nobody calling pause or stop, a loader that runs and is not paused
-- never ends the loop over the batches of a table with ranges: no fuel is enough.
pub migrate_batches_stuck :
    (schedule : List Thread → List Thread) (fuel : ℕ) (table : Text) (keys : List Text)
    (r : TokenRange) (rs : List TokenRange) (l : SsTableLoader)
    → l.is_running ≡ true
    → l.is_paused ≡ false
    → migrate_batches schedule fuel 0 table keys (r ∷ rs) [] l ≡ none
unfolding migrate_batches look pause_gate run_batch run_threads work
migrate_batches_stuck schedule zero table keys r rs l running unpaused = refl
migrate_batches_stuck schedule (suc fuel) table keys r rs l running unpaused =
    ground (arith, migrate_batches_stuck schedule fuel table keys r rs l running unpaused)

-- A loader that runs and is paused, and is told to stop while it sleeps before a batch, still runs
-- that batch, and ends only at the next look at the flags.
pub stop_runs_one_more_batch :
    (schedule : List Thread → List Thread) (fuel p : ℕ) (table : Text) (keys : List Text)
    (r : TokenRange) (rs : List TokenRange) (l : SsTableLoader)
    → l.is_running ≡ true
    → l.is_paused ≡ true
    → migrate_batches schedule (suc (suc fuel)) p table keys (r ∷ rs) ([] ∷ (stop ∷ []) ∷ []) l
      ≡ some ([], run_batch schedule table keys (take p (r ∷ rs)) (record l { is_running = false }))
unfolding migrate_batches look pause_gate receive control
stop_runs_one_more_batch schedule fuel p table keys r rs l running paused =
    let batch = take p (r ∷ rs) in
    let stopped = record l { is_running = false } in
    let kept = (run_batch_keeps schedule table keys batch stopped).1 in
    let ends =
      migrate_batches_stopped schedule fuel p table keys (drop p (r ∷ rs))
        (run_batch schedule table keys batch stopped) kept.0 in
    ground (arith, ends)
