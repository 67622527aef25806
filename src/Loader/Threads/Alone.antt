-- ===== src/Loader/Threads/Alone.antt =====
-- A thread that runs alone does what the whole of process_range_sync does
-- (services/sstable-loader/src/loader.cpp).
use scylla_cluster_sync_cxx.Prelude.{
  ℕ, zero, suc, ◌+◌, ◌≡◌, refl, ap, sym, ◌∙◌, inl, inr, arith, true, false, Bool-cases, List, [],
  ◌∷◌, ◌++◌, Text, if◌then◌else◌, fetch_add,
}
use scylla_cluster_sync_cxx.Svckit.Database.{execute}
use scylla_cluster_sync_cxx.Svckit.Errors.{is_ok, Result-cases}
use scylla_cluster_sync_cxx.Loader.TokenRange.{TokenRange, build_range_query}
use scylla_cluster_sync_cxx.Loader.Ranges.{
  SsTableLoader, fetch_page, read_unpaged, process_range_sync, run_range,
}
use scylla_cluster_sync_cxx.Loader.Threads.{
  Thread, start_thread, attempt, count_failure, work, run_threads, run_batch,
}
use scylla_cluster_sync_cxx.Loader.Threads.Laws.{run_threads_step, run_threads_over}

module _ (schedule : List Thread → List Thread) (table : Text) (keys : List Text) where
  -- A thread that runs alone and may fetch its page again.
  alone :
      (n attempts : ℕ) (range : TokenRange) (l : SsTableLoader)
      → ((t : Thread) → schedule (t ∷ []) ≡ t ∷ [])
      → (schedule [] ≡ [])
      → l.config.enable_pagination ≡ true
      → let (r, source) = fetch_page n attempts (build_range_query table keys range) l.source in
        (run_threads schedule table keys (suc n) (record { range = range; left = n } ∷ []) l).1 ≡ (
          if is_ok r
          then record l { source = source }
          else record l { source = source; skipped_ranges = fetch_add l.skipped_ranges 1 })
  unfolding run_threads fetch_page attempt count_failure
  alone zero attempts range l one over paged =
      let t : Thread = record { range = range; left = 0 } in
      elim (Result-cases (execute l.source (build_range_query table keys range)).0) [
        | inl (u, read) ↦
            rw (run_threads_step schedule table keys 0 (t ∷ []) [] t l (one t)) (ground arith)
        | inr (e, refused) ↦
            rw (run_threads_step schedule table keys 0 (t ∷ []) [] t l (one t)) (ground arith)
      ]
  alone (suc n) attempts range l one over paged =
      let t : Thread = record { range = range; left = suc n } in
      elim (Result-cases (execute l.source (build_range_query table keys range)).0) [
        | inl (u, read) ↦
            let ended = run_threads_over schedule table keys n [] (attempt table keys t l).1 over in
            let done : (attempt table keys t l).0 ≡ [] = ground arith in
            rw (run_threads_step schedule table keys (suc n) (t ∷ []) [] t l (one t)) (ground arith)
        | inr (e, refused) ↦
            let query = build_range_query table keys range in
            let sent = record l { source = (execute l.source query).1 } in
            let next : Thread = record { range = range; left = n } in
            let again : attempt table keys t l ≡ (next ∷ [], sent) = rw (attempt, refused) refl in
            let rest = alone n attempts range sent one over paged in
            let retried : fetch_page (suc n) attempts query l.source
                ≡ fetch_page n attempts query (execute l.source query).1 =
              rw (fetch_page, refused) refl in
            ap (λ r. r.1) (run_threads_step schedule table keys (suc n) (t ∷ []) [] t l (one t))
            ∙ ap (λ r. (run_threads schedule table keys (suc n) (r.0 ++ []) r.1).1) again
            ∙ rest
            ∙ ap
                (λ r.
                  if is_ok r.0
                  then record l { source = r.1 }
                  else record l { source = r.1; skipped_ranges = fetch_add l.skipped_ranges 1 })
                (sym retried)
      ]

  by_answer :
      (range : TokenRange) (l : SsTableLoader)
      → l.config.enable_pagination ≡ false
      → (attempt table keys (record { range = range; left = 0 }) l).1 ≡ run_range table keys range l
  unfolding attempt count_failure run_range process_range_sync read_unpaged
  by_answer range l unpaged =
      elim (Result-cases (execute l.source (build_range_query table keys range)).0) [
        | inl (u, read) ↦ ground arith
        | inr (e, refused) ↦ ground arith
      ]

  -- Under a schedule that lets a single thread go on, a batch of one range does exactly what the body
  -- of its thread does, run without a break.
  run_batch-run_range :
      (range : TokenRange) (l : SsTableLoader)
      → ((t : Thread) → schedule (t ∷ []) ≡ t ∷ [])
      → (schedule [] ≡ [])
      → run_batch schedule table keys (range ∷ []) l ≡ run_range table keys range l
  unfolding run_batch work start_thread run_range process_range_sync read_unpaged
  run_batch-run_range range l one over = elim (Bool-cases l.config.enable_pagination) [
    | inl paged ↦
        let retries = l.config.page_retry_attempts in
        let t : Thread = record { range = range; left = retries } in
        let query = build_range_query table keys range in
        let started : start_thread l range ≡ t = rw (start_thread, paged) refl in
        let fuel : suc (if l.config.enable_pagination then retries else 0) + 0 ≡ suc retries =
          ground arith in
        ap (λ n. (run_threads schedule table keys n (start_thread l range ∷ []) l).1) fuel
        ∙ ap (λ u. (run_threads schedule table keys (suc retries) (u ∷ []) l).1) started
        ∙ alone retries retries range l one over paged
        ∙ elim (Result-cases (fetch_page retries retries query l.source).0) [
          | inl (u, read) ↦ ground arith
          | inr (e, refused) ↦ ground arith
        ]
    | inr unpaged ↦
        let t : Thread = record { range = range; left = 0 } in
        let started : start_thread l range ≡ t = rw (start_thread, unpaged) refl in
        let fuel : suc (if l.config.enable_pagination then l.config.page_retry_attempts else 0) + 0
            ≡ 1 =
          ground arith in
        ap (λ n. (run_threads schedule table keys n (start_thread l range ∷ []) l).1) fuel
        ∙ ap (λ u. (run_threads schedule table keys 1 (u ∷ []) l).1) started
        ∙ ap (λ r. r.1) (run_threads_step schedule table keys 0 (t ∷ []) [] t l (one t))
        ∙ by_answer range l unpaged
  ]
