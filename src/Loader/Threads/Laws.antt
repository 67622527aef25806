-- ===== src/Loader/Threads/Laws.antt =====
-- The threads of a batch end, and what they leave alone (services/sstable-loader/src/loader.cpp,
-- migrate_table).
use mathlib.Core.List.{Perm}
use mathlib.Core.List.Perm
use scylla_cluster_sync_cxx.Prelude.{
  ℕ, zero, suc, ◌&&◌, ◌≡◌, refl, ap, ◌∙◌, ◌⊎◌, inl, inr, arith, Bool, true, List, [], ◌∷◌, ◌++◌,
  map, Text, length,
}
use scylla_cluster_sync_cxx.Loader.TokenRange.{TokenRange}
use scylla_cluster_sync_cxx.Loader.Ranges.{SsTableLoader}
use scylla_cluster_sync_cxx.Loader.Threads.{
  Thread, start_thread, attempt, count_failure, work, run_threads, run_batch,
}

-- Two loaders with the same flags, configuration and table counters.
abbrev pub SameTables : SsTableLoader → SsTableLoader → Type 0
SameTables l m =
    (m.config ≡ l.config)
    × (m.tables_completed ≡ l.tables_completed)
    × (m.tables_skipped ≡ l.tables_skipped)
    × (m.tables_total ≡ l.tables_total)

abbrev pub SameFlags : SsTableLoader → SsTableLoader → Type 0
SameFlags l m = (m.is_running ≡ l.is_running) × (m.is_paused ≡ l.is_paused)

unfoldable pub set_paused : Bool → SsTableLoader → SsTableLoader
set_paused b l = record l { is_paused = b }

-- The schedule only orders the threads.
abbrev pub IsFair : (List Thread → List Thread) → Type 0
IsFair schedule = (ts : List Thread) → Perm (schedule ts) ts

attempt_keeps :
    (table : Text) (keys : List Text) (t : Thread) (l : SsTableLoader)
    → SameTables l (attempt table keys t l).1 × SameFlags l (attempt table keys t l).1
unfolding attempt count_failure
attempt_keeps table keys t l = ground arith

attempt_paused :
    (table : Text) (keys : List Text) (t : Thread) (b : Bool) (l : SsTableLoader)
    → attempt table keys t (set_paused b l)
      ≡ ((attempt table keys t l).0, set_paused b (attempt table keys t l).1)
unfolding attempt count_failure set_paused
attempt_paused table keys t b l = ground arith

List-cases : (ts : List Thread) → (ts ≡ []) ⊎ ((t : Thread) × (us : List Thread) × (ts ≡ t ∷ us))
List-cases [] = inl refl
List-cases (t ∷ us) = inr (t, us, refl)

-- The source has a session.
abbrev pub IsReady : SsTableLoader → Type 0
IsReady l = (l.source.connected && l.source.session) ≡ true

-- How many statements the source has been sent.
abbrev pub sent : SsTableLoader → ℕ
sent l = length l.source.issued

module _ (schedule : List Thread → List Thread) (table : Text) (keys : List Text) where
  -- One round of the scheduler.
  pub run_threads_step :
      (n : ℕ) (ts us : List Thread) (t : Thread) (l : SsTableLoader)
      → schedule ts ≡ t ∷ us
      → run_threads schedule table keys (suc n) ts l
        ≡ run_threads schedule table keys n
            ((attempt table keys t l).0 ++ us)
            (attempt table keys t l).1
  unfolding run_threads
  run_threads_step n ts us t l e = rw (run_threads, e) refl

  pub run_threads_over :
      (n : ℕ) (ts : List Thread) (l : SsTableLoader)
      → schedule ts ≡ []
      → run_threads schedule table keys (suc n) ts l ≡ ([], l)
  unfolding run_threads
  run_threads_over n ts l e = rw (run_threads, e) refl

  run_threads_keeps :
      (n : ℕ) (ts : List Thread) (l : SsTableLoader)
      → let l' = (run_threads schedule table keys n ts l).1 in SameTables l l' × SameFlags l l'
  unfolding run_threads
  run_threads_keeps zero ts l = ground arith
  run_threads_keeps (suc n) ts l = elim (List-cases (schedule ts)) [
    | inl over ↦ rw (run_threads_over n ts l over) (ground arith)
    | inr (t, us, next) ↦
        let first = attempt_keeps table keys t l in
        let rest =
          run_threads_keeps n ((attempt table keys t l).0 ++ us) (attempt table keys t l).1 in
        rw (run_threads_step n ts us t l next) (ground (arith, first, rest))
  ]

  run_threads_paused :
      (n : ℕ) (ts : List Thread) (b : Bool) (l : SsTableLoader)
      → run_threads schedule table keys n ts (set_paused b l) ≡ (
        (run_threads schedule table keys n ts l).0,
        set_paused b (run_threads schedule table keys n ts l).1,
      )
  unfolding run_threads
  run_threads_paused zero ts b l = refl
  run_threads_paused (suc n) ts b l = elim (List-cases (schedule ts)) [
    | inl over ↦
        run_threads_over n ts (set_paused b l) over ∙ rw (run_threads_over n ts l over) refl
    | inr (t, us, next) ↦
        let (again, l1) = attempt table keys t l in
        run_threads_step n ts us t (set_paused b l) next
        ∙ ap (λ r. run_threads schedule table keys n (r.0 ++ us) r.1)
            (attempt_paused table keys t b l)
        ∙ run_threads_paused n (again ++ us) b l1
        ∙ rw (run_threads_step n ts us t l next) refl
  ]

  pub run_batch_keeps :
      (rs : List TokenRange) (l : SsTableLoader)
      → let l' = run_batch schedule table keys rs l in SameTables l l' × SameFlags l l'
  unfolding run_batch
  run_batch_keeps rs l =
      run_threads_keeps (work (map (start_thread l) rs)) (map (start_thread l) rs) l

  pub run_batch_paused :
      (rs : List TokenRange) (b : Bool) (l : SsTableLoader)
      → run_batch schedule table keys rs (set_paused b l)
        ≡ set_paused b (run_batch schedule table keys rs l)
  unfolding run_batch start_thread set_paused
  run_batch_paused rs b l =
      ap (λ r. r.1)
        (run_threads_paused (work (map (start_thread l) rs)) (map (start_thread l) rs) b l)
