-- ===== src/Writer/DualWriter/Laws.antt =====
-- What a write does on every branch (services/dual-writer/src/writer.cpp).
use scylla_cluster_sync_cxx.Prelude.{
  ℕ, ◌≡◌, refl, ◌↔◌, inl, inr, true, false, ◌&&◌, not, some, List, [], ◌∷◌, arith, if◌then◌else◌,
  Option-cases, Text, codes, fetch_add, emplace, contains, is_empty,
}
use scylla_cluster_sync_cxx.Svckit.Errors.{what, ok, is_ok, Result-cases}
use scylla_cluster_sync_cxx.Svckit.Database.{execute}
use scylla_cluster_sync_cxx.Wildcard.{IsBlacklisted}
use scylla_cluster_sync_cxx.Writer.Filter
use scylla_cluster_sync_cxx.Writer.Filter.{Governor}
use scylla_cluster_sync_cxx.Writer.Filter.Laws.{should_skip_table_iff}
use scylla_cluster_sync_cxx.Writer.DualWriter.{
  DualWriter, blacklists, write_dual_async, write_dual_sync, write,
}

-- The primary path, on all branches. The source is always asked; the target is asked exactly when
-- the source accepted; each flag says what its cluster answered; a write is queued for retry, with
-- one attempt, exactly when the source accepted it and the target refused.
pub write_dual_async_outcome :
    (w : DualWriter) (id : Text) (now : ℕ) (cql keyspace : Text)
    → let (result, w') = write_dual_async w id now cql keyspace in
      ((result.source_ok ≡ true) ↔ ((execute w.source cql).0 ≡ ok tt))
      × ((result.target_ok ≡ true)
          ↔ (((execute w.source cql).0 ≡ ok tt) × ((execute w.target cql).0 ≡ ok tt)))
      × (w'.source ≡ (execute w.source cql).1)
      × (w'.target ≡ (if result.source_ok then (execute w.target cql).1 else w.target))
      × (error : Text) × ((w'.pending ≡ (
          if result.source_ok && not result.target_ok
          then emplace id
              (record {
                id = id;
                cql = cql;
                keyspace = keyspace;
                error = error;
                attempts = 1;
                first_attempt = now;
              })
              w.pending
          else w.pending)))
unfolding write_dual_async
write_dual_async_outcome w id now cql keyspace = elim (Result-cases (execute w.source cql).0) [
  | inr (e, refused) ↦
      (ground arith, ground arith, ground arith, ground arith, codes "", ground arith)
  | inl (u, accepted) ↦ elim (Result-cases (execute w.target cql).0) [
    | inl (v, both) ↦
        (ground arith, ground arith, ground arith, ground arith, codes "", ground arith)
    | inr (e, shadow) ↦
        (ground arith, ground arith, ground arith, ground arith, what e, ground arith)
  ]
]

contains_nonempty : (xs : List Text) (k : Text) → contains xs k ≡ true → is_empty xs ≡ false
unfolding contains
contains_nonempty [] k h = cc
contains_nonempty (x ∷ xs) k h = refl

blacklisted_nonempty : (xs : List Text) (k : Text) → IsBlacklisted xs k → is_empty xs ≡ false
blacklisted_nonempty xs k (inl h) = contains_nonempty xs k h
blacklisted_nonempty xs k (inr (a, b, c, d, h)) = contains_nonempty xs _ h

-- The filter gate stops a write exactly when there is a filter whose list blacklists the table.
pub blacklists_iff :
    (w : DualWriter) (keyspace : Text)
    → ((blacklists w keyspace).0 ≡ true)
      ↔ ((g : Governor) × (w.filter ≡ some g) × IsBlacklisted g.table_blacklist keyspace)
unfolding blacklists Filter.is_enabled
blacklists_iff w keyspace = elim (Option-cases w.filter) [
  | inl absent ↦ ground arith
  | inr (g, present) ↦
      let decides = should_skip_table_iff g keyspace in
      (
        λ stopped. (g, present, decides.0 (ground arith)),
        λ (h, same, listed).
            let nonempty = blacklisted_nonempty h.table_blacklist keyspace listed in
            let decided = (should_skip_table_iff h keyspace).1 listed in ground arith,
      )
]

-- DualSync asks the target exactly when the table is not blacklisted and the source accepted;
-- it reports full success exactly when both clusters accepted, and queues nothing.
pub write_dual_sync_outcome :
    (w : DualWriter) (cql keyspace : Text)
    → let (result, w') = write_dual_sync w cql keyspace in
      ((result.source_ok ≡ true) ↔ ((execute w.source cql).0 ≡ ok tt))
      × ((result.target_ok ≡ true) ↔ (
          ((blacklists w keyspace).0 ≡ false)
          × ((execute w.source cql).0 ≡ ok tt)
          × ((execute w.target cql).0 ≡ ok tt)))
      × (w'.source ≡ (execute w.source cql).1)
      × (w'.target ≡ (
          if not (blacklists w keyspace).0 && result.source_ok
          then (execute w.target cql).1
          else w.target))
      × (w'.pending ≡ w.pending)
unfolding write_dual_sync
write_dual_sync_outcome w cql keyspace = elim (Result-cases (execute w.source cql).0) [
  | inr (e, refused) ↦ (ground arith, ground arith, ground arith, ground arith, ground arith)
  | inl (u, accepted) ↦ elim (Result-cases (execute w.target cql).0) [
    | inl (v, both) ↦ (ground arith, ground arith, ground arith, ground arith, ground arith)
    | inr (e, shadow) ↦ (ground arith, ground arith, ground arith, ground arith, ground arith)
  ]
]

-- The counters of a write: every write counts in the total, and in the successes if the source
-- accepted it, else in the failures; it counts as filtered exactly when the gate stopped it. No other
-- counter moves, and the result says what the source answered.
pub write_counts :
    (w : DualWriter) (id : Text) (now elapsed : ℕ) (cql keyspace : Text)
    → let (result, w') = write w id now elapsed cql keyspace in
      let accepted = is_ok (execute w.source cql).0 in
      (result.source_ok ≡ accepted)
      × (w'.stats ≡ record (w.stats) {
        total_writes = fetch_add w.stats.total_writes 1;
        successful_writes =
            if accepted then fetch_add w.stats.successful_writes 1 else w.stats.successful_writes;
        failed_writes =
            if accepted then w.stats.failed_writes else fetch_add w.stats.failed_writes 1;
        filtered_writes =
            if (blacklists w keyspace).0
            then fetch_add w.stats.filtered_writes 1
            else w.stats.filtered_writes;
      })
unfolding write
write_counts w id now elapsed cql keyspace = elim (Result-cases (execute w.source cql).0) [
  | inr (e, refused) ↦ (ground arith, ground arith)
  | inl (u, accepted) ↦ elim (Result-cases (execute w.target cql).0) [
    | inl (v, both) ↦ (ground arith, ground arith)
    | inr (e, shadow) ↦ (ground arith, ground arith)
  ]
]

-- A write to a blacklisted table goes to the source alone: the target's connection and the retry
-- queue stay as they are, and the result says what the source answered.
pub write_blacklisted :
    (w : DualWriter) (id : Text) (now elapsed : ℕ) (cql keyspace : Text) (g : Governor)
    → w.filter ≡ some g
    → IsBlacklisted g.table_blacklist keyspace
    → let (result, w') = write w id now elapsed cql keyspace in
      ((result.source_ok ≡ true) ↔ ((execute w.source cql).0 ≡ ok tt))
      × (result.target_ok ≡ false)
      × (w'.source ≡ (execute w.source cql).1)
      × (w'.target ≡ w.target)
      × (w'.pending ≡ w.pending)
unfolding write
write_blacklisted w id now elapsed cql keyspace g present listed =
    let stopped = (blacklists_iff w keyspace).1 (g, present, listed) in
    elim (Result-cases (execute w.source cql).0) [
      | inr (e, refused) ↦ (ground arith, ground arith, ground arith, ground arith, ground arith)
      | inl (u, accepted) ↦ (ground arith, ground arith, ground arith, ground arith, ground arith)
    ]

-- Any other write does what write_dual_async does: the clusters, the queue and the flags of the
-- result are those of that call.
pub write_unfiltered :
    (w : DualWriter) (id : Text) (now elapsed : ℕ) (cql keyspace : Text)
    → (blacklists w keyspace).0 ≡ false
    → let (result, w') = write w id now elapsed cql keyspace in
      let (inner, w'') = write_dual_async w id now cql keyspace in
      (result ≡ record inner { latency_us = elapsed })
      × (w'.source ≡ w''.source)
      × (w'.target ≡ w''.target)
      × (w'.pending ≡ w''.pending)
unfolding write write_dual_async
write_unfiltered w id now elapsed cql keyspace passed =
    elim (Result-cases (execute w.source cql).0) [
      | inr (e, refused) ↦ (ground arith, ground arith, ground arith, ground arith)
      | inl (u, accepted) ↦ elim (Result-cases (execute w.target cql).0) [
        | inl (v, both) ↦ (ground arith, ground arith, ground arith, ground arith)
        | inr (e, shadow) ↦ (ground arith, ground arith, ground arith, ground arith)
      ]
    ]

-- A write reports success of the source exactly when the source executes the statement.
pub write_source_ok :
    (w : DualWriter) (id : Text) (now elapsed : ℕ) (cql keyspace : Text)
    → ((write w id now elapsed cql keyspace).0.source_ok ≡ true)
      ↔ ((execute w.source cql).0 ≡ ok tt)
unfolding write
write_source_ok w id now elapsed cql keyspace = elim (Result-cases (execute w.source cql).0) [
  | inr (e, refused) ↦ ground arith
  | inl (u, accepted) ↦ elim (Result-cases (execute w.target cql).0) [
    | inl (v, both) ↦ ground arith
    | inr (e, shadow) ↦ ground arith
  ]
]
