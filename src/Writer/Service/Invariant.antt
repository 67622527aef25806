-- ===== src/Writer/Service/Invariant.antt =====
-- What holds of the writer, its queue and the retry thread's locals after any steps.
use scylla_cluster_sync_cxx.Prelude.{
  ℕ, ◌+◌, ◌%◌, ◌^◌, ◌<◌, ◌≡◌, ◌⊎◌, refl, inl, inr, none, some, Option, List, [], ◌∷◌, arith, Text,
  Bool-cases, find, emplace, u64_mod, fetch_add,
}
use scylla_cluster_sync_cxx.Svckit.Database.{execute}
use scylla_cluster_sync_cxx.Svckit.Errors.{is_ok, what, Result-cases}
use scylla_cluster_sync_cxx.Writer.DualWriter.{
  FailedWrite, DualWriter, WriterStats, blacklists, write, health_check,
}
use scylla_cluster_sync_cxx.Writer.DualWriter.Laws.{write_counts}
use scylla_cluster_sync_cxx.Writer.Retry.{retry_one}
use scylla_cluster_sync_cxx.Writer.Retry.Apply.{Queue}
use scylla_cluster_sync_cxx.Writer.Retry.Counts.{retry_one-stats}
use scylla_cluster_sync_cxx.Writer.Retry.Progress.{retry_one_keeps, retry_one_next}
use scylla_cluster_sync_cxx.Writer.Service.{
  Round, Service, Step, client_write, client_health, take_snapshot, judge_next, apply_round,
  reload_filter, judge_entry, apply_if_done, begin_round, judge, finish_round, step, run,
}
use scylla_cluster_sync_cxx.Writer.Service.Fits.{
  RoundFits, QueueFits, extends_fits, emplace-Extends, emplace_fits, find_front, judged-Fits,
  applied-Fits, snapshot_fits,
}

abbrev pub IsCounted : WriterStats → Type 0
IsCounted s = s.total_writes % u64_mod ≡ (s.successful_writes + s.failed_writes) % u64_mod

pub record IsSound (s : Service) : Type 0 where
  pub counted : IsCounted s.writer.stats
  pub bounded : s.writer.config.max_retries < 2 ^ 32
  pub queue : QueueFits s.writer.config.max_retries s.writer.pending
  pub round : RoundFits s.writer.config.max_retries s.writer.pending s.round

-- A write leaves the queue as it is, or emplaces an entry that has had one attempt.
pub write_pending :
    (w : DualWriter) (id : Text) (now elapsed : ℕ) (cql keyspace : Text)
    → ((write w id now elapsed cql keyspace).1.config ≡ w.config)
      × (((write w id now elapsed cql keyspace).1.pending ≡ w.pending)
          ⊎ ((fw : FailedWrite) × (fw.attempts ≡ 1)
              × ((write w id now elapsed cql keyspace).1.pending ≡ emplace id fw w.pending)))
unfolding write
write_pending w id now elapsed cql keyspace = elim (Result-cases (execute w.source cql).0) [
  | inr (e, refused) ↦ (ground arith, inl (ground arith))
  | inl (u, accepted) ↦ elim (Bool-cases (blacklists w keyspace).0) [
    | inl skip ↦ (ground arith, inl (ground arith))
    | inr pass ↦ elim (Result-cases (execute w.target cql).0) [
      | inl (v, both) ↦ (ground arith, inl (ground arith))
      | inr (e, shadow) ↦ (
        ground arith,
        inr (
          record {
            id = id;
            cql = cql;
            keyspace = keyspace;
            error = what e;
            attempts = 1;
            first_attempt = now;
          },
          ground arith,
          ground arith,
        ),
      )
    ]
  ]
]

write_IsCounted :
    (w : DualWriter) (id : Text) (now elapsed : ℕ) (cql keyspace : Text)
    → IsCounted w.stats
    → IsCounted (write w id now elapsed cql keyspace).1.stats
unfolding fetch_add
write_IsCounted w id now elapsed cql keyspace h =
    let counts = (write_counts w id now elapsed cql keyspace).1 in
    elim (Bool-cases (is_ok (execute w.source cql).0)) [
      | inl won ↦ rw counts (ground arith)
      | inr lost ↦ rw counts (ground arith)
    ]

write-IsSound :
    (s : Service) (id : Text) (now elapsed : ℕ) (cql keyspace : Text)
    → IsSound s
    → IsSound (step s (client_write id now elapsed cql keyspace))
unfolding step
write-IsSound s id now elapsed cql keyspace v =
    let w = s.writer in
    let w' = (write w id now elapsed cql keyspace).1 in
    let max = w.config.max_retries in
    let (config, queued) = write_pending w id now elapsed cql keyspace in
    let counts = write_IsCounted w id now elapsed cql keyspace v.counted in
    let (fits, rounds) : QueueFits max w'.pending × RoundFits max w'.pending s.round = elim queued [
      | inl same ↦ (rw same v.queue, rw same v.round)
      | inr (fw, first, grown) ↦ (
        rw grown (emplace_fits max id fw w.pending first v.queue),
        rw grown (
            extends_fits max w.pending (emplace id fw w.pending) s.round
              (emplace-Extends id fw w.pending) v.round),
      )
    ] in
    record {
      counted = counts;
      bounded = rw config v.bounded;
      queue = rw config fits;
      round = rw config rounds;
    }

counted_same :
    (s s' : WriterStats)
    → s'.total_writes ≡ s.total_writes
    → s'.successful_writes ≡ s.successful_writes
    → s'.failed_writes ≡ s.failed_writes
    → IsCounted s
    → IsCounted s'
counted_same s s' t u v h = omega arith

judge_entry-IsSound :
    (w : DualWriter) (left : Queue) (r : Round)
    → r.left ≡ left
    → IsSound (record { writer = w; round = some r })
    → IsSound (judge_entry w left r)
unfolding judge_entry
judge_entry-IsSound w [] r e v = v
judge_entry-IsSound w ((k, fw) ∷ rest) r e v =
    let (config, source, pending) = retry_one_keeps w fw in
    let (total, won, lost) = retry_one-stats w fw in
    let verdict = (retry_one w fw).0 in
    let w1 = (retry_one w fw).1 in
    let front : find k r.left ≡ some fw = rw e (find_front k fw rest) in
    let tried = v.queue.attempted k fw (v.round.left_queued k fw front) in
    let fits =
      judged-Fits w.config.max_retries w.pending r k fw rest verdict e tried
        (retry_one_next w fw v.bounded) v.round in
    record {
      counted = counted_same w.stats w1.stats total won lost v.counted;
      bounded = rw config v.bounded;
      queue = rw (config, pending) v.queue;
      round = rw (config, pending) fits;
    }

apply-IsSound :
    (w : DualWriter) (left : Queue) (r : Round)
    → IsSound (record { writer = w; round = some r })
    → IsSound (apply_if_done w left r)
unfolding apply_if_done
apply-IsSound w [] r v = record {
  counted = v.counted;
  bounded = v.bounded;
  queue = applied-Fits w.config.max_retries w.pending r v.queue v.round;
  round = tt;
}
apply-IsSound w (entry ∷ rest) r v = v

begin-IsSound :
    (w : DualWriter) (r : Option Round)
    → IsSound (record { writer = w; round = r })
    → IsSound (begin_round w r)
unfolding begin_round
begin-IsSound w none v = record {
  counted = v.counted;
  bounded = v.bounded;
  queue = v.queue;
  round = snapshot_fits w.config.max_retries w.pending v.queue.distinct;
}
begin-IsSound w (some r) v = v

judge-IsSound :
    (w : DualWriter) (r : Option Round)
    → IsSound (record { writer = w; round = r })
    → IsSound (judge w r)
unfolding judge
judge-IsSound w none v = v
judge-IsSound w (some r) v = judge_entry-IsSound w r.left r refl v

finish-IsSound :
    (w : DualWriter) (r : Option Round)
    → IsSound (record { writer = w; round = r })
    → IsSound (finish_round w r)
unfolding finish_round
finish-IsSound w none v = v
finish-IsSound w (some r) v = apply-IsSound w r.left r v

keeps_IsSound :
    (w w' : DualWriter) (r : Option Round)
    → w'.stats ≡ w.stats
    → w'.config ≡ w.config
    → w'.pending ≡ w.pending
    → IsSound (record { writer = w; round = r })
    → IsSound (record { writer = w'; round = r })
keeps_IsSound w w' r stats config pending v = record {
  counted = rw stats v.counted;
  bounded = rw config v.bounded;
  queue = rw (config, pending) v.queue;
  round = rw (config, pending) v.round;
}

pub step-IsSound : (s : Service) (e : Step) → IsSound s → IsSound (step s e)
unfolding step health_check
step-IsSound s (client_write id now elapsed cql keyspace) v =
    write-IsSound s id now elapsed cql keyspace v
step-IsSound s client_health v =
    keeps_IsSound s.writer (health_check s.writer).1 s.round refl refl refl v
step-IsSound s take_snapshot v = begin-IsSound s.writer s.round v
step-IsSound s judge_next v = judge-IsSound s.writer s.round v
step-IsSound s apply_round v = finish-IsSound s.writer s.round v
step-IsSound s reload_filter v =
    keeps_IsSound s.writer (step s reload_filter).writer s.round refl refl refl v

-- Whatever the clients, the retry thread and the reload thread do and in whatever order, with any
-- answers of the clusters: if it held at the start, then every write is counted as a success or a
-- failure (modulo 2^64), the ids of the queue are distinct, every queued write has had its first
-- attempt and no more than are allowed behind it, and each entry that a round of retries has yet to
-- judge stands in the queue as it was taken.
pub run-IsSound : (s : Service) (es : List Step) → IsSound s → IsSound (run s es)
unfolding run
run-IsSound s [] v = v
run-IsSound s (e ∷ es) v = run-IsSound (step s e) es (step-IsSound s e v)
