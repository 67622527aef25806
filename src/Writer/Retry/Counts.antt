-- ===== src/Writer/Retry/Counts.antt =====
-- The books of a retry round: where each entry of the queue goes.
use scylla_cluster_sync_cxx.Prelude.{
  ℕ, ◌+◌, ◌%◌, ◌≡◌, subst, Bool, not, ◌&&◌, if◌then◌else◌, refl, ap, ◌∙◌, inl, inr, [], ◌∷◌, arith,
  leb, Text, Bool-cases, length, u64_mod, fetch_add_lem,
}
use scylla_cluster_sync_cxx.Svckit.Errors.{Result-cases}
use scylla_cluster_sync_cxx.Svckit.Database.{execute}
use scylla_cluster_sync_cxx.Writer.Filter
use scylla_cluster_sync_cxx.Writer.DualWriter.{FailedWrite, WriterStats, DualWriter, blacklists}
use scylla_cluster_sync_cxx.Writer.Retry.{
  Verdict, remove, update, Pass, settle, retry_one, retry_all, retry_cycle,
}
use scylla_cluster_sync_cxx.Writer.Retry.Apply.{Queue, IsDistinct}
use scylla_cluster_sync_cxx.Writer.Retry.Progress.{
  retry_one_keeps, retry_all_keeps, retry_cycle_pending,
}

-- The counters move by `resent` and `abandoned`, modulo 2^64, and no other counter moves.
abbrev pub Moves : WriterStats → WriterStats → ℕ → ℕ → Type 0
Moves s s' resent abandoned =
    (s'.retried_writes % u64_mod ≡ (s.retried_writes + resent) % u64_mod)
    × (s'.abandoned_writes % u64_mod ≡ (s.abandoned_writes + abandoned) % u64_mod)
    × (s'.total_writes ≡ s.total_writes)
    × (s'.successful_writes ≡ s.successful_writes)
    × (s'.failed_writes ≡ s.failed_writes)
    × (s'.filtered_writes ≡ s.filtered_writes)

-- An entry that has no attempt left, and one that has, to a table that is blacklisted by now.
abbrev pub is_spent : DualWriter → FailedWrite → Bool
is_spent w fw = leb w.config.max_retries fw.attempts

abbrev pub is_listed : DualWriter → FailedWrite → Bool
is_listed w fw = not (is_spent w fw) && (blacklists w fw.keyspace).0

-- How many entries pass a test.
abbrev pub count_if : (FailedWrite → Bool) → Queue → ℕ
count_if test [] = 0
count_if test ((k, fw) ∷ xs) = (if test fw then 1 else 0) + count_if test xs

kept : Verdict → ℕ
kept remove = 0
kept (update fw) = 1

-- One entry is abandoned if it is spent, dropped if it is listed, and else resent or kept.
retry_one-Moves :
    (w : DualWriter) (fw : FailedWrite)
    → (resent : ℕ) × (kept (retry_one w fw).0
          + resent
          + (if is_spent w fw then 1 else 0)
          + (if is_listed w fw then 1 else 0)
        ≡ 1)
      × Moves w.stats (retry_one w fw).1.stats resent (if is_spent w fw then 1 else 0)
unfolding retry_one kept
retry_one-Moves w fw = elim (Bool-cases (leb w.config.max_retries fw.attempts)) [
  | inl spent ↦ (0, ground arith, ground (arith, fetch_add_lem w.stats.abandoned_writes 1))
  | inr left ↦ elim (Bool-cases (blacklists w fw.keyspace).0) [
    | inl skip ↦ (0, ground arith, ground arith)
    | inr pass ↦ elim (Result-cases (execute w.target fw.cql).0) [
      | inl (u, e) ↦ (1, ground arith, ground (arith, fetch_add_lem w.stats.retried_writes 1))
      | inr (x, e) ↦ (0, ground arith, ground arith)
    ]
  ]
]

-- The filter's lists stay, and the limit of attempts.
retry_one-blacklists :
    (w : DualWriter) (fw : FailedWrite) (keyspace : Text)
    → (blacklists (retry_one w fw).1 keyspace).0 ≡ (blacklists w keyspace).0
unfolding retry_one blacklists Filter.should_skip_table Filter.is_enabled
retry_one-blacklists w fw keyspace = ground arith

-- No counter of the write path moves.
pub retry_one-stats :
    (w : DualWriter) (fw : FailedWrite)
    → ((retry_one w fw).1.stats.total_writes ≡ w.stats.total_writes)
      × ((retry_one w fw).1.stats.successful_writes ≡ w.stats.successful_writes)
      × ((retry_one w fw).1.stats.failed_writes ≡ w.stats.failed_writes)
retry_one-stats w fw = let (r, one, moves) = retry_one-Moves w fw in (moves.2, moves.3, moves.4)

Moves-trans :
    (s s' s'' : WriterStats) (r a r' a' : ℕ)
    → Moves s s' r a
    → Moves s' s'' r' a'
    → Moves s s'' (r + r') (a + a')
Moves-trans s s' s'' r a r' a' m m' =
    (omega arith, omega arith, m'.2 ∙ m.2, m'.3 ∙ m.3, m'.4 ∙ m.4, m'.5 ∙ m.5)

length-settle :
    (k : Text) (v : Verdict) (p : Pass)
    → (length (settle k v p).to_update ≡ kept v + length p.to_update)
      × ((settle k v p).writer ≡ p.writer)
unfolding settle kept
length-settle k remove p = (omega arith, refl)
length-settle k (update fw) p = (omega arith, refl)

count_if_same :
    (f g : FailedWrite → Bool) (xs : Queue)
    → ((fw : FailedWrite) → f fw ≡ g fw)
    → count_if f xs ≡ count_if g xs
count_if_same f g [] same = refl
count_if_same f g ((k, fw) ∷ xs) same = ground (arith, same fw, count_if_same f g xs same)

retry_all-Moves :
    (w : DualWriter) (xs : Queue)
    → (resent : ℕ) × (length (retry_all w xs).to_update
          + resent
          + count_if (is_spent w) xs
          + count_if (is_listed w) xs
        ≡ length xs)
      × Moves w.stats (retry_all w xs).writer.stats resent (count_if (is_spent w) xs)
unfolding retry_all
retry_all-Moves w [] = (0, refl, (omega arith, omega arith, refl, refl, refl, refl))
retry_all-Moves w ((k, fw) ∷ xs) =
    let (verdict, w1) = retry_one w fw in
    let (r, one, first) = retry_one-Moves w fw in
    let (r', rest, later) = retry_all-Moves w1 xs in
    let (size, same) = length-settle k verdict (retry_all w1 xs) in
    let limit = (retry_one_keeps w fw).0 in
    let spent =
      count_if_same (is_spent w1) (is_spent w) xs
        (λ u. ap (λ c. leb c.max_retries u.attempts) limit) in
    let listed = count_if_same (is_listed w1) (is_listed w) xs (λ u.
      ap (λ c. not (leb c.max_retries u.attempts) && (blacklists w1 u.keyspace).0) limit
      ∙ ap (λ b. not (is_spent w u) && b) (retry_one-blacklists w fw u.keyspace)) in
    (
      r + r',
      omega arith,
      rw same (
          subst
            (λ a.
              Moves w.stats (retry_all w1 xs).writer.stats (r + r')
                ((if is_spent w fw then 1 else 0) + a))
            spent
            (Moves-trans w.stats w1.stats (retry_all w1 xs).writer.stats r _ r' _ first later)),
    )

-- The books of a round of the retry loop, on a queue with distinct ids: the entries with no attempt
-- left are abandoned, those of the others whose table is blacklisted are dropped, and each of the
-- rest stays queued or is resent. `retried_writes` moves by the resent ones and `abandoned_writes` by
-- the abandoned ones (modulo 2^64); the counters of the write path stay, and so does the source.
pub retry_cycle_accounts :
    (w : DualWriter)
    → IsDistinct w.pending
    → (resent : ℕ) × (length (retry_cycle w).pending
          + resent
          + count_if (is_spent w) w.pending
          + count_if (is_listed w) w.pending
        ≡ length w.pending)
      × Moves w.stats (retry_cycle w).stats resent (count_if (is_spent w) w.pending)
      × ((retry_cycle w).source ≡ w.source)
retry_cycle_accounts w d =
    let (r, books, moves) = retry_all-Moves w w.pending in
    let left = ap length (retry_cycle_pending w d) in
    (
      r,
      omega arith,
      unfold retry_cycle in moves,
      unfold retry_cycle in (retry_all_keeps w w.pending).1,
    )
