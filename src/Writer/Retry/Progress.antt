-- ===== src/Writer/Retry/Progress.antt =====
-- Every queued write leaves the queue after a bounded number of rounds.
use scylla_cluster_sync_cxx.Prelude.{
  ℕ, zero, suc, ◌+◌, ◌^◌, ◌≤◌, ◌<◌, ◌≡◌, refl, ap, ◌∙◌, inl, inr, [], ◌∷◌, arith, leb, Text,
  Bool-cases, subst,
}
use scylla_cluster_sync_cxx.Svckit.Errors.{Result-cases}
use scylla_cluster_sync_cxx.Svckit.Database.{execute}
use scylla_cluster_sync_cxx.Writer.DualWriter.{FailedWrite, DualWriter, blacklists}
use scylla_cluster_sync_cxx.Writer.Retry.{
  Verdict, remove, update, Pass, settle, resend, retry_one, retry_all, apply_pass, retry_cycle,
}
use scylla_cluster_sync_cxx.Writer.Retry.Apply.{
  Queue, IsDistinct, apply_pass-to_update, to_update-IsDistinct,
}

-- What a verdict does to an entry: a write that stays is the same write with one more attempt.
abbrev pub NextAttempt : ℕ → FailedWrite → Verdict → Type 0
NextAttempt max fw remove = Unit
NextAttempt max fw (update fw') =
    (fw.attempts < max)
    × (fw'.attempts ≡ fw.attempts + 1)
    × (fw'.id ≡ fw.id)
    × (fw'.cql ≡ fw.cql)
    × (fw'.keyspace ≡ fw.keyspace)
    × (fw'.first_attempt ≡ fw.first_attempt)

resend_next :
    (w : DualWriter) (fw : FailedWrite) (max : ℕ)
    → max < 2 ^ 32
    → fw.attempts < max
    → NextAttempt max fw (resend w fw).0
unfolding resend
resend_next w fw max bound left = elim (Result-cases (execute w.target fw.cql).0) [
  | inl (u, e) ↦ rw (e, resend) tt
  | inr (x, e) ↦ rw (e, resend) (left, omega arith, refl, refl, refl, refl)
]

pub retry_one_next :
    (w : DualWriter) (fw : FailedWrite)
    → w.config.max_retries < 2 ^ 32
    → NextAttempt w.config.max_retries fw (retry_one w fw).0
unfolding retry_one
retry_one_next w fw bound = elim (Bool-cases (leb w.config.max_retries fw.attempts)) [
  | inl spent ↦ rw spent tt
  | inr left ↦ elim (Bool-cases (blacklists w fw.keyspace).0) [
    | inl skip ↦ rw (left, skip) tt
    | inr pass ↦
        rw (left, pass)
          (resend_next (blacklists w fw.keyspace).1 fw w.config.max_retries bound (ground arith))
  ]
]

-- Judging an entry touches neither the source nor the configuration nor the queue.
pub retry_one_keeps :
    (w : DualWriter) (fw : FailedWrite)
    → ((retry_one w fw).1.config ≡ w.config)
      × ((retry_one w fw).1.source ≡ w.source)
      × ((retry_one w fw).1.pending ≡ w.pending)
unfolding retry_one
retry_one_keeps w fw = (ground arith, ground arith, ground arith)

settle_writer : (k : Text) (v : Verdict) (p : Pass) → (settle k v p).writer ≡ p.writer
unfolding settle
settle_writer k remove p = refl
settle_writer k (update fw) p = refl

pub retry_all_keeps :
    (w : DualWriter) (xs : Queue)
    → ((retry_all w xs).writer.config ≡ w.config)
      × ((retry_all w xs).writer.source ≡ w.source)
      × ((retry_all w xs).writer.pending ≡ w.pending)
unfolding retry_all
retry_all_keeps w [] = (refl, refl, refl)
retry_all_keeps w ((k, fw) ∷ xs) =
    let (verdict, w1) = retry_one w fw in
    let (c, s, q) = retry_one_keeps w fw in
    let (c', s', q') = retry_all_keeps w1 xs in
    rw (settle_writer k verdict (retry_all w1 xs)) (c' ∙ c, s' ∙ s, q' ∙ q)

-- Every entry has had at least `n` attempts.
abbrev pub AtLeast : ℕ → Queue → Type 0
AtLeast n [] = Unit
AtLeast n ((k, fw) ∷ xs) = (n ≤ fw.attempts) × AtLeast n xs

-- No entry has had more than `n`.
abbrev pub AtMost : ℕ → Queue → Type 0
AtMost n [] = Unit
AtMost n ((k, fw) ∷ xs) = (fw.attempts ≤ n) × AtMost n xs

settle_attempts :
    (max n : ℕ) (k : Text) (fw : FailedWrite) (v : Verdict) (p : Pass)
    → NextAttempt max fw v
    → n ≤ fw.attempts
    → AtLeast (n + 1) p.to_update × AtMost max p.to_update
    → AtLeast (n + 1) (settle k v p).to_update × AtMost max (settle k v p).to_update
unfolding settle
settle_attempts max n k fw remove p next h rest = rest
settle_attempts max n k fw (update fw') p next h rest =
    ((omega arith, rest.0), (omega arith, rest.1))

pub to_update_attempts :
    (max n : ℕ) (w : DualWriter) (xs : Queue)
    → w.config.max_retries ≡ max
    → max < 2 ^ 32
    → AtLeast n xs
    → AtLeast (n + 1) (retry_all w xs).to_update × AtMost max (retry_all w xs).to_update
unfolding retry_all
to_update_attempts max n w [] e bound h = (tt, tt)
to_update_attempts max n w ((k, fw) ∷ xs) e bound h =
    let (verdict, w1) = retry_one w fw in
    let e1 : w1.config.max_retries ≡ max = ap (λ c. c.max_retries) (retry_one_keeps w fw).0 ∙ e in
    let next = subst (λ m. NextAttempt m fw verdict) e (retry_one_next w fw (omega arith)) in
    settle_attempts max n k fw verdict (retry_all w1 xs) next h.0
      (to_update_attempts max n w1 xs e1 bound h.1)

AtLeast-AtMost : (m n : ℕ) (xs : Queue) → m < n → AtLeast n xs → AtMost m xs → xs ≡ []
AtLeast-AtMost m n [] h lo hi = refl
AtLeast-AtMost m n ((k, fw) ∷ xs) h lo hi = absurd (omega arith)

pub retry_cycle_pending :
    (w : DualWriter)
    → IsDistinct w.pending
    → (retry_cycle w).pending ≡ (retry_all w w.pending).to_update
unfolding retry_cycle
retry_cycle_pending w d =
    ap (apply_pass (retry_all w w.pending)) (retry_all_keeps w w.pending).2
    ∙ apply_pass-to_update w w.pending d

retry_cycle_config : (w : DualWriter) → (retry_cycle w).config ≡ w.config
unfolding retry_cycle
retry_cycle_config w = (retry_all_keeps w w.pending).0

-- `n` rounds of the loop.
unfoldable pub retry_cycles : ℕ → DualWriter → DualWriter
retry_cycles zero w = w
retry_cycles (suc n) w = retry_cycles n (retry_cycle w)

drain :
    (max n a : ℕ) (w : DualWriter)
    → w.config.max_retries ≡ max
    → max < 2 ^ 32
    → IsDistinct w.pending
    → AtLeast a w.pending
    → max ≤ a + n
    → (retry_cycles (suc n) w).pending ≡ []
unfolding retry_cycles
drain max zero a w e bound d lo h =
    let (least, most) = to_update_attempts max a w w.pending e bound lo in
    retry_cycle_pending w d
    ∙ AtLeast-AtMost max (a + 1) (retry_all w w.pending).to_update (omega arith) least most
drain max (suc n) a w e bound d lo h =
    let left = retry_cycle_pending w d in
    let (least, most) = to_update_attempts max a w w.pending e bound lo in
    drain max n (a + 1) (retry_cycle w) (ap (λ c. c.max_retries) (retry_cycle_config w) ∙ e) bound
      (rw left (to_update-IsDistinct w w.pending d)) (rw left least) (omega arith)

-- Whatever the target answers and whatever the filter says, the retry queue is empty after as many
-- rounds as attempts are allowed (and at least one), if nothing is queued meanwhile: no write is
-- retried for ever. Entries start with one attempt; ids are distinct, as in every map.
pub retry_queue_drains :
    (w : DualWriter) (rounds : ℕ)
    → w.config.max_retries < 2 ^ 32
    → IsDistinct w.pending
    → AtLeast 1 w.pending
    → 0 < rounds
    → w.config.max_retries ≤ rounds
    → (retry_cycles rounds w).pending ≡ []
retry_queue_drains w zero bound d lo some_round enough = absurd (omega arith)
retry_queue_drains w (suc n) bound d lo some_round enough =
    drain w.config.max_retries n 1 w refl bound d lo (omega arith)
