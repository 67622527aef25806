-- ===== src/Writer/Service/Loss.antt =====
-- Where a queued write can go, whatever the threads do in between.
use scylla_cluster_sync_cxx.Prelude.{
  ◌≤◌, ◌≡◌, ◌⊎◌, refl, sym, ◌∙◌, subst, inl, inr, true, false, Option, none, some, List, [], ◌∷◌,
  ◌++◌, arith, Text, text_eq, text_eq_iff, leb, Bool-cases, Option-cases, find, contains,
}
use scylla_cluster_sync_cxx.Svckit.Database.{execute}
use scylla_cluster_sync_cxx.Svckit.Errors.{ok, Result-cases}
use scylla_cluster_sync_cxx.Writer.DualWriter.{FailedWrite, DualWriter, blacklists, health_check}
use scylla_cluster_sync_cxx.Writer.Retry.{Verdict, remove, update, retry_one}
use scylla_cluster_sync_cxx.Writer.Retry.Apply.{Queue}
use scylla_cluster_sync_cxx.Writer.Retry.Queues.{find-assign_all_updated}
use scylla_cluster_sync_cxx.Writer.Retry.Progress.{retry_one_keeps}
use scylla_cluster_sync_cxx.Writer.Service.{
  Round, Service, Step, client_write, client_health, take_snapshot, judge_next, apply_round,
  reload_filter, record_verdict, judge_entry, apply_if_done, snapshot_of, begin_round, judge,
  finish_round, step, run,
}
use scylla_cluster_sync_cxx.Writer.Service.Fits.{
  SameWrite, SameWrite-refl, SameWrite-trans, emplace-Extends, find_front, applied_unchanged,
}
use scylla_cluster_sync_cxx.Writer.Service.Invariant.{IsSound, step-IsSound, write_pending}

-- Why a retry takes an entry off the queue: no attempt is left, its table is blacklisted by now, or
-- the target has executed it.
abbrev pub Reason : DualWriter → FailedWrite → Type 0
Reason w fw =
    (w.config.max_retries ≤ fw.attempts)
    ⊎ ((blacklists w fw.keyspace).0 ≡ true)
    ⊎ ((execute w.target fw.cql).0 ≡ ok tt)

-- Somewhere in the run, the retry thread judges the write, as it is queued by then, for a reason.
pub data Settled (id : Text) (fw : FailedWrite) : Service → List Step → Type 0 where
  now :
      (s : Service) (es : List Step) (r : Round) (rest : Queue) (fw' : FailedWrite)
      → s.round ≡ some r
      → r.left ≡ (id, fw') ∷ rest
      → SameWrite fw fw'
      → Reason s.writer fw'
      → Settled id fw s (judge_next ∷ es)
  later :
      (s : Service) (e : Step) (es : List Step)
      → Settled id fw (step s e) es
      → Settled id fw s (e ∷ es)

-- The round under way, if there is one, does not remove the entry.
abbrev IsSpared : Text → Option Round → Type 0
IsSpared id none = Unit
IsSpared id (some r) = contains r.to_remove id ≡ false

abbrev IsKept : Text → FailedWrite → Service → Type 0
IsKept id fw s =
    (fw' : FailedWrite) × (find id s.writer.pending ≡ some fw')
    × SameWrite fw fw'
    × IsSpared id s.round

retry_one-Reason : (w : DualWriter) (fw : FailedWrite) → (retry_one w fw).0 ≡ remove → Reason w fw
unfolding retry_one
retry_one-Reason w fw h = elim (Bool-cases (leb w.config.max_retries fw.attempts)) [
  | inl spent ↦ inl (ground arith)
  | inr left ↦ elim (Bool-cases (blacklists w fw.keyspace).0) [
    | inl skip ↦ inr (inl skip)
    | inr pass ↦ elim (Result-cases (execute w.target fw.cql).0) [
      | inl (u, e) ↦ inr (inr e)
      | inr (x, e) ↦ ground arith
    ]
  ]
]

contains_appended :
    (ks : List Text) (k id : Text)
    → contains ks id ≡ false
    → text_eq k id ≡ false
    → contains (ks ++ (k ∷ [])) id ≡ false
unfolding contains
contains_appended [] k id h other = ground arith
contains_appended (j ∷ ks) k id h other = ground (arith, contains_appended ks k id)

spared_other :
    (id k : Text) (v : Verdict) (r : Round)
    → contains r.to_remove id ≡ false
    → text_eq k id ≡ false
    → contains (record_verdict k v r).to_remove id ≡ false
unfolding record_verdict
spared_other id k remove r h other = contains_appended r.to_remove k id h other
spared_other id k (update fw) r h other = h

Option-some : {a b : FailedWrite} → (let x : Option FailedWrite = some a in x ≡ some b) → a ≡ b
Option-some h = cc

Verdict-cases : (v : Verdict) → (v ≡ remove) ⊎ ((fw : FailedWrite) × (v ≡ update fw))
Verdict-cases remove = inl refl
Verdict-cases (update fw) = inr (fw, refl)

spared_update :
    (id k : Text) (fw : FailedWrite) (r : Round)
    → contains r.to_remove id ≡ false
    → contains (record_verdict k (update fw) r).to_remove id ≡ false
unfolding record_verdict
spared_update id k fw r h = h

judged-IsKept :
    (w : DualWriter) (left : Queue) (r : Round) (es : List Step) (id : Text) (fw : FailedWrite)
    → r.left ≡ left
    → IsSound (record { writer = w; round = some r })
    → IsKept id fw (record { writer = w; round = some r })
    → IsKept id fw (judge_entry w left r)
      ⊎ Settled id fw (record { writer = w; round = some r }) (judge_next ∷ es)
unfolding judge_entry
judged-IsKept w [] r es id fw e v k = inl k
judged-IsKept w ((j, entry) ∷ rest) r es id fw e v (fw', queued, same, spared) =
    let s : Service = record { writer = w; round = some r } in
    let (verdict, w1) = retry_one w entry in
    let next = record r { left = rest } in
    let still : find id w1.pending ≡ some fw' = rw (retry_one_keeps w entry).2 queued in
    elim (Bool-cases (text_eq j id)) [
      | inr other ↦ inl (fw', still, same, spared_other id j verdict next spared other)
      | inl here ↦
          let there = v.round.left_queued j entry (rw e (find_front j entry rest)) in
          let j_is_id = (text_eq_iff j id).0 here in
          let entry_is : fw' ≡ entry =
            Option-some (sym queued ∙ subst (λ i. find i w.pending ≡ some entry) j_is_id there) in
          elim (Verdict-cases verdict) [
            | inr (u, judged) ↦ inl (fw', still, same, rw judged (spared_update id j u next spared))
            | inl judged ↦ inr (
                now s es r rest entry refl (rw (← j_is_id) e) (subst (SameWrite fw) entry_is same)
                  (retry_one-Reason w entry judged))
          ]
    ]

applied-IsKept :
    (w : DualWriter) (left : Queue) (r : Round) (id : Text) (fw : FailedWrite)
    → IsSound (record { writer = w; round = some r })
    → IsKept id fw (record { writer = w; round = some r })
    → IsKept id fw (apply_if_done w left r)
unfolding apply_if_done
applied-IsKept w (entry ∷ rest) r id fw v k = k
applied-IsKept w [] r id fw v (fw', queued, same, spared) =
    elim (Option-cases (find id r.to_update)) [
      | inl absent ↦ (
        fw',
        applied_unchanged w.pending r.to_update r.to_remove id absent ∙ rw spared queued,
        same,
        tt,
      )
      | inr (u, there) ↦
          let (prior, before, changed) = v.round.update_queued id u there in
          let was : fw' ≡ prior = Option-some (sym queued ∙ before) in
          (
            u,
            find-assign_all_updated r.to_update id u _ v.round.update_distinct there,
            SameWrite-trans fw prior u (subst (SameWrite fw) was same) changed,
            tt,
          )
    ]

snapshot_spares : (id : Text) (q : Queue) → IsSpared id (snapshot_of q)
unfolding snapshot_of contains
snapshot_spares id [] = tt
snapshot_spares id (entry ∷ rest) = refl

begun-IsKept :
    (w : DualWriter) (round : Option Round) (id : Text) (fw : FailedWrite)
    → IsKept id fw (record { writer = w; round = round })
    → IsKept id fw (begin_round w round)
unfolding begin_round
begun-IsKept w none id fw (fw', queued, same, spared) =
    (fw', queued, same, snapshot_spares id w.pending)
begun-IsKept w (some r) id fw k = k

finished-IsKept :
    (w : DualWriter) (round : Option Round) (id : Text) (fw : FailedWrite)
    → IsSound (record { writer = w; round = round })
    → IsKept id fw (record { writer = w; round = round })
    → IsKept id fw (finish_round w round)
unfolding finish_round
finished-IsKept w none id fw v k = k
finished-IsKept w (some r) id fw v k = applied-IsKept w r.left r id fw v k

judge-IsKept :
    (w : DualWriter) (round : Option Round) (es : List Step) (id : Text) (fw : FailedWrite)
    → IsSound (record { writer = w; round = round })
    → IsKept id fw (record { writer = w; round = round })
    → IsKept id fw (judge w round)
      ⊎ Settled id fw (record { writer = w; round = round }) (judge_next ∷ es)
unfolding judge
judge-IsKept w none es id fw v k = inl k
judge-IsKept w (some r) es id fw v k = judged-IsKept w r.left r es id fw refl v k

step-IsKept :
    (s : Service) (e : Step) (es : List Step) (id : Text) (fw : FailedWrite)
    → IsSound s
    → IsKept id fw s
    → IsKept id fw (step s e) ⊎ Settled id fw s (e ∷ es)
unfolding step health_check
step-IsKept s (client_write i time elapsed cql keyspace) es id fw v (fw', queued, same, spared) =
    elim (write_pending s.writer i time elapsed cql keyspace).1 [
      | inl equal ↦ inl (fw', rw equal queued, same, spared)
      | inr (new, first, grown) ↦
          inl (fw', rw grown (emplace-Extends i new s.writer.pending id fw' queued), same, spared)
    ]
step-IsKept s client_health es id fw v k = inl k
step-IsKept s take_snapshot es id fw v k = inl (begun-IsKept s.writer s.round id fw k)
step-IsKept s judge_next es id fw v k = judge-IsKept s.writer s.round es id fw v k
step-IsKept s apply_round es id fw v k = inl (finished-IsKept s.writer s.round id fw v k)
step-IsKept s reload_filter es id fw v k = inl k

run-IsKept :
    (s : Service) (es : List Step) (id : Text) (fw : FailedWrite)
    → IsSound s
    → IsKept id fw s
    → IsKept id fw (run s es) ⊎ Settled id fw s es
unfolding run
run-IsKept s [] id fw v k = inl k
run-IsKept s (e ∷ es) id fw v k = elim (step-IsKept s e es id fw v k) [
  | inr settled ↦ inr settled
  | inl kept ↦ elim (run-IsKept (step s e) es id fw (step-IsSound s e v) kept) [
    | inl still ↦ inl still
    | inr settled ↦ inr (later s e es settled)
  ]
]

-- No queued write is lost silently, whatever the clients and the threads do and in whatever order
-- (from a sound state, between two rounds): after any steps the write still stands in the queue,
-- the same but for its attempts and its error, or on the way the retry thread judged it, as it
-- stood by then, with no attempt left, with its table blacklisted, or with the target accepting it.
pub run_loses_nothing :
    (s : Service) (es : List Step) (id : Text) (fw : FailedWrite)
    → IsSound s
    → s.round ≡ none
    → find id s.writer.pending ≡ some fw
    → ((fw' : FailedWrite) × (find id (run s es).writer.pending ≡ some fw') × SameWrite fw fw')
      ⊎ Settled id fw s es
run_loses_nothing s es id fw v idle queued =
    let kept =
      run-IsKept s es id fw v (fw, queued, SameWrite-refl fw, subst (IsSpared id) (sym idle) tt) in
    elim kept [
      | inl (fw', there, same, spared) ↦ inl (fw', there, same)
      | inr settled ↦ inr settled
    ]
