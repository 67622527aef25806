-- ===== src/Writer/Service/Fits.antt =====
-- How the queue and the locals of a retry round (services/dual-writer/src/writer.cpp) fit each other.
use scylla_cluster_sync_cxx.Prelude.{
  ℕ, ◌≤◌, ◌≡◌, ◌⊎◌, refl, sym, ap, ◌∙◌, subst, inl, inr, none, some, Option, List, [], ◌∷◌, ◌++◌,
  arith, if◌then◌else◌, Text, text_eq, text_eq_iff, text_eq_refl, Bool-cases, Option-cases, find,
  emplace, contains,
}
use scylla_cluster_sync_cxx.Writer.DualWriter.{FailedWrite}
use scylla_cluster_sync_cxx.Writer.Retry.{Verdict, remove, update, erase_all, assign_all}
use scylla_cluster_sync_cxx.Writer.Retry.Apply.{Queue, IsDistinct, find-assign_all, find-erase_all}
use scylla_cluster_sync_cxx.Writer.Retry.Progress.{NextAttempt}
use scylla_cluster_sync_cxx.Writer.Retry.Queues.{
  find-emplace, find-append, emplace-IsDistinct, erase_all-IsDistinct, assign_all-IsDistinct,
  append-IsDistinct, find-assign_all_updated,
}
use scylla_cluster_sync_cxx.Writer.Service.{Round, record_verdict, snapshot_of}

-- The same failed write, with as many attempts or more.
pub record SameWrite (fw fw' : FailedWrite) : Type 0 where
  pub same_id : fw'.id ≡ fw.id
  pub same_cql : fw'.cql ≡ fw.cql
  pub same_keyspace : fw'.keyspace ≡ fw.keyspace
  pub same_start : fw'.first_attempt ≡ fw.first_attempt
  pub more_attempts : fw.attempts ≤ fw'.attempts

pub SameWrite-refl : (fw : FailedWrite) → SameWrite fw fw
SameWrite-refl fw = ground arith

pub SameWrite-trans : (a b c : FailedWrite) → SameWrite a b → SameWrite b c → SameWrite a c
SameWrite-trans a b c h k = ground arith

-- A write has had its first attempt, and no more than are allowed behind it.
abbrev pub IsAttempted : ℕ → FailedWrite → Type 0
IsAttempted max fw = (1 ≤ fw.attempts) × ((fw.attempts ≡ 1) ⊎ (fw.attempts ≤ max))

-- The locals of a round against the queue: what is left of the snapshot stands in the queue as it
-- was taken, and an update is for an entry of the queue that was judged, with the same write.
pub record Fits (max : ℕ) (q : Queue) (r : Round) : Type 0 where
  pub left_distinct : IsDistinct r.left
  pub update_distinct : IsDistinct r.to_update
  pub left_queued : (id : Text) (fw : FailedWrite) → find id r.left ≡ some fw → find id q ≡ some fw
  pub judged_once :
      (id : Text) (u : FailedWrite) → find id r.to_update ≡ some u → find id r.left ≡ none
  pub update_queued :
      (id : Text) (u : FailedWrite)
      → find id r.to_update ≡ some u
      → (fw : FailedWrite) × (find id q ≡ some fw) × SameWrite fw u
  pub update_attempted :
      (id : Text) (u : FailedWrite) → find id r.to_update ≡ some u → IsAttempted max u

abbrev pub RoundFits : ℕ → Queue → Option Round → Type 0
RoundFits max q none = Unit
RoundFits max q (some r) = Fits max q r

pub record QueueFits (max : ℕ) (q : Queue) : Type 0 where
  pub distinct : IsDistinct q
  pub attempted : (id : Text) (fw : FailedWrite) → find id q ≡ some fw → IsAttempted max fw

-- What stands in a queue stands in the other.
abbrev pub Extends : Queue → Queue → Type 0
Extends q q' = (id : Text) (fw : FailedWrite) → find id q ≡ some fw → find id q' ≡ some fw

pub extends_fits :
    (max : ℕ) (q q' : Queue) (r : Option Round)
    → Extends q q'
    → RoundFits max q r
    → RoundFits max q' r
extends_fits max q q' none h f = tt
extends_fits max q q' (some r) h f = record {
  left_distinct = f.left_distinct;
  update_distinct = f.update_distinct;
  left_queued = λ id fw e. h id fw (f.left_queued id fw e);
  judged_once = f.judged_once;
  update_queued =
      λ id u e. let (fw, there, same) = f.update_queued id u e in (fw, h id fw there, same);
  update_attempted = f.update_attempted;
}

pub emplace-Extends : (k : Text) (v : FailedWrite) (q : Queue) → Extends q (emplace k v q)
emplace-Extends k v q id fw h = ground (arith, find-emplace k id v q, text_eq_iff k id)

pub emplace_fits :
    (max : ℕ) (k : Text) (v : FailedWrite) (q : Queue)
    → v.attempts ≡ 1
    → QueueFits max q
    → QueueFits max (emplace k v q)
emplace_fits max k v q first f = record {
  distinct = emplace-IsDistinct k v q f.distinct;
  attempted = λ id fw h. elim (Option-cases (find id q)) [
    | inr (u, e) ↦ f.attempted id fw (e ∙ sym (emplace-Extends k v q id u e) ∙ h)
    | inl e ↦ ground (arith, find-emplace k id v q, text_eq_iff k id)
  ];
}

find_cons_other :
    (k id : Text) (v : FailedWrite) (m : Queue)
    → find k m ≡ none
    → (fw : FailedWrite) → find id m ≡ some fw
    → find id ((k, v) ∷ m) ≡ some fw
unfolding find
find_cons_other k id v m absent fw h = ground (arith, text_eq_iff k id)

pub find_front : (k : Text) (v : FailedWrite) (m : Queue) → find k ((k, v) ∷ m) ≡ some v
unfolding find
find_front k v m = rw text_eq_refl refl

find-none_tail :
    (k id : Text) (v : FailedWrite) (m : Queue) → find id ((k, v) ∷ m) ≡ none → find id m ≡ none
unfolding find
find-none_tail k id v m h = ground arith

find_appended :
    (m : Queue) (k id : Text) (v u : FailedWrite)
    → find id (m ++ ((k, v) ∷ [])) ≡ some u
    → (find id m ≡ some u) ⊎ ((k ≡ id) × (v ≡ u))
unfolding find
find_appended m k id v u h = elim (Option-cases (find id m)) [
  | inr (x, there) ↦ inl (there ∙ sym (rw (find-append id m ((k, v) ∷ [])) (rw there refl)) ∙ h)
  | inl absent ↦ elim (Bool-cases (text_eq k id)) [
    | inl same ↦ inr ((text_eq_iff k id).0 same, ground (arith, find-append id m ((k, v) ∷ [])))
    | inr other ↦ ground (arith, find-append id m ((k, v) ∷ []))
  ]
]

-- The entry at the front of what is left, judged: it is the queue's entry of that id.
pub judged-Fits :
    (max : ℕ) (q : Queue) (r : Round) (k : Text) (fw : FailedWrite) (rest : Queue)
    (verdict : Verdict)
    → r.left ≡ (k, fw) ∷ rest
    → IsAttempted max fw
    → NextAttempt max fw verdict
    → Fits max q r
    → Fits max q (record_verdict k verdict (record r { left = rest }))
unfolding record_verdict
judged-Fits max q r k fw rest remove e tried next f =
    let d = subst IsDistinct e f.left_distinct in
    record {
      left_distinct = d.1;
      update_distinct = f.update_distinct;
      left_queued = λ id u h. f.left_queued id u (rw e (find_cons_other k id fw rest d.0 u h));
      judged_once =
          λ id u h. find-none_tail k id fw rest (sym (ap (find id) e) ∙ f.judged_once id u h);
      update_queued = f.update_queued;
      update_attempted = f.update_attempted;
    }
judged-Fits max q r k fw rest (update fw') e tried next f =
    let d = subst IsDistinct e f.left_distinct in
    let front : find k r.left ≡ some fw = rw e (find_front k fw rest) in
    let fresh : find k r.to_update ≡ none = elim (Option-cases (find k r.to_update)) [
      | inl absent ↦ absent
      | inr (u, there) ↦ let gone = f.judged_once k u there in cc
    ] in
    record {
      left_distinct = d.1;
      update_distinct = append-IsDistinct r.to_update k fw' f.update_distinct fresh;
      left_queued = λ id u h. f.left_queued id u (rw e (find_cons_other k id fw rest d.0 u h));
      judged_once = λ id u h. elim (find_appended r.to_update k id fw' u h) [
        | inl before ↦
            find-none_tail k id fw rest (sym (ap (find id) e) ∙ f.judged_once id u before)
        | inr (same, now) ↦ subst (λ j. find j rest ≡ none) same d.0
      ];
      update_queued = λ id u h. elim (find_appended r.to_update k id fw' u h) [
        | inl before ↦ f.update_queued id u before
        | inr (same, now) ↦
            (fw, subst (λ j. find j q ≡ some fw) same (f.left_queued k fw front), ground arith)
      ];
      update_attempted = λ id u h. elim (find_appended r.to_update k id fw' u h) [
        | inl before ↦ f.update_attempted id u before
        | inr (same, now) ↦ ground arith
      ];
    }

pub applied_unchanged :
    (m u : Queue) (ks : List Text) (id : Text)
    → find id u ≡ none
    → find id (assign_all u (erase_all ks m)) ≡ (if contains ks id then none else find id m)
applied_unchanged m u ks id h = find-assign_all u id (erase_all ks m) h ∙ find-erase_all ks id m

pub applied-Fits :
    (max : ℕ) (q : Queue) (r : Round)
    → QueueFits max q
    → Fits max q r
    → QueueFits max (assign_all r.to_update (erase_all r.to_remove q))
applied-Fits max q r v f = record {
  distinct =
      assign_all-IsDistinct r.to_update (erase_all r.to_remove q)
        (erase_all-IsDistinct r.to_remove q v.distinct);
  attempted = λ id fw h. elim (Option-cases (find id r.to_update)) [
    | inr (u, there) ↦
        let now =
          find-assign_all_updated r.to_update id u (erase_all r.to_remove q) f.update_distinct
            there in
        let tried = f.update_attempted id u there in ground arith
    | inl absent ↦
        v.attempted id fw (ground (arith, applied_unchanged q r.to_update r.to_remove id absent))
  ];
}

pub snapshot_fits : (max : ℕ) (q : Queue) → IsDistinct q → RoundFits max q (snapshot_of q)
unfolding snapshot_of find
snapshot_fits max [] d = tt
snapshot_fits max (entry ∷ rest) d = record {
  left_distinct = d;
  update_distinct = tt;
  left_queued = λ id fw h. h;
  judged_once = λ id u h. cc;
  update_queued = λ id u h. cc;
  update_attempted = λ id u h. cc;
}
