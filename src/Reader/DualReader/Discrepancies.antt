-- ===== src/Reader/DualReader/Discrepancies.antt =====
-- The map of discrepancies (services/dual-reader/src/reader.cpp): reconcile_discrepancy, the loop
-- that stores what a validation found, and the getters.
use scylla_cluster_sync_cxx.Prelude.{
  ◌≡◌, refl, ◌⊎◌, ◌↔◌, inl, inr, arith, Bool, true, false, none, some, ◌++◌, if◌then◌else◌, Text,
  codes, text_eq, text_eq_iff, find, find-erase, Option-cases,
}
use scylla_cluster_sync_cxx.Svckit.Errors.{validation_error, Result, ok, throw}
use scylla_cluster_sync_cxx.Svckit.Types.{
  DiscrepancyType, Discrepancy, missing_in_target, missing_in_source, data_mismatch,
  timestamp_mismatch,
}
use scylla_cluster_sync_cxx.Svckit.Database.{Connection, execute}
use scylla_cluster_sync_cxx.Reader.Reconciliation.{
  Strategy, source_wins, newest_wins, manual, ReconciliationResult, reconcile, source_authoritative,
  newest_timestamp, manual_review, copy_source_value, copy_row_to_target, by_source, by_newest,
  copied, no_action_needed,
}
use scylla_cluster_sync_cxx.Reader.DualReader.{DualReader, reconcile_discrepancy}

-- Reconciling a discrepancy that is not in the map throws a validation error that names the id, and
-- changes nothing.
pub reconcile_discrepancy_missing :
    (r : DualReader) (id : Text)
    → find id r.discrepancies ≡ none
    → reconcile_discrepancy r id
      ≡ (throw (validation_error (codes "Discrepancy not found: " ++ id)), r)
unfolding reconcile_discrepancy
reconcile_discrepancy_missing r id h = rw (h, reconcile_discrepancy)

-- Reconciling a discrepancy that is in the map never throws. The target is what the strategy left of
-- it. The map loses the id if the strategy reported success, and is unchanged if it did not; every
-- other id keeps its entry either way. The source, the metrics and the filter are not used.
pub reconcile_discrepancy_found :
    (r : DualReader) (id other : Text) (d : Discrepancy)
    → find id r.discrepancies ≡ some d
    → let (result, target) = reconcile r.strategy d r.target in
      let (outcome, r') = reconcile_discrepancy r id in
      (outcome ≡ ok tt)
      × (r' ≡ record r { target = target; discrepancies = r'.discrepancies })
      × (find id r'.discrepancies ≡ (if result.success then none else some d))
      × (find other r'.discrepancies ≡ (
          if text_eq id other
          then (if result.success then none else some d)
          else find other r.discrepancies))
unfolding reconcile_discrepancy
reconcile_discrepancy_found r id other d h = ground (
  arith,
  find-erase id id r.discrepancies,
  find-erase id other r.discrepancies,
  text_eq_iff id id,
  text_eq_iff id other,
)

-- The kinds of discrepancy for which a strategy copies the source's row.
abbrev pub copies_kind : Strategy → DiscrepancyType → Bool
copies_kind source_wins missing_in_target = true
copies_kind source_wins missing_in_source = false
copies_kind source_wins data_mismatch = true
copies_kind source_wins timestamp_mismatch = false
copies_kind newest_wins missing_in_target = false
copies_kind newest_wins missing_in_source = false
copies_kind newest_wins data_mismatch = false
copies_kind newest_wins timestamp_mismatch = true
copies_kind manual kind = false

abbrev pub insert_into : Discrepancy → Text
insert_into d = codes "INSERT INTO " ++ (d.table ++ codes " JSON ?")

-- One insert into the discrepancy's table, and success exactly if it is executed.
abbrev pub Sent : Discrepancy → Connection → ReconciliationResult × Connection → Type 0
Sent d target (result, target') =
    (target' ≡ (execute target (insert_into d)).1)
    × ((result.success ≡ true) ↔ ((execute target (insert_into d)).0 ≡ ok tt))

-- Nothing sent.
abbrev pub Left : Connection → ReconciliationResult × Connection → Type 0
Left target (result, target') = (target' ≡ target) × (result.success ≡ true)

copied_iff : (r : Result (Unit {0})) → ((copied r).success ≡ true) ↔ (r ≡ ok tt)
unfolding copied
copied_iff (ok u) = (λ h. refl, λ h. refl)
copied_iff (throw e) = (λ h. cc, λ h. cc)

copy_source_value_sends :
    (d : Discrepancy) (target : Connection)
    → (((row : Text) × (d.source_value ≡ some row)) × Sent d target (copy_source_value d target))
      ⊎ ((d.source_value ≡ none) × Left target (copy_source_value d target))
unfolding copy_source_value copy_row_to_target
copy_source_value_sends d target = elim (Option-cases d.source_value) [
  | inl e ↦ inr (e, rw (e, copy_source_value) (refl, refl))
  | inr (row, e) ↦
      inl
        ((row, e), rw (e, copy_source_value) (refl, copied_iff (execute target (insert_into d)).0))
]

-- What a handler does with a discrepancy of a kind for which it copies, or does not.
abbrev pub Handled : Bool → Discrepancy → Connection → ReconciliationResult × Connection → Type 0
Handled copying d target outcome =
    ((copying ≡ true) × ((row : Text) × (d.source_value ≡ some row)) × Sent d target outcome)
    ⊎ (((copying ≡ false) ⊎ (d.source_value ≡ none)) × Left target outcome)

copy_source_value-Handled :
    (d : Discrepancy) (target : Connection) → Handled true d target (copy_source_value d target)
copy_source_value-Handled d target = elim (copy_source_value_sends d target) [
  | inl (row, sent) ↦ inl (refl, row, sent)
  | inr (nothing, left) ↦ inr (inr nothing, left)
]

by_source-Handled :
    (k : DiscrepancyType) (d : Discrepancy) (target : Connection)
    → Handled (copies_kind source_wins k) d target (by_source k d target)
unfolding by_source no_action_needed
by_source-Handled missing_in_target d target = copy_source_value-Handled d target
by_source-Handled data_mismatch d target = copy_source_value-Handled d target
by_source-Handled missing_in_source d target = inr (inl refl, (refl, refl))
by_source-Handled timestamp_mismatch d target = inr (inl refl, (refl, refl))

by_newest-Handled :
    (k : DiscrepancyType) (d : Discrepancy) (target : Connection)
    → Handled (copies_kind newest_wins k) d target (by_newest k d target)
unfolding by_newest no_action_needed
by_newest-Handled timestamp_mismatch d target = copy_source_value-Handled d target
by_newest-Handled missing_in_target d target = inr (inl refl, (refl, refl))
by_newest-Handled missing_in_source d target = inr (inl refl, (refl, refl))
by_newest-Handled data_mismatch d target = inr (inl refl, (refl, refl))

-- A strategy sends the target one insert into the discrepancy's table if it copies for the
-- discrepancy's kind and the source had a row, and then it reports success exactly if the insert is
-- executed. Else it leaves the target alone and reports success.
pub reconcile_sends :
    (s : Strategy) (d : Discrepancy) (target : Connection)
    → Handled (copies_kind s d.kind) d target (reconcile s d target)
unfolding reconcile source_authoritative newest_timestamp manual_review
reconcile_sends source_wins d target = by_source-Handled d.kind d target
reconcile_sends newest_wins d target = by_newest-Handled d.kind d target
reconcile_sends manual d target = inr (inl refl, (refl, refl))
