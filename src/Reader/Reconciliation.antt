-- ===== src/Reader/Reconciliation.antt =====
-- services/dual-reader/src/reconciliation.cpp: the three strategies. A strategy is a constructor; a
-- call gives back the connection to the target after it, since no strategy uses the source.
use scylla_cluster_sync_cxx.Prelude.{Bool, true, false, none, some, ◌++◌, Text, codes}
use scylla_cluster_sync_cxx.Svckit.Errors.{what, Result, ok, throw}
use scylla_cluster_sync_cxx.Svckit.Types.{
  DiscrepancyType, missing_in_target, missing_in_source, data_mismatch, timestamp_mismatch,
  Discrepancy,
}
use scylla_cluster_sync_cxx.Svckit.Database.{Connection, execute}

pub data Strategy : Type 0 where
  source_wins newest_wins manual : Strategy

unfoldable pub strategy_name : Strategy → Text
strategy_name source_wins = codes "source_wins"
strategy_name newest_wins = codes "newest_wins"
strategy_name manual = codes "manual"

pub record ReconciliationResult : Type 0 where
  pub success : Bool
  pub action : Text
  pub error_message : Text

-- The row is no argument of the statement that is executed.
unfoldable pub copy_row_to_target : Connection → Text → Text → Result (Unit {0}) × Connection
copy_row_to_target target table json_row =
    execute target (codes "INSERT INTO " ++ (table ++ codes " JSON ?"))

unfoldable pub no_action_needed : ReconciliationResult
no_action_needed = record {
  success = true;
  action = codes "NoActionNeeded";
  error_message = codes "";
}

unfoldable pub copied : Result (Unit {0}) → ReconciliationResult
copied (ok u) = record { success = true; action = codes "CopiedToTarget"; error_message = codes "" }
copied (throw e) = record { success = false; action = codes ""; error_message = what e }

-- The branch that three cases share: copy the source's row, if the discrepancy has one.
unfoldable pub copy_source_value : Discrepancy → Connection → ReconciliationResult × Connection
unfolding copy_row_to_target copied no_action_needed
copy_source_value d target = elim d.source_value [
  | none ↦ (no_action_needed, target)
  | some row ↦ let (r, target') = copy_row_to_target target d.table row in (copied r, target')
]

unfoldable pub by_source :
    DiscrepancyType → Discrepancy → Connection → ReconciliationResult × Connection
unfolding copy_source_value no_action_needed
by_source missing_in_target d target = copy_source_value d target
by_source data_mismatch d target = copy_source_value d target
by_source missing_in_source d target = (no_action_needed, target)
by_source timestamp_mismatch d target = (no_action_needed, target)

unfoldable pub source_authoritative : Discrepancy → Connection → ReconciliationResult × Connection
unfolding by_source
source_authoritative d target = by_source d.kind d target

unfoldable pub by_newest :
    DiscrepancyType → Discrepancy → Connection → ReconciliationResult × Connection
unfolding copy_source_value no_action_needed
by_newest timestamp_mismatch d target = copy_source_value d target
by_newest missing_in_target d target = (no_action_needed, target)
by_newest missing_in_source d target = (no_action_needed, target)
by_newest data_mismatch d target = (no_action_needed, target)

unfoldable pub newest_timestamp : Discrepancy → Connection → ReconciliationResult × Connection
unfolding by_newest
newest_timestamp d target = by_newest d.kind d target

unfoldable pub manual_review : Discrepancy → Connection → ReconciliationResult × Connection
manual_review d target = (
  record { success = true; action = codes "ManualReviewRequired"; error_message = codes "" },
  target,
)

-- The virtual call `strategy_->reconcile(...)`.
unfoldable pub reconcile : Strategy → Discrepancy → Connection → ReconciliationResult × Connection
unfolding source_authoritative newest_timestamp manual_review
reconcile source_wins d target = source_authoritative d target
reconcile newest_wins d target = newest_timestamp d target
reconcile manual d target = manual_review d target
