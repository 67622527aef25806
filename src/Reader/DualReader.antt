-- ===== src/Reader/DualReader.antt =====
-- services/dual-reader/src/reader.cpp: DualReader. `now` stands for the clock. The endless loop of
-- continuous_validation_loop is modelled by one cycle; its sleep and the log lines are not.
pub mod Validation
pub mod Discrepancies
use scylla_cluster_sync_cxx.Prelude.{
  ℕ, ◌+◌, Bool, true, false, ◌&&◌, Option, none, some, List, [], ◌∷◌, ◌++◌, if◌then◌else◌, Text,
  codes, text_eq, find, erase, assign, is_empty, length,
}
use scylla_cluster_sync_cxx.Svckit.Errors.{SyncError, validation_error, Result, ok, throw}
use scylla_cluster_sync_cxx.Svckit.Types.{Discrepancy, ValidationResult}
use scylla_cluster_sync_cxx.Svckit.Metrics.{Metrics, record_if_present}
use scylla_cluster_sync_cxx.Svckit.Database.{Connection, execute, ping}
use scylla_cluster_sync_cxx.Reader.Filter
use scylla_cluster_sync_cxx.Reader.Filter.{Governor, ReadDecision, dual_read, source_only}
use scylla_cluster_sync_cxx.Reader.Reconciliation.{Strategy, ReconciliationResult, reconcile}

-- `tables` is `config_.reader.tables`; the map of discrepancies is keyed by their ids.
pub record DualReader : Type 0 where
  pub tables : List Text
  pub source : Connection
  pub target : Connection
  pub filter : Option Governor
  pub strategy : Strategy
  pub metrics : Option Metrics
  pub discrepancies : List (Text × Discrepancy)

-- `if (filter_) filter_->decide(table, domain)`; without a filter every read is a dual read.
unfoldable pub gate : DualReader → Text → Text → ReadDecision × DualReader
gate r table domain = elim r.filter [
  | none ↦ (dual_read, r)
  | some g ↦
      let (decision, g') = Filter.decide g table domain in (decision, record r { filter = some g' })
]

unfoldable pub source_only_result : Text → ℕ → ValidationResult
source_only_result table now = record {
  table = table;
  rows_checked = 0;
  rows_matched = 0;
  discrepancies = [];
  consistency = (1, 1);
  validation_time = now;
  source_only = true;
}

unfoldable pub compared_result : Text → ℕ → ValidationResult
compared_result table now = record {
  table = table;
  rows_checked = 0;
  rows_matched = 0;
  discrepancies = [];
  consistency = (1, 1);
  validation_time = now;
  source_only = false;
}

-- The loop `discrepancies_[disc.id] = disc`.
unfoldable pub store_all : List Discrepancy → List (Text × Discrepancy) → List (Text × Discrepancy)
store_all [] m = m
store_all (d ∷ ds) m = store_all ds (assign d.id d m)

unfoldable pub store_result : DualReader → ValidationResult → DualReader
unfolding store_all
store_result r result = record r {
  discrepancies = store_all result.discrepancies r.discrepancies;
  metrics = record_if_present r.metrics (is_empty result.discrepancies);
}

-- The dual read: the source first, and the target only if the source answers.
unfoldable pub compare_clusters : DualReader → Text → ℕ → Result ValidationResult × DualReader
unfolding compared_result store_result
compare_clusters r table now =
    let query = codes "SELECT * FROM " ++ table in
    let (first, source) = execute r.source query in
    let r1 = record r { source = source } in
    elim first [
      | throw e ↦ (throw e, r1)
      | ok u ↦
          let (second, target) = execute r.target query in
          let r2 = record r1 { target = target } in
          elim second [
            | throw e ↦ (throw e, r2)
            | ok v ↦ let result = compared_result table now in (ok result, store_result r2 result)
          ]
    ]

unfoldable pub validate_table : DualReader → Text → ℕ → Result ValidationResult × DualReader
unfolding gate source_only_result compare_clusters
validate_table r table now =
    let (decision, r1) = gate r table [] in
    elim decision [
      | source_only ↦ (ok (source_only_result table now), r1)
      | dual_read ↦ compare_clusters r1 table now
    ]

-- The whole gate first, then validate_table, with its own gate.
unfoldable pub validate_table_for_domain :
    DualReader → Text → Text → ℕ → Result ValidationResult × DualReader
unfolding gate source_only_result validate_table
validate_table_for_domain r table domain now =
    let (decision, r1) = gate r table domain in
    elim decision [
      | source_only ↦ (ok (source_only_result table now), r1)
      | dual_read ↦ validate_table r1 table now
    ]

unfoldable pub keep_result : Result ValidationResult → List ValidationResult → List ValidationResult
keep_result (ok v) results = v ∷ results
keep_result (throw e) results = results

-- The loop over `tables`: a table that fails is skipped.
unfoldable pub validate_tables : List Text → DualReader → ℕ → List ValidationResult × DualReader
unfolding validate_table keep_result
validate_tables [] r now = ([], r)
validate_tables (table ∷ tables) r now =
    let (result, r1) = validate_table r table now in
    let (results, r2) = validate_tables tables r1 now in (keep_result result results, r2)

unfoldable pub validate_all_tables : DualReader → ℕ → List ValidationResult × DualReader
unfolding validate_tables
validate_all_tables r now = validate_tables r.tables r now

-- What a cycle of continuous_validation_loop counts: discrepancies, and source-only tables.
unfoldable pub cycle_totals : List ValidationResult → ℕ × ℕ
cycle_totals [] = (0, 0)
cycle_totals (v ∷ vs) =
    let (found, skipped) = cycle_totals vs in
    (length v.discrepancies + found, if v.source_only then skipped + 1 else skipped)

unfoldable pub get_discrepancies : List (Text × Discrepancy) → List Discrepancy
get_discrepancies [] = []
get_discrepancies ((id, d) ∷ m) = d ∷ get_discrepancies m

unfoldable pub get_discrepancies_for_table : Text → List (Text × Discrepancy) → List Discrepancy
get_discrepancies_for_table table [] = []
get_discrepancies_for_table table ((id, d) ∷ m) =
    let rest = get_discrepancies_for_table table m in
    if text_eq d.table table then d ∷ rest else rest

unfoldable pub clear_discrepancies : DualReader → DualReader
clear_discrepancies r = record r { discrepancies = [] }

settle : Text → ReconciliationResult → DualReader → DualReader
settle id result r =
    if result.success then record r { discrepancies = erase id r.discrepancies } else r

unfoldable pub reconcile_discrepancy : DualReader → Text → Result (Unit {0}) × DualReader
unfolding settle
reconcile_discrepancy r id = elim (find id r.discrepancies) [
  | none ↦ (throw (validation_error (codes "Discrepancy not found: " ++ id)), r)
  | some d ↦
      let (result, target) = reconcile r.strategy d r.target in
      (ok tt, settle id result (record r { target = target }))
]

unfoldable pub set_strategy : DualReader → Strategy → DualReader
set_strategy r strategy = record r { strategy = strategy }

unfoldable pub health_check : DualReader → Bool × DualReader
health_check r =
    let (source_ok, source) = ping r.source in
    let (target_ok, target) = ping r.target in
    (source_ok && target_ok, record r { source = source; target = target })
