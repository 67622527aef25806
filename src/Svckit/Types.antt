-- ===== src/Svckit/Types.antt =====
-- svckit/include/svckit/types.hpp, filter_governor.hpp and svckit/src/{types,errors}.cpp.
use scylla_cluster_sync_cxx.Prelude.{ℕ, Text, codes, Bool, Option, List}

pub data DiscrepancyType : Type 0 where
  missing_in_target missing_in_source data_mismatch timestamp_mismatch : DiscrepancyType

unfoldable pub discrepancy_name : DiscrepancyType → Text
discrepancy_name missing_in_target = codes "MissingInTarget"
discrepancy_name missing_in_source = codes "MissingInSource"
discrepancy_name data_mismatch = codes "DataMismatch"
discrepancy_name timestamp_mismatch = codes "TimestampMismatch"

-- `key` is an ordered map in the source; `detected_at` is in ticks of the clock.
pub record Discrepancy : Type 0 where
  pub id : Text
  pub table : Text
  pub key : List (Text × Text)
  pub kind : DiscrepancyType
  pub source_value : Option Text
  pub target_value : Option Text
  pub detected_at : ℕ

-- `consistency` stands for the float `consistency_percentage`, as the fraction that it is computed
-- from: matched and checked rows; 100% is (1, 1).
pub record ValidationResult : Type 0 where
  pub table : Text
  pub rows_checked : ℕ
  pub rows_matched : ℕ
  pub discrepancies : List Discrepancy
  pub consistency : ℕ × ℕ
  pub validation_time : ℕ
  pub source_only : Bool

pub data FilterDecision : Type 0 where
  allow skip_table skip_tenant source_only_read : FilterDecision

unfoldable pub decision_name : FilterDecision → Text
decision_name allow = codes "Allow"
decision_name skip_table = codes "SkipTable"
decision_name skip_tenant = codes "SkipTenant"
decision_name source_only_read = codes "SourceOnly"
