-- ===== src/Svckit/Metrics.antt =====
-- svckit/src/metrics.cpp: the counters behind MetricsRegistry. The prometheus registry that prints
-- them is not modelled; its counters count without a bound.
use scylla_cluster_sync_cxx.Prelude.{ℕ, ◌+◌, Bool, Option, none, some, if◌then◌else◌}

pub record Metrics : Type 0 where
  pub rows_migrated : ℕ
  pub rows_failed : ℕ
  pub rows_filtered : ℕ

unfoldable pub record_operation : Metrics → Bool → Metrics
record_operation m success =
    if success
    then record m { rows_migrated = m.rows_migrated + 1 }
    else record m { rows_failed = m.rows_failed + 1 }

unfoldable pub record_rows_migrated : Metrics → ℕ → Metrics
record_rows_migrated m count = record m { rows_migrated = m.rows_migrated + count }

unfoldable pub record_rows_failed : Metrics → ℕ → Metrics
record_rows_failed m count = record m { rows_failed = m.rows_failed + count }

unfoldable pub record_rows_filtered : Metrics → ℕ → Metrics
record_rows_filtered m count = record m { rows_filtered = m.rows_filtered + count }

-- `if (metrics_) metrics_->record_operation(...)`
unfoldable pub record_if_present : Option Metrics → Bool → Option Metrics
unfolding record_operation
record_if_present none success = none
record_if_present (some m) success = some (record_operation m success)
