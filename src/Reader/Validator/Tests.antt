-- ===== src/Reader/Validator/Tests.antt =====
-- The laws of the validator at concrete counts and clusters.
use scylla_cluster_sync_cxx.Prelude.{[], arith, codes, refl, text_eq, ℕ, ◌≡◌}
use scylla_cluster_sync_cxx.Reader.Validator.{
  Validator, compare_counts, validate_table, validate_table_checks_nothing,
}
use scylla_cluster_sync_cxx.Svckit.Database.{execute}
use scylla_cluster_sync_cxx.Svckit.Database.Tests.{online, refuses_bad}

abbrev source_rows : ℕ
source_rows = 25

abbrev target_rows : ℕ
target_rows = 12

abbrev sample_validator : Validator
sample_validator = record { source = online refuses_bad; target = online refuses_bad }

validate_table_checks_nothing_example :
    ((compare_counts (codes "ks.t") (1, 2) 4 0 0).discrepancies ≡ [])
    × ((compare_counts (codes "ks.t") (1, 2) 4 0 0).rows_checked ≡ 0)
    × ((compare_counts (codes "ks.t") (1, 2) 4 0 0).consistency ≡ (1, 1))
unfolding validate_table execute text_eq compare_counts
validate_table_checks_nothing_example =
    validate_table_checks_nothing sample_validator (codes "ks.t") 1 2 4
      (compare_counts (codes "ks.t") (1, 2) 4 0 0) (omega arith) refl
