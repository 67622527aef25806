-- ===== src/Loader/TokenRange/Tests.antt =====
-- The laws of token ranges for a cluster that does not answer: eight ranges.
use scylla_cluster_sync_cxx.Prelude.{
  List, arith, get_elem?, length, refl, some, ℕ, ◌*◌, ◌-◌, ◌^◌, ◌≡◌, ◌⊎◌,
}
use scylla_cluster_sync_cxx.Prelude.Int.{pos, ◌*ℤ◌, ◌+ℤ◌, ◌-ℤ◌}
use scylla_cluster_sync_cxx.Loader.TokenRange.{
  TokenRange, calculate_ranges, generate_ranges, make_range, range_size, ranges_from, to_i64,
  total_ranges,
}
use scylla_cluster_sync_cxx.Loader.TokenRange.Partition.{
  Holds, calculate_ranges_cover, calculate_ranges_disjoint,
}
use scylla_cluster_sync_cxx.Svckit.Database.{execute}
use scylla_cluster_sync_cxx.Svckit.Database.Tests.{online, refuses_all}

abbrev eight_ranges : List TokenRange
eight_ranges = ranges_from 8 8 0

abbrev fourth : ℕ
fourth = 4

abbrev no_ranges : ℕ
no_ranges = 0

abbrev middle_range : TokenRange
middle_range = record { start = pos 0; end = pos (2 ^ 61 - 1) }

calculate_ranges_cover_example :
    (ranges : List TokenRange) × ((calculate_ranges (online refuses_all) 1).0 ≡ some ranges)
    × ((length ranges ≡ 8 * 1) ⊎ (length ranges ≡ 24 * 1))
    × ((i : ℕ) × (r : TokenRange) × (get_elem? ranges i ≡ some r) × Holds r (pos 5))
calculate_ranges_cover_example =
    calculate_ranges_cover (online refuses_all) 1 (omega arith) (omega arith) (pos 5) (omega arith)
      (omega arith)

calculate_ranges_disjoint_example : fourth ≡ fourth
unfolding calculate_ranges generate_ranges total_ranges execute ranges_from make_range to_i64
    range_size ◌+ℤ◌ ◌-ℤ◌ ◌*ℤ◌
calculate_ranges_disjoint_example =
    calculate_ranges_disjoint (online refuses_all) 1 (omega arith) (omega arith) eight_ranges refl
      (pos 5) (omega arith) (omega arith) fourth fourth middle_range middle_range refl refl
      (omega arith, omega arith) (omega arith, omega arith)
