-- ===== src/Loader/TokenRange.antt =====
-- services/sstable-loader/src/token_range.cpp: the partition of the Murmur3 token ring, and the
-- query for one range. A token is an int64_t, computed as an __int128.
pub mod Slots
pub mod Partition
pub mod Tests
use scylla_cluster_sync_cxx.Prelude.{
  ℕ, zero, suc, ◌+◌, ◌-◌, ◌*◌, ◌/◌, ◌%◌, ◌^◌, Bool, true, false, Option, none, some, List, [], ◌∷◌,
  ◌++◌, ltb, ◌==◌, if◌then◌else◌, Text, codes, u64_mod, decimal,
}
use scylla_cluster_sync_cxx.Prelude.Int.{ℤ, pos, negsuc, pos_part, ◌+ℤ◌, ◌-ℤ◌, ◌*ℤ◌}
use scylla_cluster_sync_cxx.Svckit.Errors.{is_ok}
use scylla_cluster_sync_cxx.Svckit.Database.{Connection, execute}

pub record TokenRange : Type 0 where
  pub start : ℤ
  pub end : ℤ

-- numeric_limits<int64_t>::min() and max()
abbrev pub min_token : ℤ
min_token = negsuc (2 ^ 63 - 1)

abbrev pub max_token : ℤ
max_token = pos (2 ^ 63 - 1)

-- static_cast<int64_t>: the value modulo 2^64, read in two's complement.
abbrev signed64 : ℕ → ℤ
signed64 w = if ltb w (2 ^ 63) then pos w else negsuc (2 ^ 64 - w - 1)

unfoldable pub to_i64 : ℤ → ℤ
to_i64 (pos n) = signed64 (n % 2 ^ 64)
to_i64 (negsuc n) = signed64 (2 ^ 64 - 1 - n % 2 ^ 64)

-- `token_space` is not negative, so __int128 division by a size_t is division of numbers.
unfoldable pub range_size : ℕ → ℕ
unfolding ◌-ℤ◌ ◌+ℤ◌
range_size total = pos_part (max_token -ℤ min_token +ℤ pos 1) / total

-- The range of round `i`.
unfoldable pub make_range : ℕ → ℕ → TokenRange
make_range total i =
    let size = pos (range_size total) in
    let start = min_token +ℤ pos i *ℤ size in
    let end = if i == total - 1 then max_token else start +ℤ size -ℤ pos 1 in
    record { start = to_i64 start; end = to_i64 end }

-- The loop from round `i`, with `n` rounds left.
unfoldable pub ranges_from : ℕ → ℕ → ℕ → List TokenRange
ranges_from total zero i = []
ranges_from total (suc n) i = make_range total i ∷ ranges_from total n (suc i)

-- 3 nodes if system.peers answers, else 1; 8 cores each. The product is taken in size_t.
unfoldable pub total_ranges : Bool → ℕ → ℕ
total_ranges peers ranges_per_core = (if peers then 3 else 1) * 8 * ranges_per_core % u64_mod

-- The equal-width ranges. `none` is the division by zero that no ranges lead to.
unfoldable pub generate_ranges : ℕ → Option (List TokenRange)
generate_ranges total = if total == 0 then none else some (ranges_from total total 0)

unfoldable pub calculate_ranges : Connection → ℕ → Option (List TokenRange) × Connection
calculate_ranges conn ranges_per_core =
    let (peers, conn') = execute conn (codes "SELECT peer FROM system.peers") in
    (generate_ranges (total_ranges (is_ok peers) ranges_per_core), conn')

-- std::to_string(int64_t): 20 digits are enough.
unfoldable pub to_string : ℤ → Text
unfolding decimal
to_string (pos n) = decimal 20 n
to_string (negsuc n) = b'-' ∷ decimal 20 (n + 1)

-- The loop that joins the columns by ", ".
unfoldable pub join_columns : List Text → Text
join_columns [] = []
join_columns (k ∷ []) = k
join_columns (k ∷ l ∷ ks) = k ++ (codes ", " ++ join_columns (l ∷ ks))

unfoldable pub build_range_query : Text → List Text → TokenRange → Text
unfolding join_columns to_string
build_range_query table partition_keys range =
    let token_columns = join_columns partition_keys in
    codes "SELECT JSON * FROM "
    ++ (table
        ++ (codes " WHERE token("
            ++ (token_columns
                ++ (codes ") >= "
                    ++ (to_string range.start
                        ++ (codes " AND token("
                            ++ (token_columns ++ (codes ") <= " ++ to_string range.end))))))))
