-- ===== src/Loader/TokenRange/Partition.antt =====
-- The ranges of calculate_ranges (services/sstable-loader/src/token_range.cpp:36) partition the
-- token ring.
use scylla_cluster_sync_cxx.Prelude.{
  ℕ, suc, ◌+◌, ◌-◌, ◌*◌, ◌/◌, ◌^◌, ◌≤◌, ◌<◌, ◌≡◌, sym, ◌∙◌, subst, ◌↔◌, ◌⊎◌, inl, inr, true, false,
  Bool, none, some, List, arith, ltb, Bool-cases, if◌then◌else◌, get_elem?, length, codes,
}
use scylla_cluster_sync_cxx.Prelude.Int.{ℤ, pos_part, neg_part, ◌≤ℤ◌}
use scylla_cluster_sync_cxx.Svckit.Errors.{is_ok}
use scylla_cluster_sync_cxx.Svckit.Database.{Connection, execute}
use scylla_cluster_sync_cxx.Loader.TokenRange.{
  TokenRange, min_token, max_token, range_size, make_range, ranges_from, total_ranges,
  generate_ranges, calculate_ranges,
}
use scylla_cluster_sync_cxx.Loader.TokenRange.Slots.{
  start_parts, end_parts, last_end, size_pos, get_elem?-ranges_from, length-ranges_from,
}

-- A token lies in a range, whose bounds are both included.
abbrev pub Holds : TokenRange → ℤ → Type 0
Holds r t = (r.start ≤ℤ t) × (t ≤ℤ r.end)

-- Every token of the ring lies in exactly one of the ranges.
abbrev pub Partitions : List TokenRange → Type 0
Partitions ranges =
    (t : ℤ)
    → min_token ≤ℤ t
    → t ≤ℤ max_token
    → (i : ℕ) × (r : TokenRange) × (get_elem? ranges i ≡ some r)
      × Holds r t
      × ((j : ℕ) (s : TokenRange) → get_elem? ranges j ≡ some s → Holds s t → j ≡ i)

-- The offset of a token from the least one.
offset : ℤ → ℕ
offset t = pos_part t + 2 ^ 63 - neg_part t

quotient_unique : (j u size : ℕ) → 0 < size → j * size ≤ u → u < j * size + size → j ≡ u / size
quotient_unique j u size h lo hi = grind arith

quotient_bounds : (u size : ℕ) → 0 < size → (u / size * size ≤ u) × (u < u / size * size + size)
quotient_bounds u size h = grind arith

module _ (total : ℕ) (bound : total ≤ 2 ^ 64) (t : ℤ) (lo : min_token ≤ℤ t)
    (hi : t ≤ℤ max_token) where
  Holds-inner :
      (i : ℕ)
      → suc i < total
      → i * range_size total ≤ offset t
      → offset t < i * range_size total + range_size total
      → Holds (make_range total i) t
  unfolding offset
  Holds-inner i h above below = (
    omega (arith, start_parts total i (omega arith) bound),
    omega (arith, end_parts total i h bound),
  )

  Holds-last :
      (i : ℕ) → suc i ≡ total → i * range_size total ≤ offset t → Holds (make_range total i) t
  unfolding offset
  Holds-last i h above =
      (omega (arith, start_parts total i (omega arith) bound), rw (last_end total i h) hi)

  above_start : (i : ℕ) → i < total → Holds (make_range total i) t → i * range_size total ≤ offset t
  unfolding offset
  above_start i h holds = omega (arith, start_parts total i h bound)

  below_end :
      (i : ℕ)
      → suc i < total
      → Holds (make_range total i) t
      → offset t < i * range_size total + range_size total
  unfolding offset
  below_end i h holds = omega (arith, end_parts total i h bound)

  -- The slot of a token: its offset by the width, the last slot for the rest.
  slot : ℕ
  slot =
      if ltb (offset t / range_size total) (total - 1)
      then offset t / range_size total
      else total - 1

  Holds-slot : 0 < total → Holds (make_range total slot) t × (slot < total)
  unfolding slot
  Holds-slot h =
      let bounds = quotient_bounds (offset t) (range_size total) (size_pos total h bound) in
      elim (Bool-cases (ltb (offset t / range_size total) (total - 1))) [
        | inl inner ↦ rw inner (
          Holds-inner (offset t / range_size total) (ground arith) bounds.0 bounds.1,
          ground arith,
        )
        | inr last ↦
            rw last (Holds-last (total - 1) (omega arith) (grind (arith, bounds)), omega arith)
      ]

  only_slot : (j : ℕ) → j < total → Holds (make_range total j) t → j ≡ slot
  unfolding slot
  only_slot j h holds =
      let size : 0 < range_size total = size_pos total (omega arith) bound in
      let above = above_start j h holds in
      elim (Bool-cases (ltb (suc j) total)) [
        | inl inner ↦
            let below = below_end j (ground arith) holds in
            let e = quotient_unique j (offset t) (range_size total) size above below in ground arith
        | inr last ↦ grind (arith, quotient_bounds (offset t) (range_size total) size)
      ]

range_at :
    (total k : ℕ) → k < total → get_elem? (ranges_from total total 0) k ≡ some (make_range total k)
range_at total k h =
    let here : 0 + k ≡ k = omega arith in
    get_elem?-ranges_from total total 0 k ∙ rw here (ground arith)

range_at_inv :
    (total k : ℕ) (r : TokenRange)
    → get_elem? (ranges_from total total 0) k ≡ some r
    → (k < total) × (r ≡ make_range total k)
range_at_inv total k r e =
    let here : 0 + k ≡ k = omega arith in
    let found = get_elem?-ranges_from total total 0 k in
    elim (Bool-cases (ltb k total)) [
      | inl inside ↦ (ground arith, ground (arith, range_at total k))
      | inr outside ↦ ground arith
    ]

ranges_partition : (total : ℕ) → 0 < total → total ≤ 2 ^ 64 → Partitions (ranges_from total total 0)
ranges_partition total h bound t lo hi =
    let i = slot total bound t lo hi in
    let (holds, inside) = Holds-slot total bound t lo hi h in
    (
      i,
      make_range total i,
      range_at total i inside,
      holds,
      λ j s e within.
          let (below, same) = range_at_inv total j s e in
          only_slot total bound t lo hi j below (subst (λ r. Holds r t) same within),
    )

total_ranges_lem :
    (peers : Bool) (r : ℕ) → r < 2 ^ 32 → total_ranges peers r ≡ (if peers then 24 * r else 8 * r)
unfolding total_ranges
total_ranges_lem true r h = omega arith
total_ranges_lem false r h = omega arith

generated :
    (peers : Bool) (r : ℕ)
    → 0 < r
    → r < 2 ^ 32
    → (ranges : List TokenRange) × (generate_ranges (total_ranges peers r) ≡ some ranges)
      × ((length ranges ≡ 8 * r) ⊎ (length ranges ≡ 24 * r))
      × Partitions ranges
unfolding generate_ranges
generated peers r h bound =
    let total = total_ranges peers r in
    let size = total_ranges_lem peers r bound in
    let count = length-ranges_from total total 0 in
    (
      ranges_from total total 0,
      ground arith,
      ground arith,
      ranges_partition total (ground arith) (ground arith),
    )

calculated :
    (conn : Connection) (ranges_per_core : ℕ)
    → 0 < ranges_per_core
    → ranges_per_core < 2 ^ 32
    → (ranges : List TokenRange) × ((calculate_ranges conn ranges_per_core).0 ≡ some ranges)
      × ((length ranges ≡ 8 * ranges_per_core) ⊎ (length ranges ≡ 24 * ranges_per_core))
      × Partitions ranges
unfolding calculate_ranges
calculated conn r h bound =
    generated (is_ok (execute conn (codes "SELECT peer FROM system.peers")).0) r h bound

-- For every uint32_t `ranges_per_core` but 0 and whatever system.peers answers, calculate_ranges
-- yields 8 or 24 ranges per unit, and every token of the ring lies in one of them.
pub calculate_ranges_cover :
    (conn : Connection) (ranges_per_core : ℕ)
    → 0 < ranges_per_core
    → ranges_per_core < 2 ^ 32
    → (t : ℤ) → min_token ≤ℤ t
    → t ≤ℤ max_token
    → (ranges : List TokenRange) × ((calculate_ranges conn ranges_per_core).0 ≡ some ranges)
      × ((length ranges ≡ 8 * ranges_per_core) ⊎ (length ranges ≡ 24 * ranges_per_core))
      × ((i : ℕ) × (r : TokenRange) × (get_elem? ranges i ≡ some r) × Holds r t)
calculate_ranges_cover conn r h bound t lo hi =
    let (ranges, found, count, parts) = calculated conn r h bound in
    let (i, range, at, holds, only) = parts t lo hi in (ranges, found, count, (i, range, at, holds))

-- For every uint32_t `ranges_per_core` but 0, the ranges that calculate_ranges yields are disjoint:
-- a token of the ring lies in at most one of them.
pub calculate_ranges_disjoint :
    (conn : Connection) (ranges_per_core : ℕ)
    → 0 < ranges_per_core
    → ranges_per_core < 2 ^ 32
    → (ranges : List TokenRange) → (calculate_ranges conn ranges_per_core).0 ≡ some ranges
    → (t : ℤ) → min_token ≤ℤ t
    → t ≤ℤ max_token
    → (i j : ℕ) (r s : TokenRange) → get_elem? ranges i ≡ some r
    → get_elem? ranges j ≡ some s
    → Holds r t
    → Holds s t
    → i ≡ j
calculate_ranges_disjoint conn n h bound ranges found t lo hi i j r s at_i at_j holds_r holds_s =
    let (found_ranges, e, count, parts) = calculated conn n h bound in
    let same : found_ranges ≡ ranges = cc in
    let (k, range, at, holds, only) = parts t lo hi in
    only i r (subst (λ l. get_elem? l i ≡ some r) (sym same) at_i) holds_r
    ∙ sym (only j s (subst (λ l. get_elem? l j ≡ some s) (sym same) at_j) holds_s)

-- For a uint32_t `ranges_per_core`, calculate_ranges divides by zero exactly if it is 0.
pub calculate_ranges_divides_by_zero :
    (conn : Connection) (ranges_per_core : ℕ)
    → ranges_per_core < 2 ^ 32
    → ((calculate_ranges conn ranges_per_core).0 ≡ none) ↔ (ranges_per_core ≡ 0)
unfolding calculate_ranges generate_ranges
calculate_ranges_divides_by_zero conn r bound = ground (
  arith,
  total_ranges_lem (is_ok (execute conn (codes "SELECT peer FROM system.peers")).0) r bound,
)
