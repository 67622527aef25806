-- ===== src/Loader/TokenRange/Slots.antt =====
-- Arithmetic of the slots that calculate_ranges cuts the token space into.
use native.Mathlib.Nat.{add-zero}
use scylla_cluster_sync_cxx.Prelude.{
  ℕ, zero, suc, ◌+◌, ◌-◌, ◌*◌, ◌/◌, ◌^◌, ◌≤◌, ◌<◌, ◌≡◌, refl, ◌∙◌, ap, true, false, none, some,
  arith, ltb, ◌==◌, if◌then◌else◌, get_elem?, length,
}
use scylla_cluster_sync_cxx.Prelude.Int.{
  ℤ, pos, negsuc, pos_part, neg_part, ◌+ℤ◌, ◌-ℤ◌, ◌*ℤ◌, ◌≤ℤ◌, +ℤ_parts, -ℤ_parts,
}
use scylla_cluster_sync_cxx.Loader.TokenRange.{
  min_token, max_token, to_i64, range_size, make_range, ranges_from,
}

pub range_size_lem : (total : ℕ) → range_size total ≡ 2 ^ 64 / total
unfolding range_size
range_size_lem total = refl

-- A value that fits is not changed by the conversion to int64_t.
pub to_i64_fits : (z : ℤ) → min_token ≤ℤ z → z ≤ℤ max_token → to_i64 z ≡ z
unfolding to_i64
to_i64_fits (pos n) lo hi = ground arith
to_i64_fits (negsuc n) lo hi = ground arith

slots_fit : (total : ℕ) → total * range_size total ≤ 2 ^ 64
slots_fit total = rw range_size_lem (grind arith)

pub slot_fits : (total i : ℕ) → i < total → i * range_size total + range_size total ≤ 2 ^ 64
slot_fits total i h = grind (arith, slots_fit total)

pub size_pos : (total : ℕ) → 0 < total → total ≤ 2 ^ 64 → 0 < range_size total
size_pos total h k = rw range_size_lem (grind arith)

pos-*ℤ-pos : (a b : ℕ) → pos a *ℤ pos b ≡ pos (a * b)
unfolding ◌*ℤ◌
pos-*ℤ-pos a b = ground arith

-- The start of round `i` before the conversion, by its offset from the least token.
raw_start : ℕ → ℕ → ℤ
raw_start size i = min_token +ℤ pos i *ℤ pos size

raw_start_parts :
    (size i : ℕ) → pos_part (raw_start size i) + 2 ^ 63 ≡ neg_part (raw_start size i) + i * size
unfolding raw_start
raw_start_parts size i = rw pos-*ℤ-pos (omega (arith, +ℤ_parts min_token (pos (i * size))))

raw_end_parts :
    (size i : ℕ)
    → let end = raw_start size i +ℤ pos size -ℤ pos 1 in
      pos_part end + 2 ^ 63 + 1 ≡ neg_part end + i * size + size
raw_end_parts size i = omega (
  arith,
  raw_start_parts size i,
  +ℤ_parts (raw_start size i) (pos size),
  -ℤ_parts (raw_start size i +ℤ pos size) (pos 1),
)

start_fits :
    (total i : ℕ)
    → i < total
    → total ≤ 2 ^ 64
    → to_i64 (raw_start (range_size total) i) ≡ raw_start (range_size total) i
start_fits total i h k =
    to_i64_fits (raw_start (range_size total) i)
      (omega (arith, raw_start_parts (range_size total) i))
      (omega (
        arith,
        raw_start_parts (range_size total) i,
        slot_fits total i h,
        size_pos total (omega arith) k,
      ))

end_fits :
    (total i : ℕ)
    → i < total
    → total ≤ 2 ^ 64
    → let end = raw_start (range_size total) i +ℤ pos (range_size total) -ℤ pos 1 in
      to_i64 end ≡ end
end_fits total i h k =
    to_i64_fits (raw_start (range_size total) i +ℤ pos (range_size total) -ℤ pos 1)
      (omega (arith, raw_end_parts (range_size total) i, size_pos total (omega arith) k))
      (omega (arith, raw_end_parts (range_size total) i, slot_fits total i h))

-- The bounds of range `i`, as offsets from the least token: no conversion changes a value.
pub start_parts :
    (total i : ℕ)
    → i < total
    → total ≤ 2 ^ 64
    → pos_part (make_range total i).start + 2 ^ 63
      ≡ neg_part (make_range total i).start + i * range_size total
unfolding make_range raw_start
start_parts total i h k = rw (start_fits total i h k) (raw_start_parts (range_size total) i)

pub end_parts :
    (total i : ℕ)
    → suc i < total
    → total ≤ 2 ^ 64
    → pos_part (make_range total i).end + 2 ^ 63 + 1
      ≡ neg_part (make_range total i).end + i * range_size total + range_size total
unfolding make_range raw_start
end_parts total i h k =
    let inner : (i == total - 1) ≡ false = ground arith in
    rw (inner, end_fits total i (omega arith) k) (raw_end_parts (range_size total) i)

pub last_end : (total i : ℕ) → suc i ≡ total → (make_range total i).end ≡ max_token
unfolding make_range to_i64
last_end total i h = let last : (i == total - 1) ≡ true = ground arith in rw last refl

pub get_elem?-ranges_from :
    (total n i k : ℕ)
    → get_elem? (ranges_from total n i) k
      ≡ (if ltb k n then some (make_range total (i + k)) else none)
unfolding ranges_from
get_elem?-ranges_from total zero i zero = refl
get_elem?-ranges_from total zero i (suc k) = ground arith
get_elem?-ranges_from total (suc n) i zero = rw add-zero (ground arith)
get_elem?-ranges_from total (suc n) i (suc k) =
    let shift : suc i + k ≡ i + suc k = omega arith in
    get_elem?-ranges_from total n (suc i) k ∙ rw shift (ground arith)

pub length-ranges_from : (total n i : ℕ) → length (ranges_from total n i) ≡ n
unfolding ranges_from
length-ranges_from total zero i = refl
length-ranges_from total (suc n) i = ap suc (length-ranges_from total n (suc i))
