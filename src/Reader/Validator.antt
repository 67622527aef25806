-- ===== src/Reader/Validator.antt =====
-- services/dual-reader/src/validator.cpp: Validator. The counts of rows are placeholders in the
-- source, zero for both clusters; compare_counts is the comparison for any counts. `rate` is the
-- fraction that stands for the float `sample_rate`; the rounding of floats is not modelled.
pub mod Tests
use scylla_cluster_sync_cxx.Prelude.{
  ℕ, zero, suc, ◌+◌, ◌-◌, ◌*◌, ◌/◌, ◌<◌, min, ◌≡◌, refl, ◌⊎◌, inl, inr, arith, false, none, List,
  [], subst, sym, ◌∙◌, ◌∷◌, ◌++◌, ltb, ◌==◌, if◌then◌else◌, Text, codes, decimal, length, All,
}
use native.Mathlib.Nat.{div-eq_of_lt}
use scylla_cluster_sync_cxx.Svckit.Errors.{Result, ok, throw, Result-cases}
use scylla_cluster_sync_cxx.Svckit.Types.{Discrepancy, missing_in_target, ValidationResult}
use scylla_cluster_sync_cxx.Svckit.Database.{Connection, execute}

pub record Validator : Type 0 where
  pub source : Connection
  pub target : Connection

-- ceil(count * rate)
unfoldable pub sampled : ℕ → ℕ × ℕ → ℕ
sampled count (num, den) = (count * num + (den - 1)) / den

unfoldable pub missing_row : Text → ℕ → ℕ → Discrepancy
unfolding decimal
missing_row table i now = record {
  id = codes "disc-" ++ decimal 20 i;
  table = table;
  key = [];
  kind = missing_in_target;
  source_value = none;
  target_value = none;
  detected_at = now;
}

-- The loop from `i`, with `n` rounds left.
unfoldable pub missing_rows : Text → ℕ → ℕ → ℕ → List Discrepancy
missing_rows table now zero i = []
missing_rows table now (suc n) i = missing_row table i now ∷ missing_rows table now n (suc i)

-- What follows the two reads, for `source_count` and `target_count` rows.
unfoldable pub compare_counts : Text → ℕ × ℕ → ℕ → ℕ → ℕ → ValidationResult
unfolding missing_rows
compare_counts table rate now source_count target_count =
    let rows_to_check = sampled source_count rate in
    let matched = if source_count == target_count then rows_to_check else 0 in
    record {
      table = table;
      rows_checked = rows_to_check;
      rows_matched = matched;
      discrepancies =
          if ltb target_count source_count
          then missing_rows table now (min (source_count - target_count) 10) 0
          else [];
      consistency = if ltb 0 rows_to_check then (matched, rows_to_check) else (1, 1);
      validation_time = now;
      source_only = false;
    }

unfoldable pub validate_table : Validator → Text → ℕ × ℕ → ℕ → Result ValidationResult × Validator
unfolding compare_counts
validate_table v table rate now =
    let query = codes "SELECT * FROM " ++ table in
    let (first, source) = execute v.source query in
    let (second, target) = execute v.target query in
    elim first [
      | throw e ↦ (throw e, record v { source = source })
      | ok u ↦ elim second [
        | throw e ↦ (throw e, record v { source = source; target = target })
        | ok w ↦
            (ok (compare_counts table rate now 0 0), record v { source = source; target = target })
      ]
    ]

-- A discrepancy that says that the target lacks a row of the table.
abbrev pub Missing : Text → Discrepancy → Type 0
Missing table d = (d.kind ≡ missing_in_target) × (d.table ≡ table)

missing_rows-Missing :
    (table : Text) (now n i : ℕ)
    → (length (missing_rows table now n i) ≡ n) × All (Missing table) (missing_rows table now n i)
unfolding missing_rows missing_row
missing_rows-Missing table now zero i = (refl, tt)
missing_rows-Missing table now (suc n) i =
    let (count, all) = missing_rows-Missing table now n (suc i) in
    (omega (arith, count), ((refl, refl), all))

-- The comparison reports one missing row for each row that the source has more, up to ten, all of
-- that table and none if the target has as many or more. It reports all the rows as matched if the
-- counts agree, and none if they do not, also when it reports no discrepancy because the target has
-- more rows.
pub compare_counts_outcome :
    (table : Text) (rate : ℕ × ℕ) (now source_count target_count : ℕ)
    → let v = compare_counts table rate now source_count target_count in
      (length v.discrepancies ≡ min (source_count - target_count) 10)
      × All (Missing table) v.discrepancies
      × (((source_count ≡ target_count) × (v.rows_matched ≡ v.rows_checked))
          ⊎ ((source_count < target_count) × (v.rows_matched ≡ 0) × (v.discrepancies ≡ []))
          ⊎ ((target_count < source_count) × (v.rows_matched ≡ 0) × (0 < length v.discrepancies)))
unfolding compare_counts
compare_counts_outcome table rate now source_count target_count =
    let missing = missing_rows-Missing table now (min (source_count - target_count) 10) 0 in
    ground (arith, missing)

sampled_none : (num den : ℕ) → 0 < den → sampled 0 (num, den) ≡ 0
unfolding sampled
sampled_none num den positive =
    let small : 0 * num + (den - 1) < den = omega arith in div-eq_of_lt small

compare_counts_none :
    (table : Text) (num den now : ℕ)
    → 0 < den
    → let v = compare_counts table (num, den) now 0 0 in
      (v.discrepancies ≡ []) × (v.rows_checked ≡ 0) × (v.consistency ≡ (1, 1))
unfolding compare_counts missing_rows
compare_counts_none table num den now positive = ground (arith, sampled_none num den positive)

ok_injective : {A : Type 0} (a b : A) → Path (Result A) (ok a) (ok b) → a ≡ b
ok_injective a b e = cc

-- Whatever the clusters hold, a validation that both of them answer finds no discrepancy, checks no
-- rows and reports full consistency.
pub validate_table_checks_nothing :
    (v : Validator) (table : Text) (num den now : ℕ) (result : ValidationResult)
    → 0 < den
    → (validate_table v table (num, den) now).0 ≡ ok result
    → (result.discrepancies ≡ []) × (result.rows_checked ≡ 0) × (result.consistency ≡ (1, 1))
unfolding validate_table
validate_table_checks_nothing v table num den now result positive h =
    elim (Result-cases (execute v.source (codes "SELECT * FROM " ++ table)).0) [
      | inr (e, refused) ↦ cc
      | inl (u, answered) ↦
          elim (Result-cases (execute v.target (codes "SELECT * FROM " ++ table)).0) [
            | inr (e, refused) ↦ cc
            | inl (w, both) ↦
                let e : compare_counts table (num, den) now 0 0 ≡ result =
                  ok_injective _ _ (sym (rw (answered, both, validate_table) refl) ∙ h) in
                subst
                  (λ r. (r.discrepancies ≡ []) × (r.rows_checked ≡ 0) × (r.consistency ≡ (1, 1))) e
                  (compare_counts_none table num den now positive)
          ]
    ]
