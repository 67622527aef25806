-- ===== src/Reader/DualReader/Validation.antt =====
-- What a validation reads and counts (services/dual-reader/src/reader.cpp): validate_table,
-- validate_table_for_domain and the loop of validate_all_tables.
use scylla_cluster_sync_cxx.Prelude.{
  ℕ, ◌≤◌, ◌≡◌, refl, ◌⊎◌, inl, inr, arith, true, some, List, [], ◌∷◌, ◌++◌, Text, codes, ap, ◌∙◌,
  length, Option-cases, fetch_add,
}
use scylla_cluster_sync_cxx.Svckit.Errors.{SyncError, Result, ok, throw, Result-cases}
use scylla_cluster_sync_cxx.Svckit.Types.{ValidationResult}
use scylla_cluster_sync_cxx.Svckit.Metrics.{record_if_present}
use scylla_cluster_sync_cxx.Svckit.Database.{execute}
use scylla_cluster_sync_cxx.Reader.Filter
use scylla_cluster_sync_cxx.Reader.Filter.{Governor, ReadDecision, dual_read, source_only}
use scylla_cluster_sync_cxx.Reader.Filter.Laws.{decide_iff, decide_counts}
use scylla_cluster_sync_cxx.Reader.DualReader.{
  DualReader, gate, source_only_result, compared_result, store_all, store_result, compare_clusters,
  validate_table, validate_table_for_domain, validate_tables, keep_result,
}

-- A validation that the gate decides to be source-only reports a source-only result and touches
-- neither cluster, no discrepancy and no metric.
pub validate_table_source_only :
    (r : DualReader) (table : Text) (now : ℕ)
    → (gate r table []).0 ≡ source_only
    → validate_table r table now
      ≡ (ok (source_only_result table now), record r { filter = (gate r table []).1.filter })
unfolding validate_table gate
validate_table_source_only r table now h = elim (Option-cases r.filter) [
  | inl e ↦ ground arith
  | inr (g, e) ↦ ground arith
]

-- The comparison asks the source first, and the target only once the source has answered. A failure
-- of either is thrown on, and then no discrepancy and no metric changes. If both answer, then the
-- result is that of the comparison, and a success is recorded.
pub compare_clusters_outcome :
    (r : DualReader) (table : Text) (now : ℕ)
    → let query = codes "SELECT * FROM " ++ table in
      let (first, source) = execute r.source query in
      let (second, target) = execute r.target query in
      let (result, r') = compare_clusters r table now in
      ((e : SyncError) × (first ≡ throw e)
        × (result ≡ throw e)
        × (r' ≡ record r { source = source }))
      ⊎ (((e : SyncError) × (first ≡ ok tt)
            × (second ≡ throw e)
            × (result ≡ throw e)
            × (r' ≡ record r { source = source; target = target }))
          ⊎ ((first ≡ ok tt)
              × (second ≡ ok tt)
              × (result ≡ ok (compared_result table now))
              × (r' ≡ record r {
                source = source;
                target = target;
                metrics = record_if_present r.metrics true;
              })))
unfolding compare_clusters compared_result store_result store_all
compare_clusters_outcome r table now =
    let query = codes "SELECT * FROM " ++ table in
    elim (Result-cases (execute r.source query).0) [
      | inr (e, h) ↦ inl ((e, h, rw (h, compare_clusters) refl, rw (h, compare_clusters) refl))
      | inl (u, h) ↦ elim (Result-cases (execute r.target query).0) [
        | inr (e, k) ↦
            inr
              (inl ((e, h, k, rw (h, k, compare_clusters) refl, rw (h, k, compare_clusters) refl)))
        | inl (v, k) ↦
            inr (inr ((h, k, rw (h, k, compare_clusters) refl, rw (h, k, compare_clusters) refl)))
      ]
    ]

filter-compare_clusters :
    (r : DualReader) (table : Text) (now : ℕ) → (compare_clusters r table now).1.filter ≡ r.filter
filter-compare_clusters r table now = elim (compare_clusters_outcome r table now) [
  | inl (e, h, k, l) ↦ rw (l) refl
  | inr (inl (e, h, k, l, m)) ↦ rw (m) refl
  | inr (inr (h, k, l, m)) ↦ rw (m) refl
]

-- A read that is a dual read for a domain is one without a domain.
dual_without_domain :
    (g : Governor) (table domain : Text)
    → (Filter.decide g table domain).0 ≡ dual_read
    → ((Filter.decide g table []).0 ≡ dual_read)
      × ((Filter.decide g table domain).1 ≡ (Filter.decide g table []).1)
dual_without_domain g table domain h = ground (
  arith,
  decide_iff g table domain,
  decide_iff g table [],
  decide_counts g table domain,
  decide_counts g table [],
)

-- A governor after one more dual read.
abbrev counted : Governor → Governor
counted g =
    let s = g.stats in record g { stats = record s { dual_reads = fetch_add s.dual_reads 1 } }

gate_dual :
    (r : DualReader) (g : Governor) (table domain : Text)
    → r.filter ≡ some g
    → (Filter.decide g table domain).0 ≡ dual_read
    → gate r table domain ≡ (dual_read, record r { filter = some (counted g) })
unfolding gate
gate_dual r g table domain hf hd = ground (arith, decide_counts g table domain)

validate_table_dual :
    (r r1 : DualReader) (table : Text) (now : ℕ)
    → gate r table [] ≡ (dual_read, r1)
    → validate_table r table now ≡ compare_clusters r1 table now
unfolding validate_table
validate_table_dual r r1 table now h =
    rw (h, validate_table) (ap (λ p. compare_clusters p.1 table now) h)

validate_table_for_domain_dual :
    (r r1 : DualReader) (table domain : Text) (now : ℕ)
    → gate r table domain ≡ (dual_read, r1)
    → validate_table_for_domain r table domain now ≡ validate_table r1 table now
unfolding validate_table_for_domain
validate_table_for_domain_dual r r1 table domain now h =
    rw (h, validate_table_for_domain) (ap (λ p. validate_table p.1 table now) h)

-- One validation for a domain that both gates let through counts two dual reads: the gate is passed
-- once for the table and the domain, and once more for the table alone.
pub domain_validation_counts_twice :
    (r : DualReader) (g : Governor) (table domain : Text) (now : ℕ)
    → r.filter ≡ some g
    → (Filter.decide g table domain).0 ≡ dual_read
    → (g' : Governor) × ((validate_table_for_domain r table domain now).1.filter ≡ some g')
      × (g'.stats.dual_reads ≡ fetch_add (fetch_add g.stats.dual_reads 1) 1)
unfolding validate_table_for_domain validate_table gate
domain_validation_counts_twice r g table domain now hf hd =
    let g1 = counted g in
    let r1 = record r { filter = some g1 } in
    let again : (Filter.decide g1 table []).0 ≡ dual_read =
      (decide_iff g1 table []).1
        ((decide_iff g table []).0 (dual_without_domain g table domain hd).0) in
    let first = gate_dual r g table domain hf hd in
    let second = gate_dual r1 g1 table [] refl again in
    (
      counted g1,
      ap (λ (p : Result ValidationResult × DualReader). p.1.filter)
            (validate_table_for_domain_dual r r1 table domain now first
              ∙ validate_table_dual r1 (record r { filter = some (counted g1) }) table now second)
          ∙ filter-compare_clusters (record r { filter = some (counted g1) }) table now,
      refl,
    )

-- The loop over all tables gives a result for at most each table.
pub length-validate_tables :
    (tables : List Text) (r : DualReader) (now : ℕ)
    → length (validate_tables tables r now).0 ≤ length tables
unfolding validate_tables keep_result
length-validate_tables [] r now = omega arith
length-validate_tables (table ∷ tables) r now = elim (Result-cases (validate_table r table now).0) [
  | inl (v, h) ↦
      let later = length-validate_tables tables (validate_table r table now).1 now in
      rw (h, keep_result) (omega arith)
  | inr (e, h) ↦
      let later = length-validate_tables tables (validate_table r table now).1 now in
      rw (h, keep_result) (omega arith)
]
