-- ===== src/Loader/Ranges/Laws.antt =====
-- What the loader counts for one row and for one range (services/sstable-loader/src/loader.cpp).
use scylla_cluster_sync_cxx.Prelude.{
  ℕ, zero, suc, ◌+◌, ◌≤◌, ◌≡◌, refl, subst, ◌⊎◌, ◌↔◌, inl, inr, arith, true, false, Option, none,
  some, List, [], ◌∷◌, if◌then◌else◌, Text, length, All, is_empty, contains, fetch_add,
  Option-cases, Bool-cases,
}
use scylla_cluster_sync_cxx.Svckit.Errors.{SyncError, ok, throw}
use scylla_cluster_sync_cxx.Svckit.Database.{execute}
use scylla_cluster_sync_cxx.Loader.Filter
use scylla_cluster_sync_cxx.Loader.Filter.{Governor}
use scylla_cluster_sync_cxx.Loader.TokenRange.{TokenRange}
use scylla_cluster_sync_cxx.Loader.Ranges.{
  SsTableLoader, insert_attempts, insert_row_with_retry, check_columns, is_skip_tenant,
  filter_parsed, filter_json_row, read_unpaged, process_range_sync, run_range,
}

-- A row that is inserted with retries is counted exactly once, as migrated if the call gives true
-- and as failed if it gives false, and nothing but the target and that counter changes.
pub insert_row_with_retry_counts :
    (max_retries : ℕ) (query : Text) (l : SsTableLoader)
    → let (stored, l') = insert_row_with_retry max_retries query l in
      ((stored ≡ true)
        × (l' ≡ record l { target = l'.target; migrated_rows = fetch_add l.migrated_rows 1 }))
      ⊎ ((stored ≡ false)
          × (l' ≡ record l { target = l'.target; failed_rows = fetch_add l.failed_rows 1 }))
unfolding insert_row_with_retry insert_attempts
insert_row_with_retry_counts zero query l = ground arith
insert_row_with_retry_counts (suc n) query l =
    ground (
      arith,
      insert_row_with_retry_counts n query (record l { target = (execute l.target query).1 }),
    )

-- On a connected session the target gets at least one and at most `max_retries` + 1 statements, and
-- a row that is not stored has used them all.
pub insert_row_with_retry_attempts :
    (max_retries : ℕ) (query : Text) (l : SsTableLoader)
    → l.target.connected ≡ true
    → l.target.session ≡ true
    → let (stored, l') = insert_row_with_retry max_retries query l in
      (length l.target.issued + 1 ≤ length l'.target.issued)
      × (length l'.target.issued ≤ length l.target.issued + max_retries + 1)
      × ((stored ≡ true) ⊎ (length l'.target.issued ≡ length l.target.issued + max_retries + 1))
unfolding insert_row_with_retry insert_attempts execute
insert_row_with_retry_attempts zero query l connected session = ground arith
insert_row_with_retry_attempts (suc n) query l connected session = ground (
  arith,
  insert_row_with_retry_attempts n query (record l { target = (execute l.target query).1 }),
)

-- A range for which process_range_sync throws is counted as skipped by its thread. On the paged path that is
-- all; on the unpaged path process_range_sync has counted it before, so that it counts twice, and a
-- failed row besides.
pub run_range_failure :
    (table : Text) (keys : List Text) (range : TokenRange) (l : SsTableLoader) (e : SyncError)
    → (process_range_sync l range table keys).0 ≡ throw e
    → let l' = run_range table keys range l in
      l' ≡ (
        if l.config.enable_pagination
        then record l { source = l'.source; skipped_ranges = fetch_add l.skipped_ranges 1 }
        else record l {
          source = l'.source;
          failed_rows = fetch_add l.failed_rows 1;
          skipped_ranges = fetch_add (fetch_add l.skipped_ranges 1) 1;
        })
unfolding run_range process_range_sync read_unpaged
run_range_failure table keys range l e h = ground arith

-- A range that is read changes nothing but the connection to the source.
pub run_range_success :
    (table : Text) (keys : List Text) (range : TokenRange) (l : SsTableLoader)
    → (process_range_sync l range table keys).0 ≡ ok tt
    → run_range table keys range l ≡ record l { source = (run_range table keys range l).source }
unfolding run_range process_range_sync read_unpaged
run_range_success table keys range l h = ground arith

-- A column that does not have a row left out: the row does not hold it, or its value is allowed.
abbrev pub Passes : List Text → (Text → Option Text) → Text → Type 0
Passes blacklist row column =
    (row column ≡ none)
    ⊎ ((tenant : Text) × (row column ≡ some tenant) × (contains blacklist tenant ≡ false))

check_tenant_id_verdict :
    (g : Governor) (tenant : Text)
    → (is_skip_tenant (Filter.check_tenant_id g tenant).0 ≡ contains g.tenant_blacklist tenant)
      × ((Filter.check_tenant_id g tenant).1.tenant_blacklist ≡ g.tenant_blacklist)
unfolding is_skip_tenant Filter.check_tenant_id
check_tenant_id_verdict g tenant = ground arith

check_columns_split :
    (column : Text) (columns : List Text) (row : Text → Option Text) (g : Governor) (tenant : Text)
    → row column ≡ some tenant
    → (Rest : Type 0)
    → ((check_columns columns row (Filter.check_tenant_id g tenant).1).0 ≡ false) ↔ Rest
    → ((check_columns (column ∷ columns) row g).0 ≡ false)
      ↔ (Passes g.tenant_blacklist row column × Rest)
unfolding check_columns
check_columns_split column columns row g tenant e Rest rest =
    let verdict = (check_tenant_id_verdict g tenant).0 in
    elim (Bool-cases (contains g.tenant_blacklist tenant)) [
      | inl listed ↦ (λ h. ground arith, λ h. ground arith)
      | inr fine ↦ (
        λ h. (inr (tenant, e, fine), rest.0 (ground arith)),
        λ h. let later = rest.1 h.1 in ground arith,
      )
    ]

-- The loop over the tenant columns lets a row through exactly if every one of them passes.
check_columns_iff :
    (columns : List Text) (row : Text → Option Text) (g : Governor)
    → ((check_columns columns row g).0 ≡ false) ↔ All (Passes g.tenant_blacklist row) columns
unfolding check_columns
check_columns_iff [] row g = (λ h. tt, λ h. refl)
check_columns_iff (column ∷ columns) row g = elim (Option-cases (row column)) [
  | inl e ↦
      let rest = check_columns_iff columns row g in
      rw (e, check_columns) (λ h. (inl refl, rest.0 h), λ h. rest.1 h.1)
  | inr (tenant, e) ↦
      let g1 = (Filter.check_tenant_id g tenant).1 in
      let same = (check_tenant_id_verdict g tenant).1 in
      let rest : ((check_columns columns row g1).0 ≡ false)
          ↔ All (Passes g.tenant_blacklist row) columns =
        subst (λ b. ((check_columns columns row g1).0 ≡ false) ↔ All (Passes b row) columns) same
          (check_columns_iff columns row g1) in
      check_columns_split column columns row g tenant e
        (All (Passes g.tenant_blacklist row) columns) rest
]

-- With a filter, a row is let through exactly if the filter is not enabled, no tenant columns are
-- configured, the row does not parse, or every tenant column passes: the row does not hold it, or
-- its value is not blacklisted. A row that is left out is counted as filtered, and no other row is.
pub filter_json_row_iff :
    (parse : Text → Option (Text → Option Text)) (json_row : Text) (columns : List Text)
    (l : SsTableLoader) (g : Governor)
    → l.filter ≡ some g
    → let (skip, l') = filter_json_row parse json_row columns l in
      ((skip ≡ false) ↔ (
        (Filter.is_enabled g ≡ false)
        ⊎ (is_empty columns ≡ true)
        ⊎ (parse json_row ≡ none)
        ⊎ ((row : Text → Option Text) × (parse json_row ≡ some row)
            × All (Passes g.tenant_blacklist row) columns)))
      × (l'.filtered_rows ≡ (if skip then fetch_add l.filtered_rows 1 else l.filtered_rows))
unfolding filter_json_row filter_parsed
filter_json_row_iff parse json_row columns l g filter = elim (Option-cases (parse json_row)) [
  | inl e ↦ ground arith
  | inr (row, e) ↦
      let columns_pass = check_columns_iff columns row g in ground (arith, columns_pass)
]
