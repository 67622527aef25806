-- ===== src/Writer/Filter/Laws.antt =====
-- What BlacklistFilterGovernor decides, for any table and tenant (services/dual-writer/src/filter.cpp).
use scylla_cluster_sync_cxx.Prelude.{
  ◌≡◌, refl, sym, ◌↔◌, ◌⊎◌, inl, inr, true, false, ◌∙◌, List, [], arith, Text, fetch_add, contains,
  insert_all, contains-insert_all,
}
use scylla_cluster_sync_cxx.Svckit.Types.{allow, skip_table, skip_tenant}
use scylla_cluster_sync_cxx.Wildcard.{IsBlacklisted, IsBlacklisted-iff}
use scylla_cluster_sync_cxx.Writer.Filter.{
  FilterConfig, Governor, construct, should_skip_table, check_tenant_id, reload_config,
}

-- The governor is that of before but for the counter of skipped tables, which a skip increments.
pub should_skip_table_state :
    (g : Governor) (table : Text)
    → (((should_skip_table g table).0 ≡ skip_table)
        × ((should_skip_table g table).1 ≡ record g {
          stats = record (g.stats) { tables_skipped = fetch_add g.stats.tables_skipped 1 };
        }))
      ⊎ (((should_skip_table g table).0 ≡ allow) × ((should_skip_table g table).1 ≡ g))
unfolding should_skip_table
should_skip_table_state g table = ground arith

-- A table is skipped exactly when it is blacklisted, by name or by a wildcard for its last component.
pub should_skip_table_iff :
    (g : Governor) (table : Text)
    → ((should_skip_table g table).0 ≡ skip_table) ↔ IsBlacklisted g.table_blacklist table
unfolding should_skip_table
should_skip_table_iff g table =
    let decides = IsBlacklisted-iff g.table_blacklist table in
    (λ h. decides.0 (ground arith), λ h. let hit = decides.1 h in ground arith)

contains-construct : (xs : List Text) (j : Text) → contains (insert_all [] xs) j ≡ contains xs j
unfolding contains
contains-construct xs j = ground (arith, contains-insert_all [] xs j)

IsBlacklisted-construct :
    (xs : List Text) (table : Text)
    → IsBlacklisted (insert_all [] xs) table ↔ IsBlacklisted xs table
IsBlacklisted-construct xs table = (to, from)
  where
    to : IsBlacklisted (insert_all [] xs) table → IsBlacklisted xs table
    to (inl h) = inl (sym (contains-construct xs table) ∙ h)
    to (inr (k, n, e, o, h)) = inr (k, n, e, o, sym (contains-construct xs _) ∙ h)

    from : IsBlacklisted xs table → IsBlacklisted (insert_all [] xs) table
    from (inl h) = inl (contains-construct xs table ∙ h)
    from (inr (k, n, e, o, h)) = inr (k, n, e, o, contains-construct xs _ ∙ h)

-- A governor built from a configuration skips exactly the tables that its list blacklists, and
-- rejects exactly the tenants that its list names.
pub construct_decides :
    (config : FilterConfig) (table tenant : Text)
    → (((should_skip_table (construct config) table).0 ≡ skip_table)
        ↔ IsBlacklisted config.table_blacklist table)
      × (((check_tenant_id (construct config) tenant).0 ≡ skip_tenant)
          ↔ (contains config.tenant_blacklist tenant ≡ true))
unfolding construct check_tenant_id
construct_decides config table tenant =
    let skip = should_skip_table_iff (construct config) table in
    let built = IsBlacklisted-construct config.table_blacklist table in
    (
      (λ h. built.0 (skip.0 h), λ h. skip.1 (built.1 h)),
      ground (arith, contains-construct config.tenant_blacklist tenant),
    )

-- reload_config brings back the lists of the configuration that the governor was constructed with:
-- whatever calls came in between, it decides as a new governor does, and the counters stay.
pub reload_as_constructed :
    (g : Governor) → (reload_config g ≡ record (construct g.config) { stats = g.stats })
unfolding reload_config construct
reload_as_constructed g = refl

-- Rows are counted once each: a checked tenant goes to the counter of its decision alone.
pub check_tenant_id_counts :
    (g : Governor) (tenant : Text)
    → (contains g.tenant_blacklist tenant ≡ true
        → check_tenant_id g tenant ≡ (
          skip_tenant,
          record g {
            stats = record (g.stats) { tenants_skipped = fetch_add g.stats.tenants_skipped 1 };
          },
        ))
      × (contains g.tenant_blacklist tenant ≡ false
          → check_tenant_id g tenant ≡ (
            allow,
            record g {
              stats = record (g.stats) { rows_allowed = fetch_add g.stats.rows_allowed 1 };
            },
          ))
unfolding check_tenant_id
check_tenant_id_counts g tenant = (λ h. ground arith, λ h. ground arith)
