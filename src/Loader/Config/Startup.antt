-- ===== src/Loader/Config/Startup.antt =====
-- What the loader's main lets through (services/sstable-loader/src/main.cpp).
use scylla_cluster_sync_cxx.Prelude.{
  ◌≡◌, refl, sym, subst, ◌↔◌, inl, inr, Bool, true, false, Text, contains, [],
}
use scylla_cluster_sync_cxx.Svckit.Types.{skip_table, skip_tenant}
use scylla_cluster_sync_cxx.Svckit.Config.{Loaded, loaded, config_error, yaml_exception}
use scylla_cluster_sync_cxx.Wildcard.{IsBlacklisted}
use scylla_cluster_sync_cxx.Loader.Filter.{
  FilterConfig, construct, should_skip_table, check_tenant_id,
}
use scylla_cluster_sync_cxx.Loader.Filter.Laws.{construct_decides}
use scylla_cluster_sync_cxx.Loader.Config.{startup_filter, no_filter}

-- Whether rules are in force: they were loaded, and the filters are not skipped.
abbrev pub InForce : Bool → Loaded FilterConfig → (FilterConfig → Type 0) → Type 0
InForce skip rules P = (c : FilterConfig) × (skip ≡ false) × (rules ≡ loaded c) × P c

not-IsBlacklisted : (table : Text) → ¬ IsBlacklisted [] table
unfolding contains
not-IsBlacklisted table (inl h) = cc
not-IsBlacklisted table (inr (k, n, e, o, h)) = cc

loaded_inj : {a b : FilterConfig} → (let x : Loaded FilterConfig = loaded a in x ≡ loaded b) → a ≡ b
loaded_inj h = cc

rules_of :
    (rules : FilterConfig) (P : FilterConfig → Type 0) → InForce false (loaded rules) P → P rules
rules_of rules P (c, _, same, hit) = subst P (sym (loaded_inj same)) hit

without_rules :
    (table tenant : Text)
    → (¬ ((should_skip_table (construct no_filter) table).0 ≡ skip_table))
      × (¬ ((check_tenant_id (construct no_filter) tenant).0 ≡ skip_tenant))
unfolding contains
without_rules table tenant =
    let decides = construct_decides no_filter table tenant in
    (λ h. not-IsBlacklisted table (decides.0.0 h), λ h. let named = decides.1.0 h in cc)

-- The governor that main builds skips a table, or rejects a tenant, exactly if the filters are not
-- skipped by --skip-filters, the rules were loaded, and they blacklist the table or the tenant.
-- Rules that could not be loaded, for whatever reason, let every table and every tenant through.
pub startup_filter_decides :
    (skip : Bool) (rules : Loaded FilterConfig) (table tenant : Text)
    → (((should_skip_table (startup_filter skip rules) table).0 ≡ skip_table)
        ↔ InForce skip rules (λ c. IsBlacklisted c.table_blacklist table))
      × (((check_tenant_id (startup_filter skip rules) tenant).0 ≡ skip_tenant)
          ↔ InForce skip rules (λ c. contains c.tenant_blacklist tenant ≡ true))
unfolding startup_filter contains
startup_filter_decides true rules table tenant =
    let decides = without_rules table tenant in
    ((λ h. absurd (decides.0 h), λ f. cc), (λ h. absurd (decides.1 h), λ f. cc))
startup_filter_decides false (loaded rules) table tenant =
    let decides = construct_decides rules table tenant in
    (
      (
        λ h. (rules, refl, refl, decides.0.0 h),
        λ f. decides.0.1 (rules_of rules (λ c. IsBlacklisted c.table_blacklist table) f),
      ),
      (
        λ h. (rules, refl, refl, decides.1.0 h),
        λ f. decides.1.1 (rules_of rules (λ c. contains c.tenant_blacklist tenant ≡ true) f),
      ),
    )
startup_filter_decides false (config_error message) table tenant =
    let decides = without_rules table tenant in
    ((λ h. absurd (decides.0 h), λ f. cc), (λ h. absurd (decides.1 h), λ f. cc))
startup_filter_decides false yaml_exception table tenant =
    let decides = without_rules table tenant in
    ((λ h. absurd (decides.0 h), λ f. cc), (λ h. absurd (decides.1 h), λ f. cc))
