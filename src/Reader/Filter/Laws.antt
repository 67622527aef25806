-- ===== src/Reader/Filter/Laws.antt =====
-- What the AND gate decides (services/dual-reader/src/filter.cpp).
use scylla_cluster_sync_cxx.Prelude.{
  ◌≡◌, refl, ◌↔◌, ◌⊎◌, inl, inr, true, false, List, [], ◌∷◌, arith, Text, fetch_add, contains,
  insert_all, contains-insert_all, is_empty-insert_all, is_empty, Bool,
}
use scylla_cluster_sync_cxx.Reader.Filter.{
  FilterConfig, dual_read, source_only, Governor, construct, decide,
}

-- A whitelist admits a value if it is empty or names it.
abbrev pub Admits : List Text → Text → Type 0
Admits whitelist x = (whitelist ≡ []) ⊎ (contains whitelist x ≡ true)

-- The specification of the gate: a read goes to both clusters if the filter is off, or if the table
-- passes its whitelist and the domain, where there is one, passes its own.
abbrev pub IsCompared : Bool → List Text → List Text → Text → Text → Type 0
IsCompared enabled tables domains table domain =
    (enabled ≡ false) ⊎ (Admits tables table × ((domain ≡ []) ⊎ Admits domains domain))

empty_iff {ℓ} : {A : Type ℓ} (xs : List A) → (is_empty xs ≡ true) ↔ (xs ≡ [])
empty_iff [] = (λ h. refl, λ h. refl)
empty_iff (x ∷ xs) = (λ h. cc, λ h. cc)

-- The gate decides what its specification says.
pub decide_iff :
    (g : Governor) (table domain : Text)
    → ((decide g table domain).0 ≡ dual_read)
      ↔ IsCompared g.config.enabled g.compare_tables g.compare_domains table domain
unfolding decide
decide_iff g table domain =
    ground (arith, empty_iff g.compare_tables, empty_iff g.compare_domains, empty_iff domain)

-- Every decision is counted once: as a dual read, or as a source-only read that is put down to the
-- table or to the domain. Nothing else of the governor changes.
pub decide_counts :
    (g : Governor) (table domain : Text)
    → let s = g.stats in
      let (decision, g') = decide g table domain in
      ((decision ≡ dual_read)
        × (g' ≡ record g { stats = record s { dual_reads = fetch_add s.dual_reads 1 } }))
      ⊎ (((decision ≡ source_only)
            × (g' ≡ record g {
              stats = record s {
                source_only_reads = fetch_add s.source_only_reads 1;
                tables_filtered = fetch_add s.tables_filtered 1;
              };
            }))
          ⊎ ((decision ≡ source_only)
              × (g' ≡ record g {
                stats = record s {
                  source_only_reads = fetch_add s.source_only_reads 1;
                  domains_filtered = fetch_add s.domains_filtered 1;
                };
              })))
unfolding decide
decide_counts g table domain = ground arith

Admits-insert_all : (xs : List Text) (x : Text) → Admits (insert_all [] xs) x ↔ Admits xs x
unfolding contains
Admits-insert_all xs x = ground (
  arith,
  empty_iff (insert_all [] xs),
  empty_iff xs,
  is_empty-insert_all [] xs,
  contains-insert_all [] xs x,
)

-- A governor built from a configuration compares exactly the reads that the configuration describes:
-- all of them if it is not enabled, else those whose table is listed (or no table is) and whose
-- domain, if one is given, is listed (or no domain is).
pub compare_gate_iff :
    (config : FilterConfig) (table domain : Text)
    → ((decide (construct config) table domain).0 ≡ dual_read)
      ↔ IsCompared config.enabled config.compare_tables config.compare_system_domain_ids table
          domain
unfolding construct
compare_gate_iff config table domain =
    let gate = decide_iff (construct config) table domain in
    let tables = Admits-insert_all config.compare_tables table in
    let domains = Admits-insert_all config.compare_system_domain_ids domain in
    (
      λ h. elim (gate.0 h) [
        | inl off ↦ inl off
        | inr (t, inl nothing) ↦ inr (tables.0 t, inl nothing)
        | inr (t, inr d) ↦ inr (tables.0 t, inr (domains.0 d))
      ],
      λ h. elim h [
        | inl off ↦ gate.1 (inl off)
        | inr (t, inl nothing) ↦ gate.1 (inr (tables.1 t, inl nothing))
        | inr (t, inr d) ↦ gate.1 (inr (tables.1 t, inr (domains.1 d)))
      ],
    )
