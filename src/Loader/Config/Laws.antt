-- ===== src/Loader/Config/Laws.antt =====
-- What the filter rules of the loader hold (services/sstable-loader/src/filter.cpp).
use scylla_cluster_sync_cxx.Prelude.{
  Holds, Holds-some, ◌≡◌, ap, ◌∙◌, refl, Bool, true, false, not, some, List, [], ◌∷◌, if◌then◌else◌,
  Text, codes, is_empty,
}
use scylla_cluster_sync_cxx.Svckit.Config.{Yaml, is_section, read_texts, File, rooted, loaded}
use scylla_cluster_sync_cxx.Svckit.Config.Laws.{Holds-bind, with_root-loaded}
use scylla_cluster_sync_cxx.Loader.Filter.{FilterConfig}
use scylla_cluster_sync_cxx.Loader.Config.{
  or_domain_id, read_filters, filters_of, load_filter_config, no_filter,
}

or_domain_id_nonempty : (cs : List Text) → is_empty (or_domain_id cs) ≡ false
unfolding or_domain_id
or_domain_id_nonempty [] = refl
or_domain_id_nonempty (c ∷ cs) = refl

module _ (Y : Yaml) where
  -- The rules name a tenant column exactly if they were read from a map.
  abbrev HasColumn : Bool → FilterConfig → Type 0
  HasColumn section c = is_empty c.tenant_id_columns ≡ not section

  read_filters-HasColumn : (filters : Y.Node) → Holds (HasColumn true) (read_filters Y filters)
  unfolding read_filters
  read_filters-HasColumn filters =
      Holds-bind (HasColumn true) (read_texts Y filters (codes "tenant_blacklist")) _ (λ tenants _.
        Holds-bind (HasColumn true) (read_texts Y filters (codes "table_blacklist")) _ (λ tables _.
          Holds-bind (HasColumn true) (read_texts Y filters (codes "tenant_id_columns")) _
            (λ columns _. or_domain_id_nonempty columns)))

  filters_of-HasColumn :
      (root : Y.Node)
      → Holds (HasColumn (is_section Y (Y.get root (codes "filters")))) (filters_of Y root)
  unfolding filters_of
  filters_of-HasColumn root = by_section (is_section Y (Y.get root (codes "filters")))
    where
      by_section :
          (b : Bool)
          → Holds
              (HasColumn b)
              (if b then read_filters Y (Y.get root (codes "filters")) else some no_filter)
      by_section true = read_filters-HasColumn (Y.get root (codes "filters"))
      by_section false = refl

  rooted_inj : {a b : Y.Node} → (let x : File Y.Node = rooted a in x ≡ rooted b) → a ≡ b
  rooted_inj h = cc

  -- The filter rules that are read from a file name at least one tenant column exactly if the file
  -- has a map of filters: without one the default column is not set.
  pub load_filter_config_columns :
      (path : Text) (root : Y.Node) (c : FilterConfig)
      → load_filter_config Y path (rooted root) ≡ loaded c
      → is_empty c.tenant_id_columns ≡ not (is_section Y (Y.get root (codes "filters")))
  unfolding load_filter_config
  load_filter_config_columns path root c h =
      let (found, file, good, read) = with_root-loaded Y path (rooted root) (filters_of Y) c h in
      let same = rooted_inj file in
      Holds-some (HasColumn (is_section Y (Y.get root (codes "filters")))) (filters_of Y root) c
        (filters_of-HasColumn root) (ap (filters_of Y) same ∙ read)
