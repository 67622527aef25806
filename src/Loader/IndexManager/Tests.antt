-- ===== src/Loader/IndexManager/Tests.antt =====
-- The laws of the index strategies at two concrete indexes.
use scylla_cluster_sync_cxx.Prelude.{List, [], arith, codes, length, refl, ◌<◌, ◌∷◌, ◌≡◌, ◌⊎◌}
use mathlib.Core.List.{Perm, filter_map}
use mathlib.Core.List.Perm
use scylla_cluster_sync_cxx.Loader.IndexManager.{
  IndexInfo, create_ddl, drop_ddl, parallel_drop, parallel_rebuild, rebuild_failure, standard_drop,
}
use scylla_cluster_sync_cxx.Loader.IndexManager.Parallel.{
  failed, parallel_drop-Perm, parallel_rebuild_outcome,
}
use scylla_cluster_sync_cxx.Loader.IndexManager.Standard.{having_issued, issue_all}
use scylla_cluster_sync_cxx.Svckit.Database.Tests.{online, refuses_bad}
use scylla_cluster_sync_cxx.Svckit.Errors.{ok, throw}

abbrev pub first_index : IndexInfo
first_index = record {
  keyspace = codes "ks";
  table = codes "t";
  index_name = codes "i1";
  column_name = codes "a";
  index_type = codes "secondary";
}

abbrev pub second_index : IndexInfo
second_index = record first_index { index_name = codes "i2" }

abbrev pub two_indexes : List IndexInfo
two_indexes = first_index ∷ second_index ∷ []

abbrev in_order : List IndexInfo → List IndexInfo
in_order is = is

parallel_drop-Perm_example :
    (order : List IndexInfo) × Perm order two_indexes
    × ((parallel_drop in_order 2 two_indexes (online refuses_bad)).1
        ≡ having_issued (issue_all drop_ddl order (online refuses_bad).issued) (online refuses_bad))
    × Perm
        (parallel_drop in_order 2 two_indexes (online refuses_bad)).0
        (standard_drop two_indexes (online refuses_bad)).0
parallel_drop-Perm_example =
    parallel_drop-Perm in_order (λ xs. Perm.refl xs) 2 (omega arith) two_indexes
      (online refuses_bad) refl (λ past q. refl)

parallel_rebuild_outcome_example :
    (order : List IndexInfo) × Perm order two_indexes
    × ((parallel_rebuild in_order 2 two_indexes (online refuses_bad)).1
        ≡ having_issued
            (issue_all create_ddl order (online refuses_bad).issued)
            (online refuses_bad))
    × ((((parallel_rebuild in_order 2 two_indexes (online refuses_bad)).0 ≡ ok tt)
          × (filter_map (failed (online refuses_bad)) two_indexes ≡ []))
        ⊎ (((parallel_rebuild in_order 2 two_indexes (online refuses_bad)).0
              ≡ throw
                  (rebuild_failure (length (filter_map (failed (online refuses_bad)) two_indexes))))
            × (0 < length (filter_map (failed (online refuses_bad)) two_indexes))))
parallel_rebuild_outcome_example =
    parallel_rebuild_outcome in_order (λ xs. Perm.refl xs) 2 (omega arith) two_indexes
      (online refuses_bad) refl (λ past q. refl)
