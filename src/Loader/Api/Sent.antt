-- ===== src/Loader/Api/Sent.antt =====
-- What the loader's GET /status sends (services/sstable-loader/src/api.cpp).
use scylla_cluster_sync_cxx.Prelude.{
  ◌^◌, ◌<◌, ◌≡◌, refl, true, Option, none, some, All, codes, find, text_eq,
}
use scylla_cluster_sync_cxx.Loader.Filter.{Governor}
use scylla_cluster_sync_cxx.Loader.Ranges.{SsTableLoader}
use scylla_cluster_sync_cxx.Loader.Api.{
  migration_fields, filter_fields, get_stats, progress_of, status,
}
use scylla_cluster_sync_cxx.Wire.{Floats, Json, IsLawful, IsEntry, is_ascii}

-- The filter's counters are 64-bit words.
abbrev pub FilterFits : Option Governor → Type 0
FilterFits none = Unit
FilterFits (some g) =
    (g.stats.tables_skipped < 2 ^ 64)
    × (g.stats.rows_skipped < 2 ^ 64)
    × (g.stats.rows_allowed < 2 ^ 64)

module _ (F : Floats) (J : Json F.Double) where
  -- The loader's counters are 64-bit words, and its progress is a finite number.
  pub record IsReportable (l : SsTableLoader) : Type 0 where
    pub total : l.total_rows < 2 ^ 64
    pub migrated : l.migrated_rows < 2 ^ 64
    pub failed : l.failed_rows < 2 ^ 64
    pub filtered : l.filtered_rows < 2 ^ 64
    pub completed : l.tables_completed < 2 ^ 64
    pub tables : l.tables_total < 2 ^ 64
    pub skipped : l.tables_skipped < 2 ^ 64
    pub progress : J.is_finite (F.widen (progress_of F l.migrated_rows l.total_rows)) ≡ true
    pub filter : FilterFits l.filter

  module _ (lawful : IsLawful J) where
    filter_entries :
        (f : Option Governor) → FilterFits f → All (IsEntry J lawful) (filter_fields F J f)
    unfolding filter_fields is_ascii
    filter_entries none fits = tt
    filter_entries (some g) (tables, skipped, allowed) = (
      (
        refl,
        lawful.object-IsDumpable _ (
          (refl, lawful.flag-IsDumpable _),
          (
            (refl, lawful.count-IsDumpable _ tables),
            (
              (refl, lawful.count-IsDumpable _ skipped),
              ((refl, lawful.count-IsDumpable _ allowed), tt),
            ),
          ),
        ),
      ),
      tt,
    )

    migration_entries :
        (l : SsTableLoader)
        → IsReportable l
        → All (IsEntry J lawful) (migration_fields F J (get_stats F l))
    unfolding migration_fields get_stats is_ascii
    migration_entries l fits = (
      (refl, lawful.count-IsDumpable _ fits.total),
      (
        (refl, lawful.count-IsDumpable _ fits.migrated),
        (
          (refl, lawful.count-IsDumpable _ fits.failed),
          (
            (refl, lawful.count-IsDumpable _ fits.filtered),
            (
              (refl, lawful.count-IsDumpable _ fits.completed),
              (
                (refl, lawful.count-IsDumpable _ fits.tables),
                (
                  (refl, lawful.count-IsDumpable _ fits.skipped),
                  (
                    (refl, lawful.real-IsDumpable _ fits.progress),
                    ((refl, lawful.flag-IsDumpable _), ((refl, lawful.flag-IsDumpable _), tt)),
                  ),
                ),
              ),
            ),
          ),
        ),
      ),
    )

    -- The response that is sent can be dumped, and a client finds the migration's section in it.
    pub status_sent :
        (l : SsTableLoader)
        → IsReportable l
        → (v : J.Value) × (J.parse (status F J l).body ≡ some v)
          × (J.at (codes "migration") v ≡ some (J.object (migration_fields F J (get_stats F l))))
    unfolding status find text_eq is_ascii
    status_sent l fits = (
      _,
      lawful.parse-dump _ (
          lawful.object-IsDumpable _ (
            (refl, lawful.text-IsDumpable (codes "ok") refl),
            (
              (refl, lawful.object-IsDumpable _ (migration_entries l fits)),
              filter_entries l.filter fits.filter,
            ),
          )),
      lawful.at-object (codes "migration") _,
    )
