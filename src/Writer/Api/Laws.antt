-- ===== src/Writer/Api/Laws.antt =====
-- What the HTTP API tells of the dual writer (services/dual-writer/src/api.cpp).
use scylla_cluster_sync_cxx.Prelude.{
  ℕ, ◌^◌, ◌<◌, ◌≡◌, none, Option, All, refl, ◌∙◌, some, List, Text, codes, find, text_eq, length,
  if◌then◌else◌,
}
use scylla_cluster_sync_cxx.Writer.DualWriter.{DualWriter, health_check, get_stats}
use scylla_cluster_sync_cxx.Writer.Api.{health, writer_fields, filter_fields, status}
use scylla_cluster_sync_cxx.Wire.{Json, IsLawful, IsEntry, is_ascii, value}
use scylla_cluster_sync_cxx.Writer.Filter.{Governor}

-- /health answers 200 exactly when health_check of the writer is true, and 503 otherwise; it leaves
-- the writer as that call does.
pub health-health_check :
    {D : Type 0} (J : Json D) (w : DualWriter)
    → ((health J w).0.status ≡ (if (health_check w).0 then 200 else 503))
      × ((health J w).1 ≡ (health_check w).1)
unfolding health health_check
health-health_check J w = (refl, refl)

-- The number that a client reads of the response under these two keys.
abbrev pub Reads : {D : Type 0} (J : Json D) (body : J.Body) (section key : Text) (n : ℕ) → Type 0
Reads J body section key n =
    (v : J.Value) × (m : J.Value) × (J.parse body ≡ some v)
    × (J.at section v ≡ some m)
    × (value J J.as_count m key 0 ≡ some n)

-- The filter's counters are 64-bit words.
abbrev pub FilterFits : Option Governor → Type 0
FilterFits none = Unit
FilterFits (some g) =
    (g.stats.tables_skipped < 2 ^ 64)
    × (g.stats.tenants_skipped < 2 ^ 64)
    × (g.stats.rows_allowed < 2 ^ 64)

-- So are the writer's, and the size of its queue.
pub record FitsWords (w : DualWriter) : Type 0 where
  pub total : w.stats.total_writes < 2 ^ 64
  pub successful : w.stats.successful_writes < 2 ^ 64
  pub failed : w.stats.failed_writes < 2 ^ 64
  pub retried : w.stats.retried_writes < 2 ^ 64
  pub filtered : w.stats.filtered_writes < 2 ^ 64
  pub abandoned : w.stats.abandoned_writes < 2 ^ 64
  pub pending : length w.pending < 2 ^ 64
  pub filter : FilterFits w.filter

module _ {D : Type 0} (J : Json D) (lawful : IsLawful J) where
  filter_entries : (f : Option Governor) → FilterFits f → All (IsEntry J lawful) (filter_fields J f)
  unfolding filter_fields is_ascii
  filter_entries none fits = tt
  filter_entries (some g) (tables, tenants, rows) = (
    (
      refl,
      lawful.object-IsDumpable _ (
        (refl, lawful.flag-IsDumpable _),
        (
          (refl, lawful.count-IsDumpable _ tables),
          ((refl, lawful.count-IsDumpable _ tenants), ((refl, lawful.count-IsDumpable _ rows), tt)),
        ),
      ),
    ),
    tt,
  )

  writer_entries :
      (w : DualWriter) → FitsWords w → All (IsEntry J lawful) (writer_fields J (get_stats w))
  unfolding writer_fields get_stats is_ascii
  writer_entries w fits = (
    (refl, lawful.count-IsDumpable _ fits.total),
    (
      (refl, lawful.count-IsDumpable _ fits.successful),
      (
        (refl, lawful.count-IsDumpable _ fits.failed),
        (
          (refl, lawful.count-IsDumpable _ fits.retried),
          (
            (refl, lawful.count-IsDumpable _ fits.filtered),
            (
              (refl, lawful.count-IsDumpable _ fits.abandoned),
              ((refl, lawful.count-IsDumpable _ fits.pending), tt),
            ),
          ),
        ),
      ),
    ),
  )

  -- The response that is sent can be dumped, and a client finds the writer's section in it.
  sent :
      (w : DualWriter)
      → FitsWords w
      → (v : J.Value) × (J.parse (status J w).body ≡ some v)
        × (J.at (codes "writer") v ≡ some (J.object (writer_fields J (get_stats w))))
  unfolding status find text_eq is_ascii
  sent w fits = (
    _,
    lawful.parse-dump _ (
        lawful.object-IsDumpable _ (
          (refl, lawful.text-IsDumpable (codes "dual-writer") refl),
          (
            (refl, lawful.text-IsDumpable (codes "running") refl),
            (
              (refl, lawful.object-IsDumpable _ (writer_entries w fits)),
              filter_entries w.filter fits.filter,
            ),
          ),
        )),
    lawful.at-object (codes "writer") _,
  )

  Reads-count :
      (m : List (Text × J.Value)) (k : Text) (n : ℕ)
      → n < 2 ^ 64
      → find k m ≡ some (J.count n)
      → value J J.as_count (J.object m) k 0 ≡ some n
  unfolding value
  Reads-count m k n small h =
      rw (lawful.is_object-object m) (rw (lawful.at-object k m ∙ h) (lawful.as_count-count n small))

  Reads-status :
      (w : DualWriter) (k : Text) (n : ℕ)
      → FitsWords w
      → n < 2 ^ 64
      → find k (writer_fields J (get_stats w)) ≡ some (J.count n)
      → Reads J (status J w).body (codes "writer") k n
  Reads-status w k n fits small h =
      let (v, parsed, here) = sent w fits in (v, _, parsed, here, Reads-count _ k n small h)

  -- A client that reads /status gets the writer's own counters and the length of its retry queue, if
  -- these and the filter's counters are 64-bit words.
  pub status_reports :
      (w : DualWriter)
      → FitsWords w
      → let body = (status J w).body in
        Reads J body (codes "writer") (codes "total_writes") w.stats.total_writes
        × Reads J body (codes "writer") (codes "successful_writes") w.stats.successful_writes
        × Reads J body (codes "writer") (codes "failed_writes") w.stats.failed_writes
        × Reads J body (codes "writer") (codes "retried_writes") w.stats.retried_writes
        × Reads J body (codes "writer") (codes "filtered_writes") w.stats.filtered_writes
        × Reads J body (codes "writer") (codes "abandoned_writes") w.stats.abandoned_writes
        × Reads J body (codes "writer") (codes "pending_retries") (length w.pending)
  unfolding writer_fields get_stats find text_eq
  status_reports w fits =
      let stats = w.stats in
      (
        Reads-status w (codes "total_writes") stats.total_writes fits fits.total refl,
        Reads-status w (codes "successful_writes") stats.successful_writes fits fits.successful
            refl,
        Reads-status w (codes "failed_writes") stats.failed_writes fits fits.failed refl,
        Reads-status w (codes "retried_writes") stats.retried_writes fits fits.retried refl,
        Reads-status w (codes "filtered_writes") stats.filtered_writes fits fits.filtered refl,
        Reads-status w (codes "abandoned_writes") stats.abandoned_writes fits fits.abandoned refl,
        Reads-status w (codes "pending_retries") (length w.pending) fits fits.pending refl,
      )
