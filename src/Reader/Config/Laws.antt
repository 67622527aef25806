-- ===== src/Reader/Config/Laws.antt =====
-- The reconciliation modes of a configuration (services/dual-reader/src/config.cpp and main.cpp).
use scylla_cluster_sync_cxx.Prelude.{
  ◌≡◌, ◌≢◌, ◌⊎◌, sym, refl, inl, inr, false, Text, codes, text_eq, text_eq_iff, Bool-cases,
}
use scylla_cluster_sync_cxx.Reader.Reconciliation.{strategy_name, source_wins}
use scylla_cluster_sync_cxx.Reader.Config.{make_strategy, mode_of}

ne_of : (s t : Text) → text_eq s t ≡ false → s ≢ t
ne_of s t h e = let same = (text_eq_iff s t).1 e in cc

-- The strategy that a configuration's mode selects reports the mode's name, for each of the three
-- names; any other text, also a misspelt name, selects the strategy that overwrites the target with
-- the source's value.
pub make_strategy-mode_of :
    (mode : Text)
    → (strategy_name (make_strategy (mode_of mode)) ≡ mode)
      ⊎ ((make_strategy (mode_of mode) ≡ source_wins)
          × (mode ≢ codes "source_wins")
          × (mode ≢ codes "newest_wins")
          × (mode ≢ codes "manual"))
unfolding mode_of make_strategy strategy_name
make_strategy-mode_of mode = elim (Bool-cases (text_eq mode (codes "newest_wins"))) [
  | inl newest ↦ inl (rw newest (sym ((text_eq_iff mode (codes "newest_wins")).0 newest)))
  | inr not_newest ↦ elim (Bool-cases (text_eq mode (codes "manual"))) [
    | inl is_manual ↦
        inl (rw (not_newest, is_manual) (sym ((text_eq_iff mode (codes "manual")).0 is_manual)))
    | inr not_manual ↦ elim (Bool-cases (text_eq mode (codes "source_wins"))) [
      | inl source ↦
          inl
            (rw (not_newest, not_manual) (sym ((text_eq_iff mode (codes "source_wins")).0 source)))
      | inr other ↦ inr (
        rw (not_newest, not_manual) refl,
        ne_of mode (codes "source_wins") other,
        ne_of mode (codes "newest_wins") not_newest,
        ne_of mode (codes "manual") not_manual,
      )
    ]
  ]
]
