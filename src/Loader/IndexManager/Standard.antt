-- ===== src/Loader/IndexManager/Standard.antt =====
-- What the sequential strategy does with a list of indexes
-- (services/sstable-loader/src/index_manager.cpp).
use scylla_cluster_sync_cxx.Prelude.{
  ◌≡◌, refl, ap, sym, ◌∙◌, ◌⊎◌, ◌↔◌, inl, inr, arith, Bool, true, ◌&&◌, Option, none, some, List,
  [], ◌∷◌, ◌++◌, if◌then◌else◌, Text, codes, All,
}
use mathlib.Core.List.{filter_map}
use scylla_cluster_sync_cxx.Svckit.Errors.{
  SyncError, database_error, what, ok, throw, is_ok, Result-cases,
}
use scylla_cluster_sync_cxx.Svckit.Database.{Connection, execute}
use scylla_cluster_sync_cxx.Loader.IndexManager.{
  IndexInfo, drop_ddl, create_ddl, verify_query, standard_drop, standard_rebuild, standard_verify,
}

-- The connection after it has issued some more statements, the newest first.
abbrev pub having_issued : List Text → Connection → Connection
having_issued h c = record c { issued = h }

-- Whether the cluster accepts a statement on this connection.
abbrev pub accepts : Connection → Text → Bool
accepts c cql = is_ok (execute c cql).0

-- The statements for a list of indexes, in the order of the connection: the last one first.
abbrev pub issue_all : (IndexInfo → Text) → List IndexInfo → List Text → List Text
issue_all ddl [] h = h
issue_all ddl (i ∷ is) h = issue_all ddl is (ddl i ∷ h)

-- What drop_indexes reports of an index.
abbrev pub reported : Connection → IndexInfo → Option Text
reported c i = if accepts c (drop_ddl i) then some i.index_name else none

pub execute_issues :
    (c : Connection) (h : List Text) (cql : Text)
    → (c.connected && c.session) ≡ true
    → (execute (having_issued h c) cql).1 ≡ having_issued (cql ∷ h) c
unfolding execute
execute_issues c h cql ready = ground arith

pub accepts_alike :
    (c : Connection) (h : List Text) (cql : Text)
    → ((past : List Text) (q : Text) → c.driver.reply past q ≡ c.driver.reply c.issued q)
    → accepts (having_issued h c) cql ≡ accepts c cql
unfolding execute
accepts_alike c h cql stateless = ground (arith, stateless h cql)

-- On a connected session of a cluster whose answers do not depend on the past, the sequential drop
-- sends one DROP for each index, in order, whatever fails, and reports exactly the names of those
-- that the cluster accepts, in order.
pub standard_drop_reports :
    (is : List IndexInfo) (c : Connection) (h : List Text)
    → (c.connected && c.session) ≡ true
    → ((past : List Text) (q : Text) → c.driver.reply past q ≡ c.driver.reply c.issued q)
    → standard_drop is (having_issued h c)
      ≡ (filter_map (reported c) is, having_issued (issue_all drop_ddl is h) c)
unfolding standard_drop filter_map
standard_drop_reports [] c h ready stateless = refl
standard_drop_reports (i ∷ is) c h ready stateless =
    let rest = standard_drop_reports is c (drop_ddl i ∷ h) ready stateless in
    let sent = execute_issues c h (drop_ddl i) ready in
    let same = accepts_alike c h (drop_ddl i) stateless in ground (arith, rest, sent, same)

standard_rebuild_step :
    (i : IndexInfo) (is : List IndexInfo) (c : Connection) (u : Unit {0})
    → (execute c (create_ddl i)).0 ≡ ok u
    → standard_rebuild (i ∷ is) c ≡ standard_rebuild is (execute c (create_ddl i)).1
unfolding standard_rebuild
standard_rebuild_step i is c u h = ground arith

-- The sequential rebuild either sends one CREATE for each index, in order, all accepted; or it stops
-- at the first one that is refused, sends none of those after it, and throws a database error that
-- names that index and says why.
pub standard_rebuild_outcome :
    (is : List IndexInfo) (c : Connection)
    → ((standard_rebuild is c).0 ≡ ok tt)
      ⊎ ((before : List IndexInfo) × (i : IndexInfo) × (after : List IndexInfo) × (d : Connection)
          × (e : SyncError) × (is ≡ before ++ (i ∷ after))
          × (standard_rebuild before c ≡ (ok tt, d))
          × (execute d (create_ddl i) ≡ (throw e, (standard_rebuild is c).1))
          × ((standard_rebuild is c).0
              ≡ throw (
                  database_error (
                    codes "Failed to rebuild index " ++ (i.index_name ++ (codes ": " ++ what e))))))
unfolding standard_rebuild
standard_rebuild_outcome [] c = inl refl
standard_rebuild_outcome (i ∷ is) c = elim (Result-cases (execute c (create_ddl i)).0) [
  | inl (u, h) ↦
      let step = standard_rebuild_step i is c u h in
      elim (standard_rebuild_outcome is (execute c (create_ddl i)).1) [
        | inl all ↦ inl (ap (λ p. p.0) step ∙ all)
        | inr (before, j, after, d, e, split, done, failed, thrown) ↦ inr (
          i ∷ before,
          j,
          after,
          d,
          e,
          ap (◌∷◌ i) split,
          standard_rebuild_step i before c u h ∙ done,
          failed ∙ ap (λ p. (throw e, p.1)) (sym step),
          ap (λ p. p.0) step ∙ thrown,
        )
      ]
  | inr (e, h) ↦ inr (([], i, is, c, e, refl, refl, ground arith, ground arith))
]

-- Verification is true exactly when the cluster answers every query: whether a query returned a row
-- is not asked.
pub standard_verify_iff :
    (is : List IndexInfo) (c : Connection) (h : List Text)
    → (c.connected && c.session) ≡ true
    → ((past : List Text) (q : Text) → c.driver.reply past q ≡ c.driver.reply c.issued q)
    → ((standard_verify is (having_issued h c)).0 ≡ true)
      ↔ All (λ i. accepts c (verify_query i) ≡ true) is
unfolding standard_verify
standard_verify_iff [] c h ready stateless = (λ k. tt, λ k. refl)
standard_verify_iff (i ∷ is) c h ready stateless =
    let rest = standard_verify_iff is c (verify_query i ∷ h) ready stateless in
    let sent = execute_issues c h (verify_query i) ready in
    let same = accepts_alike c h (verify_query i) stateless in ground (arith, rest, sent, same)
