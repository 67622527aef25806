-- ===== src/Loader/IndexManager/Parallel.antt =====
-- What the batched strategy does with a list of indexes, under every schedule of its threads
-- (services/sstable-loader/src/index_manager.cpp).
use scylla_cluster_sync_cxx.Prelude.{
  ℕ, zero, suc, ◌≤◌, ◌<◌, ◌≡◌, refl, ap, sym, ◌∙◌, subst, ◌⊎◌, inl, inr, arith, true, ◌&&◌, Option,
  none, some, List, [], ◌∷◌, ◌++◌, if◌then◌else◌, Text, length, Option-cases, take, drop, is_empty,
  take-append-drop, length-drop,
}
use mathlib.Core.List.{filter_map, foldr, Perm}
use mathlib.Core.List.Perm
use native.Mathlib.Nat.{ℕ_set}
use scylla_cluster_sync_cxx.Svckit.Errors.{Result, ok, throw}
use scylla_cluster_sync_cxx.Svckit.Database.{Connection}
use scylla_cluster_sync_cxx.Loader.IndexManager.{
  IndexInfo, drop_ddl, create_ddl, standard_drop, drop_threads, rebuild_threads, batches,
  parallel_drop, parallel_rebuild, rebuild_failure,
}
use scylla_cluster_sync_cxx.Loader.IndexManager.Standard.{
  having_issued, accepts, issue_all, reported, execute_issues, accepts_alike, standard_drop_reports,
}

-- The threads of one batch, by what each reports, for a function of the index alone.
abbrev Reports :
    (IndexInfo → Text)
    → (IndexInfo → Option Text)
    → Connection
    → (List IndexInfo → Connection → List Text × Connection)
    → Type 0
Reports ddl report c threads =
    (is : List IndexInfo) (h : List Text)
    → threads is (having_issued h c) ≡ (filter_map report is, having_issued (issue_all ddl is h) c)

-- The names of the indexes that the cluster refuses to create.
abbrev pub failed : Connection → IndexInfo → Option Text
failed c i = if accepts c (create_ddl i) then none else some i.index_name

module _ (c : Connection) (ready : (c.connected && c.session) ≡ true)
    (stateless : (past : List Text) (q : Text)
      → c.driver.reply past q ≡ c.driver.reply c.issued q) where
  drop_threads-Reports : Reports drop_ddl (reported c) c drop_threads
  unfolding drop_threads filter_map
  drop_threads-Reports [] h = refl
  drop_threads-Reports (i ∷ is) h =
      let rest = drop_threads-Reports is (drop_ddl i ∷ h) in
      let sent = execute_issues c h (drop_ddl i) ready in
      let same = accepts_alike c h (drop_ddl i) stateless in ground (arith, rest, sent, same)

  rebuild_threads-Reports : Reports create_ddl (failed c) c rebuild_threads
  unfolding rebuild_threads filter_map
  rebuild_threads-Reports [] h = refl
  rebuild_threads-Reports (i ∷ is) h =
      let rest = rebuild_threads-Reports is (create_ddl i ∷ h) in
      let sent = execute_issues c h (create_ddl i) ready in
      let same = accepts_alike c h (create_ddl i) stateless in ground (arith, rest, sent, same)

filter_map-append :
    (f : IndexInfo → Option Text) (xs ys : List IndexInfo)
    → filter_map f (xs ++ ys) ≡ filter_map f xs ++ filter_map f ys
unfolding filter_map
filter_map-append f [] ys = refl
filter_map-append f (x ∷ xs) ys = elim (Option-cases (f x)) [
  | inl e ↦ rw (e, filter_map-append f xs ys) refl
  | inr (y, e) ↦ rw (e, filter_map-append f xs ys) refl
]

issue_all-append :
    (ddl : IndexInfo → Text) (xs ys : List IndexInfo) (h : List Text)
    → issue_all ddl (xs ++ ys) h ≡ issue_all ddl ys (issue_all ddl xs h)
issue_all-append ddl [] ys h = refl
issue_all-append ddl (x ∷ xs) ys h = issue_all-append ddl xs ys (ddl x ∷ h)

-- The batches run the threads of some permutation of the indexes, one after the other, if the fuel
-- is at least the number of indexes and a batch has at least one thread.
batches-Perm :
    (ddl : IndexInfo → Text) (report : IndexInfo → Option Text) (c : Connection)
    (threads : List IndexInfo → Connection → List Text × Connection)
    → Reports ddl report c threads
    → (schedule : List IndexInfo → List IndexInfo) → ((xs : List IndexInfo) → Perm (schedule xs) xs)
    → (fuel p : ℕ) (is : List IndexInfo) (h : List Text) → 0 < p
    → length is ≤ fuel
    → (order : List IndexInfo) × Perm order is
      × (batches threads schedule fuel p is (having_issued h c)
          ≡ (filter_map report order, having_issued (issue_all ddl order h) c))
unfolding batches filter_map
batches-Perm ddl report c threads reports schedule perm zero p [] h positive enough =
    ([], Perm.nil, refl)
batches-Perm ddl report c threads reports schedule perm zero p (i ∷ is) h positive enough =
    let no : ⊥ = omega arith in elim no [ ]
batches-Perm ddl report c threads reports schedule perm (suc fuel) p [] h positive enough =
    ([], Perm.nil, refl)
batches-Perm ddl report c threads reports schedule perm (suc fuel) p (i ∷ is) h positive enough =
    let batch = schedule (take p (i ∷ is)) in
    let h' = issue_all ddl batch h in
    let (order, same, rest) =
      batches-Perm ddl report c threads reports schedule perm fuel p (drop p (i ∷ is)) h' positive
        (omega (arith, length-drop p (i ∷ is))) in
    (
      batch ++ order,
      subst (Perm (batch ++ order)) (take-append-drop p (i ∷ is))
          (Perm.append (perm (take p (i ∷ is))) same),
      ground (
        arith,
        reports batch h,
        rest,
        filter_map-append report batch order,
        issue_all-append ddl batch order h,
      ),
    )

-- On a connected session of a cluster whose answers do not depend on the past, with batches of at
-- least one thread, the batched drop reports, in whatever order the threads of each batch run, a
-- permutation of what the sequential drop reports, and it sends one DROP for each index, in some
-- order.
pub parallel_drop-Perm :
    (schedule : List IndexInfo → List IndexInfo)
    → ((xs : List IndexInfo) → Perm (schedule xs) xs)
    → (p : ℕ) → 0 < p
    → (is : List IndexInfo) (c : Connection) → (c.connected && c.session) ≡ true
    → ((past : List Text) (q : Text) → c.driver.reply past q ≡ c.driver.reply c.issued q)
    → (order : List IndexInfo) × Perm order is
      × ((parallel_drop schedule p is c).1 ≡ having_issued (issue_all drop_ddl order c.issued) c)
      × Perm (parallel_drop schedule p is c).0 (standard_drop is c).0
unfolding parallel_drop
parallel_drop-Perm schedule perm p positive is c ready stateless =
    let (order, same, run) =
      batches-Perm drop_ddl (reported c) c drop_threads (drop_threads-Reports c ready stateless)
        schedule perm (length is) p is c.issued positive (omega arith) in
    (
      order,
      same,
      ap (λ r. r.1) run,
      subst (λ names. Perm names (standard_drop is c).0) (sym (ap (λ r. r.0) run))
          (subst (λ names. Perm (filter_map (reported c) order) names)
            (sym (ap (λ r. r.0) (standard_drop_reports is c c.issued ready stateless)))
            (Perm.filter_map (reported c) same)),
    )

length_as_foldr : (xs : List Text) → foldr (λ (x : Text) (n : ℕ). suc n) 0 xs ≡ length xs
length_as_foldr [] = refl
length_as_foldr (x ∷ xs) = ap suc (length_as_foldr xs)

length-Perm : (xs ys : List Text) → Perm xs ys → length xs ≡ length ys
length-Perm xs ys perm =
    sym (length_as_foldr xs)
    ∙ Perm.foldr-eq ℕ_set (λ (x : Text) (n : ℕ). suc n) (λ a b n. refl) perm 0
    ∙ length_as_foldr ys

rebuild_verdict :
    (failures listed : List Text)
    → length failures ≡ length listed
    → (r : Result (Unit {0}))
    → r ≡ (if is_empty failures then ok tt else throw (rebuild_failure (length failures)))
    → ((r ≡ ok tt) × (listed ≡ []))
      ⊎ ((r ≡ throw (rebuild_failure (length listed))) × (0 < length listed))
rebuild_verdict [] [] count r e = inl (e, refl)
rebuild_verdict [] (x ∷ listed) count r e = let no : ⊥ = omega arith in elim no [ ]
rebuild_verdict (x ∷ failures) [] count r e = let no : ⊥ = omega arith in elim no [ ]
rebuild_verdict (x ∷ failures) (y ∷ listed) count r e =
    inr (e ∙ ap (λ n. throw (rebuild_failure n)) count, omega arith)

-- On a connected session of a cluster whose answers do not depend on the past, with batches of at
-- least one thread that run in whatever order, the batched rebuild sends one CREATE for each index
-- whatever fails, in some order, and then throws exactly if the cluster refuses one of them, with the
-- number of those that it refuses.
pub parallel_rebuild_outcome :
    (schedule : List IndexInfo → List IndexInfo)
    → ((xs : List IndexInfo) → Perm (schedule xs) xs)
    → (p : ℕ) → 0 < p
    → (is : List IndexInfo) (c : Connection) → (c.connected && c.session) ≡ true
    → ((past : List Text) (q : Text) → c.driver.reply past q ≡ c.driver.reply c.issued q)
    → (order : List IndexInfo) × Perm order is
      × ((parallel_rebuild schedule p is c).1
          ≡ having_issued (issue_all create_ddl order c.issued) c)
      × ((((parallel_rebuild schedule p is c).0 ≡ ok tt) × (filter_map (failed c) is ≡ []))
          ⊎ (((parallel_rebuild schedule p is c).0
                ≡ throw (rebuild_failure (length (filter_map (failed c) is))))
              × (0 < length (filter_map (failed c) is))))
unfolding parallel_rebuild
parallel_rebuild_outcome schedule perm p positive is c ready stateless =
    let (order, same, run) =
      batches-Perm create_ddl (failed c) c rebuild_threads
        (rebuild_threads-Reports c ready stateless) schedule perm (length is) p is c.issued positive
        (omega arith) in
    (
      order,
      same,
      ap (λ r. r.1) run,
      rebuild_verdict (filter_map (failed c) order) (filter_map (failed c) is)
          (length-Perm _ _ (Perm.filter_map (failed c) same)) (parallel_rebuild schedule p is c).0
          (rw (run, parallel_rebuild) refl),
    )
