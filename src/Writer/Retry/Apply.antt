-- ===== src/Writer/Retry/Apply.antt =====
-- The mutations of the retry queue under the lock.
use scylla_cluster_sync_cxx.Prelude.{
  ◌≡◌, refl, ap, ◌∙◌, false, none, List, [], ◌∷◌, arith, if◌then◌else◌, Text, text_eq, text_eq_iff,
  text_eq_refl, find, erase, assign, find-erase, find-assign, contains,
}
use scylla_cluster_sync_cxx.Writer.DualWriter.{FailedWrite, DualWriter}
use scylla_cluster_sync_cxx.Writer.Retry.{
  Verdict, remove, update, Pass, settle, retry_one, retry_all, erase_all, assign_all, apply_pass,
}

abbrev pub Queue : Type 0
Queue = List (Text × FailedWrite)

-- No id stands in the queue twice, as in every map.
abbrev pub IsDistinct : Queue → Type 0
IsDistinct [] = Unit
IsDistinct ((k, v) ∷ m) = (find k m ≡ none) × IsDistinct m

abbrev ids : Queue → List Text
ids [] = []
ids ((k, v) ∷ m) = k ∷ ids m

pub erase_absent : (k : Text) (m : Queue) → find k m ≡ none → erase k m ≡ m
unfolding find erase
erase_absent k [] h = refl
erase_absent k ((j, v) ∷ m) h = ground (arith, erase_absent k m)

pub find-erase_all :
    (ks : List Text) (j : Text) (m : Queue)
    → find j (erase_all ks m) ≡ (if contains ks j then none else find j m)
unfolding erase_all contains
find-erase_all [] j m = refl
find-erase_all (k ∷ ks) j m = ground (arith, find-erase_all ks j (erase k m), find-erase k j m)

pub find-assign_all :
    (u : Queue) (j : Text) (m : Queue) → find j u ≡ none → find j (assign_all u m) ≡ find j m
unfolding assign_all find
find-assign_all [] j m h = refl
find-assign_all ((k, v) ∷ u) j m h =
    ground (arith, find-assign_all u j (assign k v m), find-assign k j v m)

erase_all_cons :
    (ks : List Text) (k : Text) (v : FailedWrite) (m : Queue)
    → contains ks k ≡ false
    → erase_all ks ((k, v) ∷ m) ≡ (k, v) ∷ erase_all ks m
unfolding erase_all erase contains
erase_all_cons [] k v m h = refl
erase_all_cons (j ∷ ks) k v m h =
    ground (arith, erase_all_cons ks k v (erase j m), text_eq_iff j k, text_eq_iff k j)

assign_all_cons :
    (u : Queue) (k : Text) (v : FailedWrite) (m : Queue)
    → find k u ≡ none
    → assign_all u ((k, v) ∷ m) ≡ (k, v) ∷ assign_all u m
unfolding assign_all assign find
assign_all_cons [] k v m h = refl
assign_all_cons ((j, w) ∷ u) k v m h =
    ground (arith, assign_all_cons u k v (assign j w m), text_eq_iff j k, text_eq_iff k j)

assign_front : (k : Text) (v w : FailedWrite) (m : Queue) → assign k v ((k, w) ∷ m) ≡ (k, v) ∷ m
unfolding assign
assign_front k v w m = rw text_eq_refl refl

-- The ids that a pass removes or updates are those of the snapshot.
pub retry_all-ids :
    (w : DualWriter) (xs : Queue) (j : Text)
    → find j xs ≡ none
    → (contains (retry_all w xs).to_remove j ≡ false) × (find j (retry_all w xs).to_update ≡ none)
unfolding retry_all find contains
retry_all-ids w [] j h = (refl, refl)
retry_all-ids w ((k, fw) ∷ xs) j h =
    let (verdict, w1) = retry_one w fw in
    let rest = retry_all-ids w1 xs j (ground arith) in
    let other : text_eq k j ≡ false = ground arith in
    by_verdict verdict (retry_all w1 xs) rest other
  where
    by_verdict :
        (v : Verdict) (p : Pass)
        → (contains p.to_remove j ≡ false) × (find j p.to_update ≡ none)
        → text_eq k j ≡ false
        → (contains (settle k v p).to_remove j ≡ false) × (find j (settle k v p).to_update ≡ none)
    by_verdict remove p h other = (ground arith, ground arith)
    by_verdict (update fw') p h other = (ground arith, ground arith)

-- A pass over a snapshot leaves alone what was not in it: an entry that was queued while the pass
-- ran is found in the queue as it was queued.
pub apply_pass_keeps_new :
    (w : DualWriter) (snapshot queue : Queue) (id : Text)
    → find id snapshot ≡ none
    → find id (apply_pass (retry_all w snapshot) queue) ≡ find id queue
unfolding apply_pass
apply_pass_keeps_new w snapshot queue id h =
    let p = retry_all w snapshot in
    let (kept, fresh) = retry_all-ids w snapshot id h in
    find-assign_all p.to_update id (erase_all p.to_remove queue) fresh
    ∙ rw (find-erase_all p.to_remove id queue) (ground arith)

settled :
    (k : Text) (fw : FailedWrite) (xs : Queue) (v : Verdict) (p : Pass)
    → find k xs ≡ none
    → contains p.to_remove k ≡ false
    → find k p.to_update ≡ none
    → apply_pass p xs ≡ p.to_update
    → apply_pass (settle k v p) ((k, fw) ∷ xs) ≡ (settle k v p).to_update
unfolding apply_pass settle erase_all assign_all
settled k fw xs remove p absent kept fresh rest =
    let gone : erase k ((k, fw) ∷ xs) ≡ xs =
      unfold erase in rw text_eq_refl (erase_absent k xs absent) in
    ap (λ m. assign_all p.to_update (erase_all p.to_remove m)) gone ∙ rest
settled k fw xs (update fw') p absent kept fresh rest =
    ap (λ m. assign_all p.to_update (assign k fw' m)) (erase_all_cons p.to_remove k fw xs kept)
    ∙ ap (assign_all p.to_update) (assign_front k fw' fw (erase_all p.to_remove xs))
    ∙ assign_all_cons p.to_update k fw' (erase_all p.to_remove xs) fresh
    ∙ ap (◌∷◌ (k, fw')) rest

-- On the queue that the pass was taken from, what is left is what the pass updates.
pub apply_pass-to_update :
    (w : DualWriter) (xs : Queue)
    → IsDistinct xs
    → apply_pass (retry_all w xs) xs ≡ (retry_all w xs).to_update
unfolding retry_all
apply_pass-to_update w [] d = unfold apply_pass in refl
apply_pass-to_update w ((k, fw) ∷ xs) d =
    let (verdict, w1) = retry_one w fw in
    let (kept, fresh) = retry_all-ids w1 xs k d.0 in
    settled k fw xs verdict (retry_all w1 xs) d.0 kept fresh (apply_pass-to_update w1 xs d.1)

settle-IsDistinct :
    (k : Text) (v : Verdict) (p : Pass)
    → find k p.to_update ≡ none
    → IsDistinct p.to_update
    → IsDistinct (settle k v p).to_update
unfolding settle
settle-IsDistinct k remove p h d = d
settle-IsDistinct k (update fw) p h d = (h, d)

pub to_update-IsDistinct :
    (w : DualWriter) (xs : Queue) → IsDistinct xs → IsDistinct (retry_all w xs).to_update
unfolding retry_all
to_update-IsDistinct w [] d = tt
to_update-IsDistinct w ((k, fw) ∷ xs) d =
    let (verdict, w1) = retry_one w fw in
    settle-IsDistinct k verdict (retry_all w1 xs) (retry_all-ids w1 xs k d.0).1
      (to_update-IsDistinct w1 xs d.1)
