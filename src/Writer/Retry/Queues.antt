-- ===== src/Writer/Retry/Queues.antt =====
-- The retry queue as a map: what the operations on it leave of each entry, and that its ids stay
-- distinct.
use scylla_cluster_sync_cxx.Prelude.{
  ◌≡◌, refl, inl, inr, none, some, List, [], ◌∷◌, ◌++◌, arith, if◌then◌else◌, Text, text_eq,
  text_eq_iff, Option-cases, find, erase, assign, emplace, find-erase, find-assign,
}
use scylla_cluster_sync_cxx.Writer.DualWriter.{FailedWrite}
use scylla_cluster_sync_cxx.Writer.Retry.{erase_all, assign_all}
use scylla_cluster_sync_cxx.Writer.Retry.Apply.{Queue, IsDistinct, find-assign_all}

pub find-emplace :
    (k j : Text) (v : FailedWrite) (m : Queue)
    → find j (emplace k v m)
      ≡ (if text_eq k j then elim (find k m) [ none ↦ some v | some w ↦ some w ] else find j m)
unfolding emplace find
find-emplace k j v m = elim (Option-cases (find k m)) [
  | inl absent ↦ ground arith
  | inr (w, present) ↦ ground (arith, text_eq_iff k j)
]

pub find-append :
    (j : Text) (m n : Queue)
    → find j (m ++ n) ≡ elim (find j m) [ none ↦ find j n | some v ↦ some v ]
unfolding find
find-append j [] n = refl
find-append j ((k, v) ∷ m) n = ground (arith, find-append j m n)

pub emplace-IsDistinct :
    (k : Text) (v : FailedWrite) (m : Queue) → IsDistinct m → IsDistinct (emplace k v m)
unfolding emplace
emplace-IsDistinct k v m d = elim (Option-cases (find k m)) [
  | inl absent ↦ rw (absent, emplace) (absent, d)
  | inr (w, present) ↦ rw (present, emplace) d
]

erase-IsDistinct : (k : Text) (m : Queue) → IsDistinct m → IsDistinct (erase k m)
unfolding erase
erase-IsDistinct k [] d = tt
erase-IsDistinct k ((j, v) ∷ m) d =
    let rest = erase-IsDistinct k m d.1 in ground (arith, find-erase k j m)

assign-IsDistinct :
    (k : Text) (v : FailedWrite) (m : Queue) → IsDistinct m → IsDistinct (assign k v m)
unfolding assign
assign-IsDistinct k v [] d = (unfold find in refl, tt)
assign-IsDistinct k v ((j, w) ∷ m) d =
    let rest = assign-IsDistinct k v m d.1 in
    ground (arith, find-assign k j v m, text_eq_iff j k, text_eq_iff k j)

pub erase_all-IsDistinct : (ks : List Text) (m : Queue) → IsDistinct m → IsDistinct (erase_all ks m)
unfolding erase_all
erase_all-IsDistinct [] m d = d
erase_all-IsDistinct (k ∷ ks) m d = erase_all-IsDistinct ks (erase k m) (erase-IsDistinct k m d)

pub assign_all-IsDistinct : (u m : Queue) → IsDistinct m → IsDistinct (assign_all u m)
unfolding assign_all
assign_all-IsDistinct [] m d = d
assign_all-IsDistinct ((k, v) ∷ u) m d =
    assign_all-IsDistinct u (assign k v m) (assign-IsDistinct k v m d)

-- An id that stands in the updates once has its update afterwards.
pub find-assign_all_updated :
    (u : Queue) (j : Text) (v : FailedWrite) (m : Queue)
    → IsDistinct u
    → find j u ≡ some v
    → find j (assign_all u m) ≡ some v
unfolding assign_all find
find-assign_all_updated [] j v m d h = cc
find-assign_all_updated ((k, w) ∷ u) j v m d h = ground (
  arith,
  find-assign_all_updated u j v (assign k w m),
  find-assign_all u j (assign k w m),
  find-assign k j w m,
  text_eq_iff k j,
)

pub append-IsDistinct :
    (m : Queue) (k : Text) (v : FailedWrite)
    → IsDistinct m
    → find k m ≡ none
    → IsDistinct (m ++ ((k, v) ∷ []))
unfolding find
append-IsDistinct [] k v d h = (refl, tt)
append-IsDistinct ((j, w) ∷ m) k v d h =
    let rest = append-IsDistinct m k v d.1 in
    ground (arith, find-append j m ((k, v) ∷ []), text_eq_iff j k, text_eq_iff k j)
