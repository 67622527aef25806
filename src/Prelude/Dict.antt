-- ===== src/Prelude/Dict.antt =====
-- std::unordered_map and std::unordered_set over texts, as lists in iteration order. The C++ order
-- is unspecified: a theorem about every list is a theorem about every order.
use mathlib.Core.Path.{◌≡◌, refl, subst}
use mathlib.Core.Logic.{inl, inr}
use mathlib.Core.Bool.{Bool, true, false, ◌&&◌, ◌||◌}
use mathlib.Core.List.{List, [], ◌∷◌}
use mathlib.Core.Option.{Option, none, some}
use native.Mathlib.Omega.{arith}
use scylla_cluster_sync_cxx.Prelude.Tests.{Bool-cases, if◌then◌else◌}
use scylla_cluster_sync_cxx.Prelude.Lists.{is_empty}
use scylla_cluster_sync_cxx.Prelude.Texts.{Text, text_eq, text_eq_iff}

-- `set.contains(key)`
unfoldable pub contains : List Text → Text → Bool
contains [] k = false
contains (x ∷ xs) k = text_eq x k || contains xs k

-- `set.insert(key)`
unfoldable pub insert : List Text → Text → List Text
insert xs k = if contains xs k then xs else k ∷ xs

contains_of_eq :
    (xs : List Text) (k j : Text) → contains xs k ≡ true → text_eq k j ≡ true → contains xs j ≡ true
contains_of_eq xs k j h e = subst (λ t. contains xs t ≡ true) ((text_eq_iff k j).0 e) h

pub contains-insert :
    (xs : List Text) (k j : Text) → contains (insert xs k) j ≡ (text_eq k j || contains xs j)
unfolding insert contains
contains-insert xs k j = elim (Bool-cases (contains xs k)) [
  | inl old ↦ rw (old, insert) (ground (arith, contains_of_eq xs k j))
  | inr new ↦ rw (new, insert) refl
]

-- The loop `for (x : xs) set.insert(x)`.
unfoldable pub insert_all : List Text → List Text → List Text
insert_all set [] = set
insert_all set (x ∷ xs) = insert_all (insert set x) xs

pub contains-insert_all :
    (set xs : List Text) (j : Text)
    → contains (insert_all set xs) j ≡ (contains xs j || contains set j)
unfolding insert_all contains
contains-insert_all set [] j = refl
contains-insert_all set (x ∷ xs) j =
    ground (arith, contains-insert_all (insert set x) xs j, contains-insert set x j)

is_empty-insert : (xs : List Text) (k : Text) → is_empty (insert xs k) ≡ false
unfolding insert contains
is_empty-insert [] k = refl
is_empty-insert (x ∷ xs) k = ground arith

pub is_empty-insert_all :
    (set xs : List Text) → is_empty (insert_all set xs) ≡ (is_empty set && is_empty xs)
unfolding insert_all
is_empty-insert_all set [] = ground arith
is_empty-insert_all set (x ∷ xs) =
    ground (arith, is_empty-insert_all (insert set x) xs, is_empty-insert set x)

module _ {ℓ} {V : Type ℓ} where
  -- `map.find(key)`
  unfoldable pub find : Text → List (Text × V) → Option V
  find k [] = none
  find k ((j, v) ∷ m) = if text_eq j k then some v else find k m

  -- `map.erase(key)`
  unfoldable pub erase : Text → List (Text × V) → List (Text × V)
  erase k [] = []
  erase k ((j, v) ∷ m) = let rest = erase k m in if text_eq j k then rest else (j, v) ∷ rest

  -- `map[key] = value`
  unfoldable pub assign : Text → V → List (Text × V) → List (Text × V)
  assign k v [] = (k, v) ∷ []
  assign k v ((j, w) ∷ m) = if text_eq j k then (k, v) ∷ m else (j, w) ∷ assign k v m

  -- `map.emplace(key, value)`: an entry that is there stays as it is.
  unfoldable pub emplace : Text → V → List (Text × V) → List (Text × V)
  emplace k v m = elim (find k m) [ none ↦ (k, v) ∷ m | some w ↦ m ]

  pub find-erase :
      (k j : Text) (m : List (Text × V))
      → find j (erase k m) ≡ (if text_eq k j then none else find j m)
  unfolding find erase
  find-erase k j [] = ground arith
  find-erase k j ((i, v) ∷ m) =
      ground (arith, find-erase k j m, text_eq_iff i k, text_eq_iff i j, text_eq_iff k j)

  pub find-assign :
      (k j : Text) (v : V) (m : List (Text × V))
      → find j (assign k v m) ≡ (if text_eq k j then some v else find j m)
  unfolding find assign
  find-assign k j v [] = refl
  find-assign k j v ((i, w) ∷ m) =
      ground (arith, find-assign k j v m, text_eq_iff i k, text_eq_iff i j, text_eq_iff k j)
