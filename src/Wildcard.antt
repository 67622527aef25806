-- ===== src/Wildcard.antt =====
-- The wildcard loop that the two blacklist governors share word for word:
-- services/dual-writer/src/filter.cpp and services/sstable-loader/src/filter.cpp.
use scylla_cluster_sync_cxx.Prelude.{
  ◌≡◌, refl, ap, ◌↔◌, ◌⊎◌, inl, inr, Bool, true, false, ◌&&◌, ◌||◌, Option, none, some, List, [],
  ◌∷◌, ◌++◌, arith, ◌==◌, if◌then◌else◌, Bool-cases, Text, text_eq, text_eq_iff, occurs, after_last,
  contains,
}

-- The suffix of a pattern "*.suffix".
unfoldable pub wildcard_suffix : Text → Option Text
wildcard_suffix [] = none
wildcard_suffix (a ∷ []) = none
wildcard_suffix (a ∷ b ∷ suffix) = if a == b'*' && b == b'.' then some suffix else none

-- One round of the loop: does this entry of the blacklist match?
unfoldable pub wildcard_matches : Text → Text → Bool
unfolding wildcard_suffix
wildcard_matches pattern table = elim (wildcard_suffix pattern) [
  | none ↦ false
  | some suffix ↦ elim (after_last b'.' table) [ none ↦ false | some part ↦ text_eq part suffix ]
]

unfoldable pub any_wildcard : List Text → Text → Bool
unfolding wildcard_matches
any_wildcard [] table = false
any_wildcard (pattern ∷ patterns) table =
    wildcard_matches pattern table || any_wildcard patterns table

-- The table names that a blacklist is meant to exclude: an entry names the table, or an entry
-- "*.name" names its last component.
abbrev pub IsBlacklisted : List Text → Text → Type 0
IsBlacklisted blacklist table =
    (contains blacklist table ≡ true)
    ⊎ ((keyspace : Text) × (name : Text) × (table ≡ keyspace ++ (b'.' ∷ name))
        × (occurs b'.' name ≡ false)
        × (contains blacklist (b'*' ∷ b'.' ∷ name) ≡ true))

occurs-middle : (keyspace name : Text) → occurs b'.' (keyspace ++ (b'.' ∷ name)) ≡ true
unfolding occurs
occurs-middle [] name = refl
occurs-middle (k ∷ keyspace) name = ground (arith, occurs-middle keyspace name)

-- A table name without a dot has no last component; any other splits at its last dot.
after_last-cases :
    (table : Text)
    → ((occurs b'.' table ≡ false) × (after_last b'.' table ≡ none))
      ⊎ ((keyspace : Text) × (name : Text) × (table ≡ keyspace ++ (b'.' ∷ name))
          × (occurs b'.' name ≡ false)
          × (after_last b'.' table ≡ some name))
unfolding after_last
after_last-cases [] = inl (refl, refl)
after_last-cases (x ∷ s) = elim (after_last-cases s) [
  | inl (undotted, e) ↦ elim (Bool-cases (x == b'.')) [
    | inl dot ↦ inr ([], s, ground arith, undotted, ground arith)
    | inr other ↦ inl (ground arith, ground arith)
  ]
  | inr (keyspace, name, split, last, e) ↦
      let dotted : occurs b'.' s ≡ true = rw split (occurs-middle keyspace name) in
      inr (x ∷ keyspace, name, ap (◌∷◌ x) split, last, rw (dotted, after_last) e)
]

after_last-middle :
    (keyspace name : Text)
    → occurs b'.' name ≡ false
    → after_last b'.' (keyspace ++ (b'.' ∷ name)) ≡ some name
unfolding after_last
after_last-middle [] name h = ground arith
after_last-middle (k ∷ keyspace) name h =
    ground (arith, occurs-middle keyspace name, after_last-middle keyspace name h)

-- An entry that is a wildcard for the component `name`.
wildcard_of_name :
    (keyspace name pattern : Text)
    → occurs b'.' name ≡ false
    → wildcard_matches pattern (keyspace ++ (b'.' ∷ name)) ≡ text_eq pattern (b'*' ∷ b'.' ∷ name)
unfolding wildcard_matches text_eq
wildcard_of_name keyspace name [] h = refl
wildcard_of_name keyspace name (a ∷ []) h = ground arith
wildcard_of_name keyspace name (a ∷ b ∷ suffix) h =
    ground
      (arith, after_last-middle keyspace name h, text_eq_iff name suffix, text_eq_iff suffix name)

wildcard_undotted :
    (pattern table : Text) → after_last b'.' table ≡ none → wildcard_matches pattern table ≡ false
unfolding wildcard_matches
wildcard_undotted [] table h = refl
wildcard_undotted (a ∷ []) table h = refl
wildcard_undotted (a ∷ b ∷ suffix) table h = ground arith

any_wildcard-contains :
    (blacklist : List Text) (keyspace name : Text)
    → occurs b'.' name ≡ false
    → any_wildcard blacklist (keyspace ++ (b'.' ∷ name)) ≡ contains blacklist (b'*' ∷ b'.' ∷ name)
unfolding any_wildcard contains
any_wildcard-contains [] keyspace name h = refl
any_wildcard-contains (p ∷ ps) keyspace name h =
    ground (arith, wildcard_of_name keyspace name p h, any_wildcard-contains ps keyspace name h)

any_wildcard-undotted :
    (blacklist : List Text) (table : Text)
    → after_last b'.' table ≡ none
    → any_wildcard blacklist table ≡ false
unfolding any_wildcard
any_wildcard-undotted [] table h = refl
any_wildcard-undotted (p ∷ ps) table h =
    ground (arith, wildcard_undotted p table h, any_wildcard-undotted ps table h)

IsBlacklisted-sound :
    (blacklist : List Text) (table : Text)
    → (contains blacklist table || any_wildcard blacklist table) ≡ true
    → IsBlacklisted blacklist table
IsBlacklisted-sound blacklist table h = elim (Bool-cases (contains blacklist table)) [
  | inl listed ↦ inl listed
  | inr unlisted ↦ elim (after_last-cases table) [
    | inl (undotted, e) ↦ ground (arith, any_wildcard-undotted blacklist table e)
    | inr (keyspace, name, split, last, e) ↦ inr (
      keyspace,
      name,
      split,
      last,
      ground (arith, any_wildcard-contains blacklist keyspace name last),
    )
  ]
]

IsBlacklisted-complete :
    (blacklist : List Text) (table : Text)
    → IsBlacklisted blacklist table
    → (contains blacklist table || any_wildcard blacklist table) ≡ true
IsBlacklisted-complete blacklist table (inl listed) = rw listed
IsBlacklisted-complete blacklist table (inr (keyspace, name, split, last, listed)) =
    ground (arith, any_wildcard-contains blacklist keyspace name last)

-- The exact test and the wildcard loop together decide IsBlacklisted.
pub IsBlacklisted-iff :
    (blacklist : List Text) (table : Text)
    → ((contains blacklist table || any_wildcard blacklist table) ≡ true)
      ↔ IsBlacklisted blacklist table
IsBlacklisted-iff blacklist table =
    (IsBlacklisted-sound blacklist table, IsBlacklisted-complete blacklist table)
