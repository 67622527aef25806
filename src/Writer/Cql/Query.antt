-- ===== src/Writer/Cql/Query.antt =====
-- services/dual-writer/src/cql_server.cpp: which queries are writes, and the table that they name.
-- Characters are ASCII codes, classified as in the C locale.
pub mod Laws
pub mod Target
use scylla_cluster_sync_cxx.Prelude.{
  ℕ, ◌+◌, ◌-◌, Bool, true, false, ◌&&◌, ◌||◌, Option, none, some, List, [], ◌∷◌, map, leb, ◌==◌,
  if◌then◌else◌, drop, Text, codes,
}

unfoldable pub is_space : ℕ → Bool
is_space c = c == 32 || (leb 9 c && leb c 13)

unfoldable pub to_upper : ℕ → ℕ
to_upper c = if leb b'a' c && leb c b'z' then c - 32 else c

unfoldable pub skip_spaces : Text → Text
unfolding is_space
skip_spaces [] = []
skip_spaces (c ∷ s) = if is_space c then skip_spaces s else c ∷ s

unfoldable pub starts_with_ci : Text → Text → Bool
unfolding to_upper
starts_with_ci s [] = true
starts_with_ci [] (p ∷ prefix) = false
starts_with_ci (c ∷ s) (p ∷ prefix) = to_upper c == to_upper p && starts_with_ci s prefix

unfoldable pub is_write_query : Text → Bool
unfolding skip_spaces starts_with_ci
is_write_query query =
    let trimmed = skip_spaces query in
    starts_with_ci trimmed (codes "INSERT")
    || (starts_with_ci trimmed (codes "UPDATE") || starts_with_ci trimmed (codes "DELETE"))

unfoldable pub starts_with : Text → Text → Bool
starts_with s [] = true
starts_with [] (p ∷ prefix) = false
starts_with (c ∷ s) (p ∷ prefix) = c == p && starts_with s prefix

-- `text.find(word)`: the position of the first occurrence, `none` for npos.
unfoldable pub find_word : Text → Text → Option ℕ
unfolding starts_with
find_word word [] = if starts_with [] word then some 0 else none
find_word word (c ∷ s) =
    let later = find_word word s in
    if starts_with (c ∷ s) word then some 0 else elim later [ none ↦ none | some i ↦ some (i + 1) ]

-- The position behind the keyword that is taken for the one before the table.
unfoldable pub keyword_end : Text → Option ℕ
unfolding find_word
keyword_end upper = elim (find_word (codes "INTO") upper) [
  | some i ↦ some (i + 4)
  | none ↦ elim (find_word (codes "UPDATE") upper) [
    | some i ↦ some (i + 6)
    | none ↦ elim (find_word (codes "FROM") upper) [ some i ↦ some (i + 4) | none ↦ none ]
  ]
]

-- The characters that end a table name.
unfoldable pub ends_token : ℕ → Bool
unfolding is_space
ends_token c = is_space c || (c == b'(' || c == b';')

unfoldable pub take_token : Text → Text
unfolding ends_token
take_token [] = []
take_token (c ∷ s) = if ends_token c then [] else c ∷ take_token s

unfoldable pub extract_table_target : Text → Text
unfolding keyword_end skip_spaces take_token
extract_table_target query = elim (keyword_end (map to_upper query)) [
  | none ↦ codes "unknown"
  | some i ↦ take_token (skip_spaces (drop i query))
]
