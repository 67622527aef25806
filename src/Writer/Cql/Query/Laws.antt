-- ===== src/Writer/Cql/Query/Laws.antt =====
-- is_write_query against a description of what begins as a write that does not scan.
use scylla_cluster_sync_cxx.Prelude.{
  ℕ, ◌≤◌, ◌≡◌, refl, ap, ◌∙◌, ◌↔◌, ◌⊎◌, inl, inr, true, false, [], ◌∷◌, ◌++◌, map, Text, codes, All,
  Bool-cases, arith,
}
use scylla_cluster_sync_cxx.Writer.Cql.Query.{
  is_space, to_upper, skip_spaces, starts_with_ci, is_write_query,
}

abbrev pub IsSpace : ℕ → Type 0
IsSpace c = is_space c ≡ true

-- The text begins as a write statement does: behind any white space stand the letters INSERT, UPDATE
-- or DELETE, in any case. What follows them is arbitrary: the word need not end there.
abbrev pub BeginsAsWrite : Text → Type 0
BeginsAsWrite query =
    (spaces : Text) × (word : Text) × (rest : Text) × (query ≡ spaces ++ (word ++ rest))
    × All IsSpace spaces
    × ((map to_upper word ≡ codes "INSERT")
        ⊎ ((map to_upper word ≡ codes "UPDATE") ⊎ (map to_upper word ≡ codes "DELETE")))

-- What is skipped is white space, and what is left does not begin with it.
skip_spaces_split :
    (s : Text) → (spaces : Text) × (s ≡ spaces ++ skip_spaces s) × All IsSpace spaces
unfolding skip_spaces
skip_spaces_split [] = ([], refl, tt)
skip_spaces_split (c ∷ s) =
    let (spaces, split, all) = skip_spaces_split s in
    elim (Bool-cases (is_space c)) [
      | inl space ↦ (c ∷ spaces, ground arith, (space, all))
      | inr other ↦ ([], ground arith, tt)
    ]

pub skip_spaces-append :
    (spaces s : Text) → All IsSpace spaces → skip_spaces (spaces ++ s) ≡ skip_spaces s
unfolding skip_spaces
skip_spaces-append [] s h = refl
skip_spaces-append (c ∷ spaces) s h = ground (arith, skip_spaces-append spaces s h.1)

-- A text that begins with a word, in any case, splits at it.
ci_split :
    (s word : Text)
    → map to_upper word ≡ word
    → starts_with_ci s word ≡ true
    → (front : Text) × (rest : Text) × (s ≡ front ++ rest) × (map to_upper front ≡ word)
unfolding starts_with_ci
ci_split s [] up h = ([], s, refl, refl)
ci_split [] (p ∷ word) up h = cc
ci_split (c ∷ s) (p ∷ word) up h =
    let (front, rest, split, same) = ci_split s word (ground arith) (ground arith) in
    (c ∷ front, rest, ground arith, ground arith)

ci_prefix :
    (front rest word : Text)
    → map to_upper front ≡ word
    → map to_upper word ≡ word
    → starts_with_ci (front ++ rest) word ≡ true
unfolding starts_with_ci
ci_prefix [] rest [] e up = ground arith
ci_prefix [] rest (p ∷ word) e up = cc
ci_prefix (c ∷ front) rest [] e up = cc
ci_prefix (c ∷ front) rest (p ∷ word) e up = ground (arith, ci_prefix front rest word)

letter_not_space : (c : ℕ) → 65 ≤ to_upper c → is_space c ≡ false
unfolding to_upper is_space
letter_not_space c h = ground arith

-- A word of letters is not skipped.
skip_spaces_word :
    (word rest : Text) (k : ℕ) (w : Text)
    → map to_upper word ≡ k ∷ w
    → 65 ≤ k
    → skip_spaces (word ++ rest) ≡ word ++ rest
unfolding skip_spaces
skip_spaces_word [] rest k w e h = cc
skip_spaces_word (c ∷ word) rest k w e h =
    let upper : to_upper c ≡ k = cc in
    let visible = letter_not_space c (omega arith) in rw visible refl

BeginsAsWrite-sound : (query : Text) → is_write_query query ≡ true → BeginsAsWrite query
unfolding is_write_query
BeginsAsWrite-sound query h =
    let trimmed = skip_spaces query in
    let (spaces, split, all) = skip_spaces_split query in
    elim (Bool-cases (starts_with_ci trimmed (codes "INSERT"))) [
      | inl insert ↦
          let (front, rest, e, up) =
            ci_split trimmed (codes "INSERT") (unfold to_upper in refl) insert in
          (spaces, front, rest, split ∙ ap (◌++◌ spaces) e, all, inl up)
      | inr other ↦ elim (Bool-cases (starts_with_ci trimmed (codes "UPDATE"))) [
        | inl update ↦
            let (front, rest, e, up) =
              ci_split trimmed (codes "UPDATE") (unfold to_upper in refl) update in
            (spaces, front, rest, split ∙ ap (◌++◌ spaces) e, all, inr (inl up))
        | inr another ↦
            let delete : starts_with_ci trimmed (codes "DELETE") ≡ true = ground arith in
            let (front, rest, e, up) =
              ci_split trimmed (codes "DELETE") (unfold to_upper in refl) delete in
            (spaces, front, rest, split ∙ ap (◌++◌ spaces) e, all, inr (inr up))
      ]
    ]

trimmed_word :
    (spaces word rest : Text) (k : ℕ) (w : Text)
    → All IsSpace spaces
    → map to_upper word ≡ k ∷ w
    → 65 ≤ k
    → skip_spaces (spaces ++ (word ++ rest)) ≡ word ++ rest
trimmed_word spaces word rest k w all e h =
    skip_spaces-append spaces (word ++ rest) all ∙ skip_spaces_word word rest k w e h

BeginsAsWrite-complete : (query : Text) → BeginsAsWrite query → is_write_query query ≡ true
unfolding is_write_query
BeginsAsWrite-complete query (spaces, word, rest, split, all, inl up) =
    let trim = trimmed_word spaces word rest _ _ all up (omega arith) in
    let hit = ci_prefix word rest (codes "INSERT") up (unfold to_upper in refl) in
    rw (split, is_write_query, trim) (ground arith)
BeginsAsWrite-complete query (spaces, word, rest, split, all, inr (inl up)) =
    let trim = trimmed_word spaces word rest _ _ all up (omega arith) in
    let hit = ci_prefix word rest (codes "UPDATE") up (unfold to_upper in refl) in
    rw (split, is_write_query, trim) (ground arith)
BeginsAsWrite-complete query (spaces, word, rest, split, all, inr (inr up)) =
    let trim = trimmed_word spaces word rest _ _ all up (omega arith) in
    let hit = ci_prefix word rest (codes "DELETE") up (unfold to_upper in refl) in
    rw (split, is_write_query, trim) (ground arith)

-- A query is intercepted exactly when the letters INSERT, UPDATE or DELETE, in any case, stand behind
-- any white space at its beginning, whatever follows them: a longer word that begins so, as INSERTED,
-- counts too.
pub is_write_query_iff : (query : Text) → (is_write_query query ≡ true) ↔ BeginsAsWrite query
is_write_query_iff query = (BeginsAsWrite-sound query, BeginsAsWrite-complete query)
