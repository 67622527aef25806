-- ===== src/Writer/Cql/Query/Target.antt =====
-- Which table extract_table_target names.
use mathlib.Core.List.{map-append}
use scylla_cluster_sync_cxx.Prelude.{
  ℕ, ◌+◌, ◌≡◌, refl, sym, ap, ◌∙◌, ◌⊎◌, inl, inr, Bool, true, false, none, some, [], ◌∷◌, ◌++◌, map,
  arith, Text, codes, All, length, drop, drop-length_append, length-map, drop_beyond,
}
use scylla_cluster_sync_cxx.Writer.Cql.Query.{
  is_space, to_upper, skip_spaces, find_word, keyword_end, ends_token, take_token,
  extract_table_target,
}
use scylla_cluster_sync_cxx.Writer.Cql.Query.Laws.{IsSpace, skip_spaces-append}

-- A character that may stand in a table name.
abbrev pub IsNameChar : ℕ → Type 0
IsNameChar c = ends_token c ≡ false

-- The name ends where the text ends, or at white space, a parenthesis or a semicolon.
abbrev pub ends_here : Text → Bool
ends_here [] = true
ends_here (c ∷ s) = ends_token c

-- Shapes of statements with the name of a table: INSERT INTO, UPDATE, and DELETE FROM, in any case.
-- An UPDATE must not hold the letters INTO in a row anywhere, not even inside a name, and a DELETE
-- neither INTO nor UPDATE.
abbrev pub NamesTable : Text → Text → Type 0
NamesTable query name =
    (front : Text) × (keyword : Text) × (spaces : Text) × (rest : Text) × (query
      ≡ front ++ (keyword ++ (spaces ++ (name ++ rest))))
    × All IsSpace spaces
    × (ends_here rest ≡ true)
    × (((map to_upper front ≡ codes "INSERT ") × (map to_upper keyword ≡ codes "INTO"))
        ⊎ (((map to_upper front ≡ [])
              × (map to_upper keyword ≡ codes "UPDATE")
              × (find_word (codes "INTO") (map to_upper query) ≡ none))
            ⊎ ((map to_upper front ≡ codes "DELETE ")
                × (map to_upper keyword ≡ codes "FROM")
                × (find_word (codes "INTO") (map to_upper query) ≡ none)
                × (find_word (codes "UPDATE") (map to_upper query) ≡ none))))

name_s : IsNameChar b's'
unfolding ends_token
name_s = refl

take_token_name :
    (name rest : Text)
    → All IsNameChar name
    → ends_here rest ≡ true
    → take_token (name ++ rest) ≡ name
unfolding take_token
take_token_name [] [] h e = refl
take_token_name [] (c ∷ rest) h e = rw e refl
take_token_name (c ∷ name) rest h e = rw h.0 (ap (◌∷◌ c) (take_token_name name rest h.1 e))

name_not_space : (c : ℕ) → IsNameChar c → is_space c ≡ false
unfolding ends_token
name_not_space c h = ground arith

token_behind :
    (spaces : Text) (c : ℕ) (name rest : Text)
    → All IsSpace spaces
    → All IsNameChar (c ∷ name)
    → ends_here rest ≡ true
    → take_token (skip_spaces (spaces ++ ((c ∷ name) ++ rest))) ≡ c ∷ name
unfolding skip_spaces
token_behind spaces c name rest all h e =
    let visible = name_not_space c h.0 in
    let stays : skip_spaces (c ∷ (name ++ rest)) ≡ c ∷ (name ++ rest) = rw visible refl in
    ap take_token (skip_spaces-append spaces ((c ∷ name) ++ rest) all ∙ stays)
    ∙ take_token_name (c ∷ name) rest h e

length_of_upper : (s t : Text) → map to_upper s ≡ t → length s ≡ length t
length_of_upper s t e = sym (length-map s to_upper) ∙ ap length e

-- Behind the keyword stands what follows it.
drop_keyword :
    (front keyword tail f k : Text)
    → map to_upper front ≡ f
    → map to_upper keyword ≡ k
    → drop (length f + length k) (front ++ (keyword ++ tail)) ≡ tail
drop_keyword front keyword tail f k ef ek =
    let a : length f ≡ length front = sym (length_of_upper front f ef) in
    let b : length k ≡ length keyword = sym (length_of_upper keyword k ek) in
    rw (a, b)
      (drop_beyond front (keyword ++ tail) (length keyword) ∙ drop-length_append keyword tail)

upper_split :
    (front keyword tail f k : Text)
    → map to_upper front ≡ f
    → map to_upper keyword ≡ k
    → map to_upper (front ++ (keyword ++ tail)) ≡ f ++ (k ++ map to_upper tail)
upper_split front keyword tail f k ef ek = simp (map-append, ef, ek)

into_at :
    (tail : Text) → find_word (codes "INTO") (codes "INSERT " ++ (codes "INTO" ++ tail)) ≡ some 7
unfolding find_word
into_at tail = refl

update_at : (tail : Text) → find_word (codes "UPDATE") (codes "UPDATE" ++ tail) ≡ some 0
unfolding find_word
update_at tail = refl

from_at :
    (tail : Text) → find_word (codes "FROM") (codes "DELETE " ++ (codes "FROM" ++ tail)) ≡ some 7
unfolding find_word
from_at tail = refl

extract_at :
    (query : Text) (i : ℕ)
    → keyword_end (map to_upper query) ≡ some i
    → extract_table_target query ≡ take_token (skip_spaces (drop i query))
unfolding extract_table_target
extract_at query i e = rw (e, extract_table_target) refl

end_into : (u : Text) (i : ℕ) → find_word (codes "INTO") u ≡ some i → keyword_end u ≡ some (i + 4)
unfolding keyword_end
end_into u i e = rw (e, keyword_end) refl

end_update :
    (u : Text) (i : ℕ)
    → find_word (codes "INTO") u ≡ none
    → find_word (codes "UPDATE") u ≡ some i
    → keyword_end u ≡ some (i + 6)
unfolding keyword_end
end_update u i a b = rw (a, keyword_end, b) refl

end_from :
    (u : Text) (i : ℕ)
    → find_word (codes "INTO") u ≡ none
    → find_word (codes "UPDATE") u ≡ none
    → find_word (codes "FROM") u ≡ some i
    → keyword_end u ≡ some (i + 4)
unfolding keyword_end
end_from u i a b c = rw (a, keyword_end, b, c) refl

-- The keyword's end for each shape.
names_keyword :
    (query : Text) (c : ℕ) (name : Text) (named : NamesTable query (c ∷ name))
    → (i : ℕ) × (keyword_end (map to_upper query) ≡ some i)
      × (drop i query ≡ named.2 ++ ((c ∷ name) ++ named.3))
names_keyword query c name (front, keyword, spaces, rest, split, all, e, inl (ef, ek)) =
    let tail = spaces ++ ((c ∷ name) ++ rest) in
    let up = ap (map to_upper) split ∙ upper_split front keyword tail _ _ ef ek in
    (
      11,
      end_into (map to_upper query) 7 (rw up (into_at (map to_upper tail))),
      rw split (drop_keyword front keyword tail _ _ ef ek),
    )
names_keyword query c name
      (front, keyword, spaces, rest, split, all, e, inr (inl (ef, ek, no_into))) =
    let tail = spaces ++ ((c ∷ name) ++ rest) in
    let up = ap (map to_upper) split ∙ upper_split front keyword tail _ _ ef ek in
    (
      6,
      end_update (map to_upper query) 0 no_into (rw up (update_at (map to_upper tail))),
      rw split (drop_keyword front keyword tail _ _ ef ek),
    )
names_keyword query c name
      (front, keyword, spaces, rest, split, all, e, inr (inr (ef, ek, no_into, no_update))) =
    let tail = spaces ++ ((c ∷ name) ++ rest) in
    let up = ap (map to_upper) split ∙ upper_split front keyword tail _ _ ef ek in
    (
      11,
      end_from (map to_upper query) 7 no_into no_update (rw up (from_at (map to_upper tail))),
      rw split (drop_keyword front keyword tail _ _ ef ek),
    )

-- The name that follows INSERT INTO, UPDATE or DELETE FROM is extracted, in any case of the keywords
-- and up to its end, unless an UPDATE holds the letters INTO, or a DELETE the letters INTO or UPDATE,
-- in a row and in any case, be it inside a name: a table "pinto" breaks the condition.
pub extract_table_target_named :
    (query : Text) (c : ℕ) (name : Text)
    → All IsNameChar (c ∷ name)
    → NamesTable query (c ∷ name)
    → extract_table_target query ≡ c ∷ name
extract_table_target_named query c name chars (front, keyword, spaces, rest, split, all, e, shape) =
    let (i, end, tail) =
      names_keyword query c name (front, keyword, spaces, rest, split, all, e, shape) in
    extract_at query i end
    ∙ ap (λ s. take_token (skip_spaces s)) tail
    ∙ token_behind spaces c name rest all chars e

-- The letters UPDATE are looked for in the whole statement: where "updates" stands as a whole name, and
-- the statement holds no INTO and no UPDATE before that name, it is taken for a write to a table "s".
pub extract_table_target_misled :
    (front rest : Text)
    → find_word (codes "INTO") (map to_upper (front ++ (codes "updates" ++ rest))) ≡ none
    → find_word (codes "UPDATE") (map to_upper (front ++ (codes "updates" ++ rest)))
      ≡ some (length front)
    → ends_here rest ≡ true
    → extract_table_target (front ++ (codes "updates" ++ rest)) ≡ codes "s"
extract_table_target_misled front rest no_into update e =
    let query = front ++ (codes "updates" ++ rest) in
    extract_at query (length front + 6)
      (end_update (map to_upper query) (length front) no_into update)
    ∙ ap (λ s. take_token (skip_spaces s)) (drop_beyond front (codes "updates" ++ rest) 6)
    ∙ token_behind [] b's' [] rest tt (name_s, tt) e
