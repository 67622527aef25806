-- ===== src/Writer/WriteId/Laws.antt =====
-- Which ids of generate_id are equal (services/dual-writer/src/writer.cpp).
use scylla_cluster_sync_cxx.Prelude.{
  ◌↔◌, ℕ, zero, suc, ◌/◌, ◌%◌, ◌^◌, ◌≡◌, ◌<◌, refl, [], ◌∷◌, ◌++◌, arith, Text, length,
}
use scylla_cluster_sync_cxx.Writer.WriteId.{hex, or_bit, generate_id, length-hex, digit_inj}

append_inj :
    (xs ys us vs : Text) → length xs ≡ length ys → xs ++ us ≡ ys ++ vs → (xs ≡ ys) × (us ≡ vs)
append_inj [] [] us vs l h = (refl, h)
append_inj [] (y ∷ ys) us vs l h = absurd (omega arith)
append_inj (x ∷ xs) [] us vs l h = absurd (omega arith)
append_inj (x ∷ xs) (y ∷ ys) us vs l h =
    let (same, rest) = append_inj xs ys us vs (omega arith) cc in
    let first : x ≡ y = cc in (cc, rest)

-- Numbers that have the digits for it are printed apart.
hex_inj : (width a b : ℕ) → a < 16 ^ width → b < 16 ^ width → hex width a ≡ hex width b → a ≡ b
unfolding hex
hex_inj zero a b ha hb h = omega arith
hex_inj (suc width) a b ha hb h =
    let (high, low) =
      append_inj (hex width (a / 16)) (hex width (b / 16)) _ _
        (omega (arith, length-hex width (a / 16), length-hex width (b / 16))) h in
    let digits = digit_inj (a % 16) (b % 16) (omega arith) (omega arith) cc in
    let rest = hex_inj width (a / 16) (b / 16) (omega arith) (omega arith) high in omega arith

or_14_bound : (n : ℕ) → n < 2 ^ 16 → or_bit 14 n < 16 ^ 4
unfolding or_bit
or_14_bound n h = ground arith

or_15_bound : (n : ℕ) → n < 2 ^ 16 → or_bit 15 n < 16 ^ 4
unfolding or_bit
or_15_bound n h = ground arith

-- Two ids that begin with equally many digits agree in them, and behind the dash that follows.
group_inj :
    (width a b : ℕ) (us vs : Text)
    → a < 16 ^ width
    → b < 16 ^ width
    → hex width a ++ (b'-' ∷ us) ≡ hex width b ++ (b'-' ∷ vs)
    → (a ≡ b) × (us ≡ vs)
group_inj width a b us vs ha hb h =
    let (digits, rest) =
      append_inj (hex width a) (hex width b) (b'-' ∷ us) (b'-' ∷ vs)
        (omega (arith, length-hex width a, length-hex width b)) h in
    (hex_inj width a b ha hb digits, cc)

-- The random words agree, but for the two bits that are always set.
abbrev pub SameWords : ℕ → ℕ → ℕ → ℕ → Type 0
SameWords hi lo hi' lo' =
    (hi / 2 ^ 16 ≡ hi' / 2 ^ 16)
    × (or_bit 14 (hi % 2 ^ 16) ≡ or_bit 14 (hi' % 2 ^ 16))
    × (or_bit 15 (lo / 2 ^ 48) ≡ or_bit 15 (lo' / 2 ^ 48))
    × (lo % 2 ^ 48 ≡ lo' % 2 ^ 48)

same_words :
    (hi lo hi' lo' : ℕ)
    → hi < 2 ^ 64
    → lo < 2 ^ 64
    → hi' < 2 ^ 64
    → lo' < 2 ^ 64
    → generate_id hi lo ≡ generate_id hi' lo'
    → SameWords hi lo hi' lo'
unfolding generate_id
same_words hi lo hi' lo' hh hl hh' hl' h =
    let (first, h1) =
      group_inj 8 (hi / 2 ^ 32 % 2 ^ 32) (hi' / 2 ^ 32 % 2 ^ 32) _ _ (omega arith) (omega arith)
        h in
    let (second, h2) =
      group_inj 4 (hi / 2 ^ 16 % 2 ^ 16) (hi' / 2 ^ 16 % 2 ^ 16) _ _ (omega arith) (omega arith)
        h1 in
    let (third, h3) =
      group_inj 4 (or_bit 14 (hi % 2 ^ 16)) (or_bit 14 (hi' % 2 ^ 16)) _ _
        (or_14_bound (hi % 2 ^ 16) (omega arith)) (or_14_bound (hi' % 2 ^ 16) (omega arith)) h2 in
    let (fourth, h4) =
      group_inj 4 (or_bit 15 (lo / 2 ^ 48)) (or_bit 15 (lo' / 2 ^ 48)) _ _
        (or_15_bound (lo / 2 ^ 48) (omega arith)) (or_15_bound (lo' / 2 ^ 48) (omega arith)) h3 in
    (
      omega arith,
      third,
      fourth,
      hex_inj 12 (lo % 2 ^ 48) (lo' % 2 ^ 48) (omega arith) (omega arith) h4,
    )

same_ids : (hi lo hi' lo' : ℕ) → SameWords hi lo hi' lo' → generate_id hi lo ≡ generate_id hi' lo'
unfolding generate_id
same_ids hi lo hi' lo' (a, b, c, d) =
    let first : hi / 2 ^ 32 % 2 ^ 32 ≡ hi' / 2 ^ 32 % 2 ^ 32 = omega arith in
    let second : hi / 2 ^ 16 % 2 ^ 16 ≡ hi' / 2 ^ 16 % 2 ^ 16 = omega arith in
    λ i.
      hex 8 (first i)
      ++ (b'-' ∷ hex 4 (second i)
          ++ (b'-' ∷ hex 4 (b i) ++ (b'-' ∷ hex 4 (c i) ++ (b'-' ∷ hex 12 (d i)))))

-- Two ids are equal exactly if the random words agree, but for bit 14 of the first and bit 63 of the
-- second, which are always set, where each word has 64 bits.
pub generate_id_iff :
    (hi lo hi' lo' : ℕ)
    → hi < 2 ^ 64
    → lo < 2 ^ 64
    → hi' < 2 ^ 64
    → lo' < 2 ^ 64
    → (generate_id hi lo ≡ generate_id hi' lo') ↔ SameWords hi lo hi' lo'
generate_id_iff hi lo hi' lo' hh hl hh' hl' =
    (same_words hi lo hi' lo' hh hl hh' hl', same_ids hi lo hi' lo')

-- An id has 36 characters, and so fits the buffer of 40 with the zero behind it.
length-generate_id : (hi lo : ℕ) → length (generate_id hi lo) ≡ 36
unfolding generate_id
length-generate_id hi lo = refl
