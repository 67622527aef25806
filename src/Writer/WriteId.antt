-- ===== src/Writer/WriteId.antt =====
-- services/dual-writer/src/writer.cpp, generate_id: the id of a queued write. Its two random words
-- are the arguments, each below 2^64.
pub mod Laws
use scylla_cluster_sync_cxx.Prelude.{
  ℕ, zero, suc, ◌+◌, ◌-◌, ◌/◌, ◌%◌, ◌^◌, ◌≡◌, ◌<◌, [], ◌∷◌, ◌++◌, arith, ltb, ◌==◌, if◌then◌else◌,
  Text, length, length-append,
}

hex_digit : ℕ → ℕ
hex_digit d = if ltb d 10 then b'0' + d else b'a' + (d - 10)

-- `%0<width>x` of a number below 16 ^ width.
hex : ℕ → ℕ → Text
unfolding hex_digit
hex zero n = []
hex (suc width) n = hex width (n / 16) ++ (hex_digit (n % 16) ∷ [])

-- `n | 2 ^ k`
unfoldable pub or_bit : ℕ → ℕ → ℕ
or_bit k n = if n / 2 ^ k % 2 == 1 then n else n + 2 ^ k

unfoldable pub generate_id : ℕ → ℕ → Text
unfolding hex or_bit
generate_id hi lo =
    hex 8 (hi / 2 ^ 32 % 2 ^ 32)
    ++ (b'-' ∷ hex 4 (hi / 2 ^ 16 % 2 ^ 16)
        ++ (b'-' ∷ hex 4 (or_bit 14 (hi % 2 ^ 16))
            ++ (b'-' ∷ hex 4 (or_bit 15 (lo / 2 ^ 48)) ++ (b'-' ∷ hex 12 (lo % 2 ^ 48)))))

length-hex : (width n : ℕ) → length (hex width n) ≡ width
unfolding hex
length-hex zero n = omega arith
length-hex (suc width) n =
    omega (
      arith,
      length-hex width (n / 16),
      length-append (hex width (n / 16)) (hex_digit (n % 16) ∷ []),
    )

-- Two numbers of that width with the same digits are equal.
digit_inj : (a b : ℕ) → a < 16 → b < 16 → hex_digit a ≡ hex_digit b → a ≡ b
unfolding hex_digit
digit_inj a b ha hb h = ground arith
