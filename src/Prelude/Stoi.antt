-- ===== src/Prelude/Stoi.antt =====
-- std::stoi: white space, a sign, and the longest run of decimal digits; the rest is ignored. `none`
-- stands for its exceptions: no digit, or a number that does not fit an int.
use scylla_cluster_sync_cxx.Prelude.{
  ℕ, zero, suc, ◌+◌, ◌-◌, ◌*◌, ◌^◌, ◌<◌, ◌%◌, Bool, ◌&&◌, ◌||◌, ◌==◌, Option, none, some, [], ◌∷◌,
  leb, if◌then◌else◌, Text, arith,
}
use scylla_cluster_sync_cxx.Prelude.Int.{ℤ, pos, negsuc}

is_digit : ℕ → Bool
is_digit c = leb b'0' c && leb c b'9'

is_space : ℕ → Bool
is_space c = c == 32 || leb 9 c && leb c 13

-- The value of the digits at the front, behind the value read so far, if there are any.
unfoldable pub digits : Option ℕ → Text → Option ℕ
unfolding is_digit
digits read [] = read
digits read (c ∷ s) =
    let more = digits (some (elim read [ none ↦ 0 | some n ↦ n ] * 10 + (c - b'0'))) s in
    if is_digit c then more else read

-- The digits behind the sign, within the int that has `bound` as its largest size on this side.
bounded : ℕ → Text → Option ℕ
unfolding digits
bounded bound s = elim (digits none s) [
  | none ↦ none
  | some n ↦ if leb n bound then some n else none
]

negated : ℕ → ℤ
negated zero = pos 0
negated (suc n) = negsuc n

signed : Text → Option ℤ
unfolding bounded negated
signed [] = none
signed (c ∷ s) =
    if c == b'-'
    then elim (bounded (2 ^ 31) s) [ none ↦ none | some n ↦ some (negated n) ]
    else if c == b'+'
    then elim (bounded (2 ^ 31 - 1) s) [ none ↦ none | some n ↦ some (pos n) ]
    else elim (bounded (2 ^ 31 - 1) (c ∷ s)) [ none ↦ none | some n ↦ some (pos n) ]

unfoldable pub stoi : Text → Option ℤ
unfolding is_space signed
stoi [] = none
stoi (c ∷ s) = let rest = stoi s in if is_space c then rest else signed (c ∷ s)

-- `static_cast<uint16_t>` of an int.
unfoldable pub to_u16 : ℤ → ℕ
to_u16 (pos n) = n % 2 ^ 16
to_u16 (negsuc n) = 2 ^ 16 - 1 - n % 2 ^ 16

pub to_u16_bound : (i : ℤ) → to_u16 i < 2 ^ 16
unfolding to_u16
to_u16_bound (pos n) = omega arith
to_u16_bound (negsuc n) = omega arith
