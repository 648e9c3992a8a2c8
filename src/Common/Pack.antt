-- ===== src/Common/Pack.antt =====
-- Numbers packed side by side into one word: the bitwise or of disjoint fields is their sum.
use sofcheck.Common.{
  ℕ, zero, suc, ◌+◌, ◌*◌, ◌/◌, ◌%◌, ◌^◌, ◌<◌, ◌≡◌, ◌∙◌, bit_or, bit_and, u8, ◌<<<◌, arith,
}
use sofcheck.Common.Digits.{or_digit, and_digit}
use sofcheck.Common.Bits.{zero-bit_or, test_bit_ext, bit_laws}
use native.Mathlib.Nat.{pow-suc}

twice : (b q r : ℕ) → r ≡ q * 2 → b * r ≡ 2 * (b * q)
twice b q r e = rw e (grind arith)

pub bit_or-field : (k a b : ℕ) → a < 2 ^ k → bit_or a (b * 2 ^ k) ≡ a + b * 2 ^ k
bit_or-field zero a b lt =
    let none : a ≡ 0 = omega arith in rw none (omega (arith, zero-bit_or (b * 1)))
bit_or-field (suc k) a b lt =
    let half = bit_or-field k (a / 2) b (omega (arith, pow-suc 2 k)) in
    let p = twice b (2 ^ k) (2 ^ suc k) (pow-suc 2 k) in
    let e : 2 * (b * 2 ^ k) / 2 ≡ b * 2 ^ k = omega arith in
    rw p (or_digit a (2 * (b * 2 ^ k)) ∙ rw e (rw half (omega arith)))

-- Four bytes in a 32-bit word.
pub packed :
    (a b c d : ℕ)
    → bit_or (bit_or (bit_or (u8 a) (u8 b <<< 8)) (u8 c <<< 16)) (u8 d <<< 24)
      ≡ u8 a + u8 b * 2 ^ 8 + u8 c * 2 ^ 16 + u8 d * 2 ^ 24
packed a b c d = rw (bit_or-field 8 (u8 a) (u8 b) (omega arith)) (
    rw (bit_or-field 16 (u8 a + u8 b * 2 ^ 8) (u8 c) (omega arith))
      (bit_or-field 24 (u8 a + u8 b * 2 ^ 8 + u8 c * 2 ^ 16) (u8 d) (omega arith)))

pub bit_or_comm : (a b : ℕ) → bit_or a b ≡ bit_or b a
bit_or_comm a b = test_bit_ext _ _ λ i. simp bit_laws (ground arith)

bit_and-zero : (a : ℕ) → bit_and a 0 ≡ 0
bit_and-zero a = test_bit_ext _ _ λ i. simp bit_laws (ground arith)

pub bit_and-seven : (a : ℕ) → bit_and a 7 ≡ a % 8
bit_and-seven a = omega (
  arith,
  and_digit a 7,
  and_digit (a / 2) 3,
  and_digit (a / 2 / 2) 1,
  bit_and-zero (a / 2 / 2 / 2),
)
