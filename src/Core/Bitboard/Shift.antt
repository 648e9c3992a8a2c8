-- ===== src/Core/Bitboard/Shift.antt =====
-- The digits of shifted words, and where each pawn comes from when all move at once.
use sofcheck.Common.{
  ℕ, zero, suc, ◌+◌, ◌-◌, ◌*◌, ◌/◌, ◌%◌, ◌^◌, ◌<◌, ◌≤◌, ◌≡◌, ◌∙◌, refl, sym, ap, true, false, ◌&&◌,
  ltb, leb, arith, u64, ◌<<<◌, ◌>>>◌, sub8, bit_and, bit_not, read,
}
use sofcheck.Common.Bits.{test_bit, test_bit-zero, test_bit_above, bit_and_lt}
use sofcheck.Core.Types.{Color, white, black}
use sofcheck.Core.Geometry.{pawn_forward_delta, pawn_left_delta, pawn_right_delta}
use sofcheck.Core.Bitboard.{advance_pawn_forward, advance_pawn_left, advance_pawn_right, bb_col}
use native.Mathlib.Nat.{pow-suc, mul_comm, div-div-eq-div-mul, div-add-mod}

shift_suc : (k x : ℕ) → x / 2 ^ suc k ≡ x / 2 / 2 ^ k
shift_suc k x = ap (λ p. x / p) (pow-suc 2 k ∙ mul_comm _ _) ∙ sym (div-div-eq-div-mul x 2 (2 ^ k))

pub test_bit-shift_right : (k x i : ℕ) → test_bit (x >>> k) i ≡ test_bit x (k + i)
unfolding test_bit
test_bit-shift_right zero x i =
    let e : x / 2 ^ 0 ≡ x = omega arith in let f : 0 + i ≡ i = omega arith in rw (e, f) refl
test_bit-shift_right (suc k) x i =
    let f : suc k + i ≡ suc (k + i) = omega arith in
    rw (shift_suc k x, f) (test_bit-shift_right k (x / 2) i)

pub test_bit-shift_left : (k x i : ℕ) → test_bit (x <<< k) i ≡ (leb k i && test_bit x (i - k))
unfolding test_bit
test_bit-shift_left zero x i =
    let e : x * 2 ^ 0 ≡ x = omega arith in
    let f : i - 0 ≡ i = omega arith in rw (e, f) (ground arith)
test_bit-shift_left (suc k) x zero =
    let even : x * 2 ^ suc k % 2 ≡ 0 = omega (arith, ap (λ p. x * p) (pow-suc 2 k)) in
    let no : leb (suc k) 0 ≡ false = ground arith in rw (even, no) refl
test_bit-shift_left (suc k) x (suc i) =
    let e : x * 2 ^ suc k / 2 ≡ x * 2 ^ k = omega (arith, ap (λ p. x * p) (pow-suc 2 k)) in
    let f : suc i - suc k ≡ i - k = omega arith in
    rw (e, f) (test_bit-shift_left k x i ∙ ground arith)

mod_suc : (k x : ℕ) → x % 2 ^ suc k ≡ x % 2 + 2 * (x / 2 % 2 ^ k)
mod_suc k x = omega (
  arith,
  div-add-mod x (2 ^ suc k),
  div-add-mod (x / 2) (2 ^ k),
  shift_suc k x,
  ap (λ q. 2 ^ suc k * q) (shift_suc k x),
  pow-suc 2 k,
  ap (λ p. p * (x / 2 / 2 ^ k)) (pow-suc 2 k),
)

pub test_bit-mod : (k x i : ℕ) → test_bit (x % 2 ^ k) i ≡ (ltb i k && test_bit x i)
unfolding test_bit
test_bit-mod zero x i = let e : x % 2 ^ 0 ≡ 0 = omega arith in rw e (test_bit-zero i ∙ ground arith)
test_bit-mod (suc k) x zero = ground (arith, mod_suc k x)
test_bit-mod (suc k) x (suc i) =
    let e : x % 2 ^ suc k / 2 ≡ x / 2 % 2 ^ k = omega (arith, mod_suc k x) in
    rw e (test_bit-mod k (x / 2) i ∙ ground arith)

-- Where a bit of a shifted word of 64 bits comes from.
module _ (x k i : ℕ) (lt : x < 2 ^ 64) (k_lt : k < 64) where
  from_above : test_bit (x >>> k) i ≡ true → (i < 64) × (test_bit x (sub8 i (256 - k)) ≡ true)
  from_above h =
      let was : test_bit x (k + i) ≡ true = sym (test_bit-shift_right k x i) ∙ h in
      let below : k + i < 64 = ground (arith, test_bit_above 64 (k + i) x lt) in
      let same : sub8 i (256 - k) ≡ k + i = omega arith in (omega arith, rw same was)

  from_below : test_bit (u64 (x <<< k)) i ≡ true → (i < 64) × (test_bit x (sub8 i k) ≡ true)
  from_below h =
      let bits = test_bit-mod 64 (x <<< k) i in
      let shifted = test_bit-shift_left k x i in
      let less : i < 64 = ground arith in
      let le : k ≤ i = ground arith in
      let was : test_bit x (i - k) ≡ true = ground arith in
      let same : sub8 i k ≡ i - k = omega arith in (less, rw same was)

-- Each pawn of the result stood one step back.
pub advance_pawn_forward-src :
    (c : Color) (x i : ℕ)
    → x < 2 ^ 64
    → test_bit (advance_pawn_forward c x) i ≡ true
    → (i < 64) × (test_bit x (sub8 i (pawn_forward_delta c)) ≡ true)
unfolding advance_pawn_forward
advance_pawn_forward-src white x i lt h = from_above x 8 i lt (omega arith) h
advance_pawn_forward-src black x i lt h = from_below x 8 i lt (omega arith) h

-- Captures to the left start from the other columns than the first, those to the right from the
-- other columns than the last.
pub advance_pawn_left-src :
    (c : Color) (x i : ℕ)
    → x < 2 ^ 64
    → test_bit (advance_pawn_left c x) i ≡ true
    → (i < 64)
      × (test_bit (bit_and x (bit_not (read bb_col 0))) (sub8 i (pawn_left_delta c)) ≡ true)
unfolding advance_pawn_left
advance_pawn_left-src white x i lt h = from_above _ 9 i (bit_and_lt 64 x _ lt) (omega arith) h
advance_pawn_left-src black x i lt h = from_below _ 7 i (bit_and_lt 64 x _ lt) (omega arith) h

pub advance_pawn_right-src :
    (c : Color) (x i : ℕ)
    → x < 2 ^ 64
    → test_bit (advance_pawn_right c x) i ≡ true
    → (i < 64)
      × (test_bit (bit_and x (bit_not (read bb_col 7))) (sub8 i (pawn_right_delta c)) ≡ true)
unfolding advance_pawn_right
advance_pawn_right-src white x i lt h = from_above _ 7 i (bit_and_lt 64 x _ lt) (omega arith) h
advance_pawn_right-src black x i lt h = from_below _ 9 i (bit_and_lt 64 x _ lt) (omega arith) h
