-- ===== src/Util/Bit/Lowest.antt =====
-- `getLowest` finds the lowest set bit, and `clearLowest` clears it.
use sofcheck.Common.{
  ℕ, zero, suc, ◌-◌, ◌^◌, ◌/◌, ◌%◌, ◌<◌, ◌≡◌, ◌≢◌, ◌∙◌, refl, sym, ap, true, false, not, ◌&&◌, xor,
  ltb, ◌==◌, Bool-cases, inl, inr, bit_xor, read, arith, ==_iff, all_to, all_to_sound,
}
use native.Mathlib.Nat.{pow-suc, one-le-pow}
use sofcheck.Common.Digits.{xor_digit}
use sofcheck.Common.Bits.{
  test_bit, test_bit-zero, test_bit_mask, test_bit_ext, test_bit-xor, test_bit-and, bit_laws,
  bit_xor_self,
}
use sofcheck.Util.Bit.{clear_lowest, get_lowest, de_bruijn, lowest_index}

-- The position k is the lowest set bit of x.
pub record IsLowest (x k : ℕ) : Type 0 where
  pub is_set : test_bit x k ≡ true
  pub none_below : (i : ℕ) → i < k → test_bit x i ≡ false

half_zero : (k y : ℕ) → y ≡ 0 → test_bit y k ≢ true
half_zero k y e h = ground (arith, test_bit-zero k, ap (λ z. test_bit z k) e)

-- Where the lowest bit is, x ^ (x - 1) has the bits up to it.
xor_pred : (k x : ℕ) → IsLowest x k → bit_xor x (x - 1) ≡ 2 ^ suc k - 1
unfolding test_bit
xor_pred zero x h =
    let odd : x % 2 ≡ 1 = ground (arith, h.is_set) in
    let same : (x - 1) / 2 ≡ x / 2 = omega arith in
    xor_digit x (x - 1) ∙ rw (same, bit_xor_self (x / 2)) (omega (arith, odd))
xor_pred (suc k) x h =
    let even : x % 2 ≡ 0 = ground (arith, h.none_below 0) in
    let half =
      xor_pred k (x / 2)
        (record { is_set = h.is_set; none_below = λ i lt. h.none_below (suc i) (omega arith) }) in
    let some : x / 2 ≢ 0 = λ e. half_zero k (x / 2) e h.is_set in
    let same : (x - 1) / 2 ≡ x / 2 - 1 = omega arith in
    xor_digit x (x - 1)
    ∙ rw (same, half) (omega (arith, pow-suc 2 (suc k), pow-suc 2 k, one-le-pow k 2, some))

-- The table has an entry for each position.
table : all_to 64 (λ k. de_bruijn (2 ^ suc k - 1) == k) ≡ true
unfolding all_to de_bruijn lowest_index read
table = refl

-- For a word whose lowest set bit is below 64, the multiplication and the table give its position.
pub get_lowest_lem : (x k : ℕ) → IsLowest x k → k < 64 → get_lowest x ≡ k
unfolding get_lowest
get_lowest_lem x k h lt =
    ap de_bruijn (xor_pred k x h) ∙ (==_iff _ k).0 (all_to_sound 64 _ k table lt)

below :
    (x k : ℕ)
    → (x % 2 == 1) ≡ false
    → IsLowest (x / 2) k
    → (i : ℕ) → i < suc k
    → test_bit x i ≡ false
unfolding test_bit
below x k even h zero lt = even
below x k even h (suc i) lt = h.none_below i (omega arith)

-- The search for the lowest bit of a number that is not 0.
pub some-IsLowest : (n x : ℕ) → x ≢ 0 → x < 2 ^ n → (k : ℕ) × (k < n) × IsLowest x k
unfolding test_bit
some-IsLowest zero x ne lt = absurd (omega arith)
some-IsLowest (suc n) x ne lt = elim (Bool-cases (x % 2 == 1)) [
  | inl odd ↦ (0, omega arith, record { is_set = odd; none_below = λ i lt. absurd (omega arith) })
  | inr even ↦
      let zero_bit : x % 2 ≡ 0 = ground arith in
      let (k, less, h) = some-IsLowest n (x / 2) (omega arith) (omega (arith, pow-suc 2 n)) in
      (suc k, omega arith, record { is_set = h.is_set; none_below = λ i le. below x k even h i le })
]

pred-xor : (x : ℕ) → bit_xor x (bit_xor x (x - 1)) ≡ x - 1
pred-xor x = test_bit_ext _ _ λ i. simp bit_laws (ground arith)

pred_bits :
    (x k : ℕ) → IsLowest x k → (i : ℕ) → test_bit (x - 1) i ≡ xor (test_bit x i) (ltb i (suc k))
pred_bits x k h i =
    ap (λ y. test_bit y i) (sym (pred-xor x) ∙ ap (bit_xor x) (xor_pred k x h))
    ∙ test_bit-xor i x (2 ^ suc k - 1)
    ∙ ap (xor (test_bit x i)) (test_bit_mask (suc k) i)

-- `clearLowest` clears the lowest bit and no other.
pub test_bit-clear_lowest :
    (x k : ℕ)
    → IsLowest x k
    → (i : ℕ) → test_bit (clear_lowest x) i ≡ (test_bit x i && not (i == k))
unfolding clear_lowest
test_bit-clear_lowest x k h i =
    test_bit-and i x (x - 1) ∙ ground (arith, pred_bits x k h i, h.is_set, h.none_below i)
