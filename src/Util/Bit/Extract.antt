-- ===== src/Util/Bit/Extract.antt =====
-- The loop over the set bits of a word meets each of them, and with the fuel given it meets them all.
use sofcheck.Common.{
  ℕ, zero, suc, ◌+◌, ◌^◌, ◌<◌, ◌≤◌, ◌≡◌, ◌∙◌, refl, sym, ap, true, false, ◌==◌, Bool-cases, ==_iff,
  inl, inr, arith, All, Occurs, All-map,
}
use sofcheck.Common.Bits.{test_bit, test_bit-zero, lt-pow_of_bits, test_bit_above}
use sofcheck.Util.Bit.{clear_lowest, extract_all, bits_of}
use sofcheck.Util.Bit.Lowest.{some-IsLowest, get_lowest_lem, test_bit-clear_lowest}

-- The set bits of a word below 2 ^ 64.
pub extract_all-All :
    (fuel x : ℕ) → x < 2 ^ 64 → All (λ i. (i < 64) × (test_bit x i ≡ true)) (extract_all fuel x)
unfolding extract_all
extract_all-All zero x lt = tt
extract_all-All (suc fuel) x lt = elim (Bool-cases (x == 0)) [
  | inl none ↦ rw none tt
  | inr some ↦
      let (k, less, h) = some-IsLowest 64 x (ground arith) lt in
      let cleared = test_bit-clear_lowest x k h in
      let small : clear_lowest x < 2 ^ 64 =
        lt-pow_of_bits 64 (clear_lowest x)
          (λ i le. cleared i ∙ rw (test_bit_above 64 i x lt le) refl) in
      rw some (
        rw (get_lowest_lem x k h less) (less, h.is_set),
        All-map (λ i p. (p.0, ground (arith, cleared i, p.1))) (extract_all fuel (clear_lowest x))
            (extract_all-All fuel (clear_lowest x) small),
      )
]

extract_all-Occurs :
    (fuel x : ℕ)
    → x < 2 ^ 64
    → ((i : ℕ) → i + fuel < 64 → test_bit x i ≡ false)
    → (i : ℕ) → test_bit x i ≡ true
    → Occurs i (extract_all fuel x)
unfolding extract_all
extract_all-Occurs zero x lt low i is_set = absurd (ground (arith, low i, test_bit_above 64 i x lt))
extract_all-Occurs (suc fuel) x lt low i is_set = elim (Bool-cases (x == 0)) [
  | inl none ↦
      absurd (ground (arith, test_bit-zero i, ap (λ y. test_bit y i) ((==_iff x 0).0 none)))
  | inr some ↦
      let (k, less, h) = some-IsLowest 64 x (ground arith) lt in
      let cleared = test_bit-clear_lowest x k h in
      let small : clear_lowest x < 2 ^ 64 =
        lt-pow_of_bits 64 (clear_lowest x)
          (λ j le. cleared j ∙ rw (test_bit_above 64 j x lt le) refl) in
      let bound : 64 ≤ k + suc fuel = ground (arith, low k, h.is_set) in
      rw some (elim (Bool-cases (i == k)) [
        | inl here ↦ inl ((==_iff i k).0 here ∙ sym (get_lowest_lem x k h less))
        | inr other ↦ inr (
            extract_all-Occurs fuel (clear_lowest x) small
              (λ j le. ground (arith, cleared j, h.none_below j)) i (ground (arith, cleared i)))
      ])
]

-- The loop gives set bits of a word of 64 bits, and each of them.
pub bits_of-All : (x : ℕ) → x < 2 ^ 64 → All (λ i. (i < 64) × (test_bit x i ≡ true)) (bits_of x)
unfolding bits_of
bits_of-All x lt = extract_all-All 64 x lt

-- Every set bit of a word of 64 bits is met: 64 rounds of the loop are enough.
pub bits_of-Occurs : (x i : ℕ) → x < 2 ^ 64 → test_bit x i ≡ true → Occurs i (bits_of x)
unfolding bits_of
bits_of-Occurs x i lt is_set = extract_all-Occurs 64 x lt (λ j le. absurd (omega arith)) i is_set
