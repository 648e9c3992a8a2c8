-- ===== src/Util/Bit/Count.antt =====
-- `popcount` and the digits of a word.
use sofcheck.Common.{
  ℕ, zero, suc, ◌+◌, ◌*◌, ◌^◌, ◌/◌, ◌%◌, ◌<◌, ◌≤◌, ◌≡◌, ◌∙◌, refl, sym, ap, true, ◌&&◌, leb, ◌==◌,
  ◌>>>◌, u64, arith, ==_iff, all_to, all_to_sound, Bool, ◌⊎◌, inl, inr, not, ◌||◌, read,
}
use native.Mathlib.Nat.{pow-suc}
use sofcheck.Util.Bit.{popcount, get_lowest, de_bruijn, lowest_index}
use sofcheck.Util.Bit.Bytes.{
  spread, pairs, nibbles, sums, byte_pairs, byte_nibbles, byte_sums, kept_lem, and-zero,
  nibbles-small, pairs-suc, nibbles-suc, sums-suc,
}

-- The number of binary digits 1 of a byte, and of n bytes.
abbrev ones : ℕ → ℕ
ones r = byte_sums (byte_nibbles (byte_pairs r))

unfoldable ones_of : ℕ → ℕ → ℕ
ones_of zero x = 0
ones_of (suc n) x = ones_of n (x / 256) + ones (x % 256)

abbrev counts : ℕ → ℕ → ℕ
counts n x = sums n (nibbles n (pairs n x))

counts-suc : (n q r : ℕ) → r < 256 → counts (suc n) (q * 256 + r) ≡ counts n q * 256 + ones r
counts-suc n q r lt =
    let small : byte_pairs r < 256 = omega arith in
    ap (λ x. sums (suc n) (nibbles (suc n) x)) (pairs-suc n q r lt)
    ∙ ap (sums (suc n)) (nibbles-suc n (pairs n q) (byte_pairs r) small)
    ∙ sums-suc n (nibbles n (pairs n q)) (byte_nibbles (byte_pairs r))
        (kept_lem (byte_pairs r) small).4 (nibbles-small n (pairs n q))

-- The multiplication adds the eight bytes.
total :
    (a b c d e f g h : ℕ)
    → a ≤ 8
    → b ≤ 8
    → c ≤ 8
    → d ≤ 8
    → e ≤ 8
    → f ≤ 8
    → g ≤ 8
    → h ≤ 8
    → u64 (
          ((((((((0 * 256 + a) * 256 + b) * 256 + c) * 256 + d) * 256 + e) * 256 + f) * 256 + g)
              * 256
            + h)
          * 0x0101010101010101)
        >>> 56
      ≡ 0 + a + b + c + d + e + f + g + h
total a b c d e f g h la lb lc ld le lf lg lh = omega arith

-- What the digits of a byte say of it.
abbrev counted : ℕ → Bool
counted r =
    leb (ones r) 8 && (not (ones r == 0) || r == 0) && (not (ones r == 1) || 2 ^ get_lowest r == r)

counted_bytes : all_to 256 counted ≡ true
unfolding all_to get_lowest de_bruijn lowest_index read
counted_bytes = refl

counted_lem :
    (r : ℕ) → r < 256 → (ones r ≤ 8) × (ones r ≡ 0 → r ≡ 0) × (ones r ≡ 1 → 2 ^ get_lowest r ≡ r)
counted_lem r lt =
    let c = all_to_sound 256 counted r counted_bytes lt in
    (ground (arith, c), λ e. ground (arith, c), λ e. ground (arith, c))

counts_step : (n x : ℕ) → counts (suc n) x ≡ counts n (x / 256) * 256 + ones (x % 256)
counts_step n x =
    let e : x ≡ x / 256 * 256 + x % 256 = omega arith in
    ap (counts (suc n)) e ∙ counts-suc n (x / 256) (x % 256) (omega arith)

counts_none : (x : ℕ) → counts 0 x ≡ 0
unfolding sums spread
counts_none x = and-zero _

ones-le : (x : ℕ) → ones (x % 256) ≤ 8
ones-le x = (counted_lem (x % 256) (omega arith)).0

popcount-counts : (x : ℕ) → popcount x ≡ u64 (counts 8 x * 0x0101010101010101) >>> 56
unfolding popcount pairs nibbles sums spread
popcount-counts x = refl

-- `popcount` gives the number of digits.
popcount-ones_of : (x : ℕ) → popcount x ≡ ones_of 8 x
unfolding ones_of
popcount-ones_of x =
    let x₁ = x / 256 in
    let x₂ = x₁ / 256 in
    let x₃ = x₂ / 256 in
    let x₄ = x₃ / 256 in
    let x₅ = x₄ / 256 in
    let x₆ = x₅ / 256 in
    let x₇ = x₆ / 256 in
    let all =
      total (ones (x₇ % 256)) (ones (x₆ % 256)) (ones (x₅ % 256)) (ones (x₄ % 256))
        (ones (x₃ % 256)) (ones (x₂ % 256)) (ones (x₁ % 256)) (ones (x % 256)) (ones-le x₇)
        (ones-le x₆) (ones-le x₅) (ones-le x₄) (ones-le x₃) (ones-le x₂) (ones-le x₁) (ones-le x) in
    popcount-counts x
    ∙ rw
        (
          counts_step 7 x,
          counts_step 6 x₁,
          counts_step 5 x₂,
          counts_step 4 x₃,
          counts_step 3 x₄,
          counts_step 2 x₅,
          counts_step 1 x₆,
          counts_step 0 x₇,
          counts_none (x₇ / 256),
        )
        all

-- Eight more digits.
abbrev eight : ℕ → ℕ
eight k = suc (suc (suc (suc (suc (suc (suc (suc k)))))))

shift_eight : (k : ℕ) → 2 ^ eight k ≡ 256 * 2 ^ k
shift_eight k = omega (
  arith,
  pow-suc 2 k,
  pow-suc 2 (suc k),
  pow-suc 2 (suc (suc k)),
  pow-suc 2 (suc (suc (suc k))),
  pow-suc 2 (suc (suc (suc (suc k)))),
  pow-suc 2 (suc (suc (suc (suc (suc k))))),
  pow-suc 2 (suc (suc (suc (suc (suc (suc k)))))),
  pow-suc 2 (suc (suc (suc (suc (suc (suc (suc k))))))),
)

ones_of-none : (n x : ℕ) → x < 256 ^ n → ones_of n x ≡ 0 → x ≡ 0
unfolding ones_of
ones_of-none zero x lt e = omega arith
ones_of-none (suc n) x lt e =
    let high = ones_of-none n (x / 256) (omega (arith, pow-suc 256 n)) (omega arith) in
    let low = (counted_lem (x % 256) (omega arith)).1 (omega arith) in omega arith

-- A number with one digit 1 is a power of 2.
ones_of-one : (n x : ℕ) → x < 256 ^ n → ones_of n x ≡ 1 → (k : ℕ) × (x ≡ 2 ^ k)
unfolding ones_of
ones_of-one zero x lt e = absurd (omega arith)
ones_of-one (suc n) x lt e =
    let which : (ones_of n (x / 256) ≡ 0) ⊎ (ones_of n (x / 256) ≡ 1) = omega arith in
    let less : x / 256 < 256 ^ n = omega (arith, pow-suc 256 n) in
    elim which [
      | inl nothing ↦
          let high = ones_of-none n (x / 256) less nothing in
          let low = (counted_lem (x % 256) (omega arith)).2 (omega arith) in
          (get_lowest (x % 256), omega arith)
      | inr one ↦
          let (k, p) = ones_of-one n (x / 256) less one in
          let none = (counted_lem (x % 256) (omega arith)).1 (omega arith) in
          (eight k, omega (arith, shift_eight k, none, p))
    ]

-- A word of which `popcount` counts one digit is a power of 2.
pub popcount-one : (x : ℕ) → x < 2 ^ 64 → popcount x ≡ 1 → (k : ℕ) × (x ≡ 2 ^ k)
popcount-one x lt e = ones_of-one 8 x lt (sym (popcount-ones_of x) ∙ e)

-- The number of digits 1 among the first n binary digits, one by one.
unfoldable pub digit_sum : ℕ → ℕ → ℕ
digit_sum zero x = 0
digit_sum (suc n) x = x % 2 + digit_sum n (x / 2)

abbrev byte_counted : ℕ → Bool
byte_counted r = digit_sum 8 r == ones r

bytes_counted : all_to 256 byte_counted ≡ true
unfolding all_to digit_sum
bytes_counted = refl

digit_sum-eight : (n x : ℕ) → digit_sum (eight n) x ≡ digit_sum n (x / 256) + digit_sum 8 (x % 256)
unfolding digit_sum
digit_sum-eight n x =
    let e : x / 2 / 2 / 2 / 2 / 2 / 2 / 2 / 2 ≡ x / 256 = omega arith in rw e (omega arith)

digit_sum-step : (n x : ℕ) → digit_sum (eight n) x ≡ digit_sum n (x / 256) + ones (x % 256)
digit_sum-step n x =
    digit_sum-eight n x
    ∙ ap (λ t. digit_sum n (x / 256) + t)
        ((==_iff _ _).0 (all_to_sound 256 byte_counted (x % 256) bytes_counted (omega arith)))

-- The shifts, masks and multiplication of `popcount` count the digits 1 of a 64-bit word.
pub popcount_lem : (x : ℕ) → popcount x ≡ digit_sum 64 x
unfolding ones_of digit_sum
popcount_lem x =
    let x₁ = x / 256 in
    let x₂ = x₁ / 256 in
    let x₃ = x₂ / 256 in
    let x₄ = x₃ / 256 in
    let x₅ = x₄ / 256 in
    let x₆ = x₅ / 256 in
    let x₇ = x₆ / 256 in
    popcount-ones_of x
    ∙ rw
        (
          digit_sum-step 56 x,
          digit_sum-step 48 x₁,
          digit_sum-step 40 x₂,
          digit_sum-step 32 x₃,
          digit_sum-step 24 x₄,
          digit_sum-step 16 x₅,
          digit_sum-step 8 x₆,
          digit_sum-step 0 x₇,
        )
        refl
