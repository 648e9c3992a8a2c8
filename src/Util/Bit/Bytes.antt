-- ===== src/Util/Bit/Bytes.antt =====
-- The sums in `popcount`, one byte after the other.
use sofcheck.Common.{
  ℕ, zero, suc, ◌+◌, ◌-◌, ◌*◌, ◌/◌, ◌%◌, ◌<◌, ◌≤◌, ◌≡◌, ◌∙◌, refl, sym, ap, true, ◌&&◌, leb, ◌==◌,
  bit_and, arith, all_to, all_to_sound, Bool, ◌⊎◌, inl, inr,
}
use sofcheck.Common.Digits.{and_digit}
use sofcheck.Common.Bits.{zero-bit_and, bit_and_comm}

-- `&` of two numbers in two parts: above and below m.
abbrev Parts : ℕ → ℕ → ℕ → Type 0
Parts m x y = bit_and x y ≡ bit_and (x / m) (y / m) * m + bit_and (x % m) (y % m)

and_split_two : (x y : ℕ) → Parts 2 x y
and_split_two x y =
    let ex : x % 2 / 2 ≡ 0 = omega arith in
    let ey : y % 2 / 2 ≡ 0 = omega arith in
    let fx : x % 2 % 2 ≡ x % 2 = omega arith in
    let fy : y % 2 % 2 ≡ y % 2 = omega arith in
    and_digit x y ∙ rw (and_digit (x % 2) (y % 2), ex, ey, fx, fy) (omega arith)

regroup : (a b c m : ℕ) → (a * m + b) * m + c ≡ a * (m * m) + (b * m + c)
regroup a b c m = grind arith

-- What the quotients and remainders by m and by m * m have to do with each other.
abbrev Squares : ℕ → ℕ → Type 0
Squares m x = (x / m / m ≡ x / (m * m)) × (x % (m * m) / m ≡ x / m % m) × (x % (m * m) % m ≡ x % m)

and_split_square :
    (m : ℕ) → ((x : ℕ) → Squares m x) → ((x y : ℕ) → Parts m x y) → (x y : ℕ) → Parts (m * m) x y
and_split_square m q p x y =
    let (dx, ex, fx) = q x in
    let (dy, ey, fy) = q y in
    let high : bit_and (x / m) (y / m)
        ≡ bit_and (x / (m * m)) (y / (m * m)) * m + bit_and (x / m % m) (y / m % m) =
      p (x / m) (y / m) ∙ rw (dx, dy) refl in
    let low : bit_and (x % (m * m)) (y % (m * m))
        ≡ bit_and (x / m % m) (y / m % m) * m + bit_and (x % m) (y % m) =
      p (x % (m * m)) (y % (m * m)) ∙ rw (ex, ey, fx, fy) refl in
    p x y
    ∙ ap (λ t. t * m + bit_and (x % m) (y % m)) high
    ∙ regroup _ _ _ m
    ∙ ap (λ t. bit_and (x / (m * m)) (y / (m * m)) * (m * m) + t) (sym low)

and_split : (x y : ℕ) → Parts 256 x y
and_split =
    and_split_square 16 (λ x. (omega arith, omega arith, omega arith))
      (and_split_square 4 (λ x. (omega arith, omega arith, omega arith))
        (and_split_square 2 (λ x. (omega arith, omega arith, omega arith)) and_split_two))

-- The byte m, n times.
unfoldable pub spread : ℕ → ℕ → ℕ
spread zero m = 0
spread (suc n) m = spread n m * 256 + m

and-spread :
    (n m q r : ℕ)
    → m < 256
    → r < 256
    → bit_and (q * 256 + r) (spread (suc n) m) ≡ bit_and q (spread n m) * 256 + bit_and r m
unfolding spread
and-spread n m q r lm lr =
    let e : (q * 256 + r) / 256 ≡ q = omega arith in
    let f : (q * 256 + r) % 256 ≡ r = omega arith in
    let g : (spread n m * 256 + m) / 256 ≡ spread n m = omega arith in
    let h : (spread n m * 256 + m) % 256 ≡ m = omega arith in
    and_split (q * 256 + r) (spread n m * 256 + m) ∙ rw (e, f, g, h) refl

and_le_fuel : (n x y : ℕ) → x ≤ n → bit_and x y ≤ x
and_le_fuel zero x y le = let e : x ≡ 0 = omega arith in rw e (omega (arith, zero-bit_and y))
and_le_fuel (suc n) x y le =
    let both : (x ≡ 0) ⊎ (x / 2 ≤ n) = omega arith in
    elim both [
      | inl e ↦ and_le_fuel n x y (omega arith)
      | inr less ↦ omega (arith, and_digit x y, and_le_fuel n (x / 2) (y / 2) less)
    ]

-- The three sums of `popcount`, on n bytes.
unfoldable pub pairs : ℕ → ℕ → ℕ
pairs n x = x - bit_and (x / 2) (spread n 0x55)

unfoldable pub nibbles : ℕ → ℕ → ℕ
nibbles n x = bit_and x (spread n 0x33) + bit_and (x / 4) (spread n 0x33)

unfoldable pub sums : ℕ → ℕ → ℕ
sums n x = bit_and (x + x / 16) (spread n 0x0f)

-- The same on one byte.
abbrev pub byte_pairs : ℕ → ℕ
byte_pairs r = r - bit_and (r / 2) 0x55

abbrev pub byte_nibbles : ℕ → ℕ
byte_nibbles r = bit_and r 0x33 + bit_and (r / 4) 0x33

abbrev pub byte_sums : ℕ → ℕ
byte_sums r = bit_and (r + r / 16) 0x0f

-- What the masks keep of a byte.
abbrev kept : ℕ → Bool
kept t =
    (bit_and t 0x55 == bit_and (t % 128) 0x55)
    && (bit_and t 0x33 == bit_and (t % 64) 0x33)
    && (bit_and t 0x0f == bit_and (t % 16) 0x0f)
    && leb (bit_and (t / 2) 0x55) t
    && leb (byte_nibbles t) 0x66
    && leb (byte_nibbles t % 16) 6

kept_bytes : all_to 256 kept ≡ true
unfolding all_to
kept_bytes = refl

pub kept_lem :
    (t : ℕ)
    → t < 256
    → (bit_and t 0x55 ≡ bit_and (t % 128) 0x55)
      × (bit_and t 0x33 ≡ bit_and (t % 64) 0x33)
      × (bit_and t 0x0f ≡ bit_and (t % 16) 0x0f)
      × (bit_and (t / 2) 0x55 ≤ t)
      × (byte_nibbles t ≤ 0x66)
      × (byte_nibbles t % 16 ≤ 6)
kept_lem t lt = ground (arith, all_to_sound 256 kept t kept_bytes lt)

-- Bytes that agree below a mask's highest digit have the same digits under it.
module _ (s t : ℕ) (ls : s < 256) (lt : t < 256) where
  same_pairs : s % 128 ≡ t % 128 → bit_and s 0x55 ≡ bit_and t 0x55
  same_pairs e = (kept_lem s ls).0 ∙ ap (λ x. bit_and x 0x55) e ∙ sym (kept_lem t lt).0

  same_nibbles : s % 64 ≡ t % 64 → bit_and s 0x33 ≡ bit_and t 0x33
  same_nibbles e = (kept_lem s ls).1 ∙ ap (λ x. bit_and x 0x33) e ∙ sym (kept_lem t lt).1

  same_sums : s % 16 ≡ t % 16 → bit_and s 0x0f ≡ bit_and t 0x0f
  same_sums e = (kept_lem s ls).2 ∙ ap (λ x. bit_and x 0x0f) e ∙ sym (kept_lem t lt).2

module _ (n q r : ℕ) where
  pub pairs-suc : r < 256 → pairs (suc n) (q * 256 + r) ≡ pairs n q * 256 + byte_pairs r
  unfolding pairs
  pairs-suc lt =
      let t : (q * 256 + r) / 2 ≡ q / 2 * 256 + (q % 2 * 128 + r / 2) = omega arith in
      let split = and-spread n 0x55 (q / 2) (q % 2 * 128 + r / 2) (omega arith) (omega arith) in
      let same =
        same_pairs (q % 2 * 128 + r / 2) (r / 2) (omega arith) (omega arith) (omega arith) in
      let fits = (kept_lem r lt).3 in
      rw t (
        omega (arith, split, same, fits, and_le_fuel (q / 2) (q / 2) (spread n 0x55) (omega arith)))

  pub nibbles-suc : r < 256 → nibbles (suc n) (q * 256 + r) ≡ nibbles n q * 256 + byte_nibbles r
  unfolding nibbles
  nibbles-suc lt =
      let t : (q * 256 + r) / 4 ≡ q / 4 * 256 + (q % 4 * 64 + r / 4) = omega arith in
      let low = and-spread n 0x33 q r (omega arith) lt in
      let split = and-spread n 0x33 (q / 4) (q % 4 * 64 + r / 4) (omega arith) (omega arith) in
      let same =
        same_nibbles (q % 4 * 64 + r / 4) (r / 4) (omega arith) (omega arith) (omega arith) in
      rw t (omega (arith, low, split, same))

  pub sums-suc : r ≤ 0x66 → q % 16 ≤ 6 → sums (suc n) (q * 256 + r) ≡ sums n q * 256 + byte_sums r
  unfolding sums
  sums-suc le small =
      let t : q * 256 + r + (q * 256 + r) / 16 ≡ (q + q / 16) * 256 + (q % 16 * 16 + (r + r / 16)) =
        omega arith in
      let split =
        and-spread n 0x0f (q + q / 16) (q % 16 * 16 + (r + r / 16)) (omega arith) (omega arith) in
      let same =
        same_sums (q % 16 * 16 + (r + r / 16)) (r + r / 16) (omega arith) (omega arith)
          (omega arith) in
      rw t (omega (arith, split, same))

pub and-zero : (x : ℕ) → bit_and x 0 ≡ 0
and-zero x = bit_and_comm x 0 ∙ zero-bit_and x

pub nibbles-small : (n x : ℕ) → nibbles n x % 16 ≤ 6
unfolding nibbles spread
nibbles-small zero x = omega (arith, and-zero x, and-zero (x / 4))
nibbles-small (suc n) x =
    let byte = (kept_lem (x % 256) (omega arith)).5 in
    let e : x ≡ x / 256 * 256 + x % 256 = omega arith in
    let f = ap (nibbles (suc n)) e ∙ nibbles-suc n (x / 256) (x % 256) (omega arith) in
    omega (arith, byte, f)
