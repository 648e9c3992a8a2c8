-- ===== src/Common/Bits.antt =====
-- The native bit operations through their binary digits, at every width.
use Prim.Native.Nat.{ℕ, zero, suc, ◌+◌, ◌-◌, ◌/◌, ◌%◌, ◌^◌, ◌≤◌, ◌<◌, bit_and, bit_or, bit_xor}
use mathlib.Core.Path.{◌≡◌, refl, sym, ◌∙◌, ap}
use mathlib.Core.Bool.{Bool, true, false, ◌&&◌, ◌||◌}
use native.Mathlib.Omega.{arith}
use native.Mathlib.Nat.{le_refl, pow-suc, one-le-pow}
use sofcheck.Common.Tests.{ltb, ◌==◌, ==_iff, xor}
use sofcheck.Common.Words.{bit_not}
use sofcheck.Common.Digits.{and_digit, or_digit, xor_digit}

-- The digit of weight 2 ^ i, lowest first.
unfoldable pub test_bit : ℕ → ℕ → Bool
test_bit x zero = x % 2 == 1
test_bit x (suc i) = test_bit (x / 2) i

pub test_bit-and : (i a b : ℕ) → test_bit (bit_and a b) i ≡ (test_bit a i && test_bit b i)
unfolding test_bit
test_bit-and zero a b = ground (arith, and_digit a b)
test_bit-and (suc i) a b =
    let e : bit_and a b / 2 ≡ bit_and (a / 2) (b / 2) = omega (arith, and_digit a b) in
    rw e (test_bit-and i (a / 2) (b / 2))

pub test_bit-or : (i a b : ℕ) → test_bit (bit_or a b) i ≡ (test_bit a i || test_bit b i)
unfolding test_bit
test_bit-or zero a b = ground (arith, or_digit a b)
test_bit-or (suc i) a b =
    let e : bit_or a b / 2 ≡ bit_or (a / 2) (b / 2) = omega (arith, or_digit a b) in
    rw e (test_bit-or i (a / 2) (b / 2))

pub test_bit-xor : (i a b : ℕ) → test_bit (bit_xor a b) i ≡ xor (test_bit a i) (test_bit b i)
unfolding test_bit
test_bit-xor zero a b = ground (arith, xor_digit a b)
test_bit-xor (suc i) a b =
    let e : bit_xor a b / 2 ≡ bit_xor (a / 2) (b / 2) = omega (arith, xor_digit a b) in
    rw e (test_bit-xor i (a / 2) (b / 2))

pub test_bit-zero : (i : ℕ) → test_bit 0 i ≡ false
unfolding test_bit
test_bit-zero zero = refl
test_bit-zero (suc i) = test_bit-zero i

-- Numbers with the same digits are equal.
ext_fuel : (n a b : ℕ) → a + b ≤ n → ((i : ℕ) → test_bit a i ≡ test_bit b i) → a ≡ b
unfolding test_bit
ext_fuel zero a b le h = omega arith
ext_fuel (suc n) zero zero le h = refl
ext_fuel (suc n) zero (suc b) le h =
    ground (arith, h 0, ext_fuel n 0 (suc b / 2) (omega arith) (λ i. h (suc i)))
ext_fuel (suc n) (suc a) b le h =
    ground (arith, h 0, ext_fuel n (suc a / 2) (b / 2) (omega arith) (λ i. h (suc i)))

pub test_bit_ext : (a b : ℕ) → ((i : ℕ) → test_bit a i ≡ test_bit b i) → a ≡ b
test_bit_ext a b h = ext_fuel (a + b) a b (le_refl _) h

pub test_bit-pow : (k i : ℕ) → test_bit (2 ^ k) i ≡ (k == i)
unfolding test_bit
test_bit-pow zero zero = refl
test_bit-pow zero (suc i) = ground (arith, test_bit-zero i)
test_bit-pow (suc k) zero = ground (arith, pow-suc 2 k)
test_bit-pow (suc k) (suc i) =
    let e : 2 ^ suc k / 2 ≡ 2 ^ k = omega (arith, pow-suc 2 k) in
    rw e (test_bit-pow k i ∙ ground arith)

pub test_bit_above : (k i a : ℕ) → a < 2 ^ k → k ≤ i → test_bit a i ≡ false
unfolding test_bit
test_bit_above zero i a lt le = rw (let e : a ≡ 0 = omega arith in e) (test_bit-zero i)
test_bit_above (suc k) zero a lt le = absurd (omega arith)
test_bit_above (suc k) (suc i) a lt le =
    test_bit_above k i (a / 2) (omega (arith, pow-suc 2 k)) (omega arith)

pub test_bit_mask : (k i : ℕ) → test_bit (2 ^ k - 1) i ≡ ltb i k
unfolding test_bit
test_bit_mask zero i = test_bit-zero i ∙ ground arith
test_bit_mask (suc k) zero = ground (arith, pow-suc 2 k, one-le-pow k 2)
test_bit_mask (suc k) (suc i) =
    let e : (2 ^ suc k - 1) / 2 ≡ 2 ^ k - 1 = omega (arith, pow-suc 2 k, one-le-pow k 2) in
    rw e (test_bit_mask k i ∙ ground arith)

-- `~x` turns the 64 digits over.
pub test_bit-not : (i a : ℕ) → test_bit (bit_not a) i ≡ xor (test_bit a i) (ltb i 64)
unfolding bit_not
test_bit-not i a =
    test_bit-xor i a 0xffff_ffff_ffff_ffff ∙ ap (xor (test_bit a i)) (test_bit_mask 64 i)

pub ruleset bit_laws =
    (test_bit-and, test_bit-or, test_bit-xor, test_bit-not, test_bit-pow, test_bit-zero)

-- A number below 2 ^ k is the one with these digits.
pub lt-pow_of_bits : (k a : ℕ) → ((i : ℕ) → k ≤ i → test_bit a i ≡ false) → a < 2 ^ k
unfolding test_bit
lt-pow_of_bits zero a h =
    let e : a ≡ 0 = test_bit_ext a 0 (λ i. h i (omega arith) ∙ sym (test_bit-zero i)) in omega arith
lt-pow_of_bits (suc k) a h =
    omega (arith, pow-suc 2 k, lt-pow_of_bits k (a / 2) (λ i le. h (suc i) (omega arith)))

-- Laws of the exclusive or.
pub bit_xor-zero : (a : ℕ) → bit_xor a 0 ≡ a
bit_xor-zero a = test_bit_ext _ _ λ i. simp bit_laws (ground arith)

pub bit_xor_self : (a : ℕ) → bit_xor a a ≡ 0
bit_xor_self a = test_bit_ext _ _ λ i. simp bit_laws (ground arith)

pub bit_xor_comm : (a b : ℕ) → bit_xor a b ≡ bit_xor b a
bit_xor_comm a b = test_bit_ext _ _ λ i. simp bit_laws (ground arith)

pub bit_xor_assoc : (a b c : ℕ) → bit_xor (bit_xor a b) c ≡ bit_xor a (bit_xor b c)
bit_xor_assoc a b c = test_bit_ext _ _ λ i. simp bit_laws (ground arith)

pub bit_xor_cancel : (a b : ℕ) → bit_xor (bit_xor a b) b ≡ a
bit_xor_cancel a b = test_bit_ext _ _ λ i. simp bit_laws (ground arith)

pub bit_xor_right_comm : (a b c : ℕ) → bit_xor (bit_xor a b) c ≡ bit_xor (bit_xor a c) b
bit_xor_right_comm a b c = test_bit_ext _ _ λ i. simp bit_laws (ground arith)

pub bit_and_comm : (a b : ℕ) → bit_and a b ≡ bit_and b a
bit_and_comm a b = test_bit_ext _ _ λ i. simp bit_laws (ground arith)

pub zero-bit_or : (a : ℕ) → bit_or 0 a ≡ a
zero-bit_or a = test_bit_ext _ _ λ i. simp bit_laws (ground arith)

pub zero-bit_and : (a : ℕ) → bit_and 0 a ≡ 0
zero-bit_and a = test_bit_ext _ _ λ i. simp bit_laws (ground arith)

-- Words whose conjunction is 0 have no common digit.
pub disjoint_bit : (a b i : ℕ) → (bit_and a b == 0) ≡ true → (test_bit a i && test_bit b i) ≡ false
disjoint_bit a b i e =
    sym (test_bit-and i a b) ∙ ap (λ x. test_bit x i) ((==_iff _ 0).0 e) ∙ test_bit-zero i

-- A digit that both have shows that the conjunction is not 0.
pub common_bit :
    (a b i : ℕ) → test_bit a i ≡ true → test_bit b i ≡ true → (bit_and a b == 0) ≡ false
common_bit a b i ha hb = ground (arith, disjoint_bit a b i)

pub bit_and_lt : (k a b : ℕ) → a < 2 ^ k → bit_and a b < 2 ^ k
bit_and_lt k a b lt =
    lt-pow_of_bits k _ λ i le. test_bit-and i a b ∙ rw (test_bit_above k i a lt le) refl

pub and_bit_left : (a b i : ℕ) → test_bit (bit_and a b) i ≡ true → test_bit a i ≡ true
and_bit_left a b i h = ground (arith, test_bit-and i a b)

pub and_bit_right : (a b i : ℕ) → test_bit (bit_and a b) i ≡ true → test_bit b i ≡ true
and_bit_right a b i h = ground (arith, test_bit-and i a b)
