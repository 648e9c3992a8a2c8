-- ===== src/Common/Digits.antt =====
-- One binary digit of a native bit operation. The operations are defined with fuel; here a fuel
-- that is at least the first number is shown not to matter.
use Prim.Native.Nat.{
  ℕ, zero, suc, ◌+◌, ◌*◌, ◌/◌, ◌%◌, ◌≤◌, min, max, bit_and, bit_or, bit_xor, digits,
  bit_and-bitwise, bit_or-bitwise, bit_xor-bitwise, differ,
}
use mathlib.Core.Path.{◌≡◌, refl, ◌∙◌}
use mathlib.Core.Logic.{◌⊎◌, inl, inr}
use native.Mathlib.Omega.{arith}

module _ (rest : ℕ → ℕ) (digit : ℕ → ℕ → ℕ) where
  -- One more unit of fuel changes nothing.
  spare_fuel :
      (fuel x y : ℕ) → x ≤ fuel → digits rest digit (suc fuel) x y ≡ digits rest digit fuel x y
  spare_fuel zero zero y le = refl
  spare_fuel (suc fuel) zero y le = refl
  spare_fuel zero (suc x) y le = absurd (omega arith)
  spare_fuel (suc fuel) (suc x) y le =
      let half = spare_fuel fuel (suc x / 2) (y / 2) (omega arith) in omega (arith, half)

  halves : (fuel x y : ℕ) → x ≤ fuel → digits rest digit fuel x y ≡ digits rest digit x x y
  halves zero zero y le = refl
  halves zero (suc x) y le = absurd (omega arith)
  halves (suc fuel) x y le =
      let split : (x ≤ fuel) ⊎ (x ≡ suc fuel) = omega arith in
      elim split [
        | inl less ↦ spare_fuel fuel x y less ∙ halves fuel x y less
        | inr same ↦ rw same refl
      ]

mod_two-cases : (a : ℕ) → (a % 2 ≡ 0) ⊎ (a % 2 ≡ 1)
mod_two-cases a = omega arith

differ_parity : (a b : ℕ) → differ (a % 2) (b % 2) ≡ (a + b) % 2
differ_parity a b = grind (arith, mod_two-cases a, mod_two-cases b)

pub and_digit : (x y : ℕ) → bit_and x y ≡ min (x % 2) (y % 2) + 2 * bit_and (x / 2) (y / 2)
and_digit zero y = simp bit_and-bitwise (omega arith)
and_digit (suc x) y =
    simp bit_and-bitwise (omega (arith, halves (λ _. 0) min x (suc x / 2) (y / 2) (omega arith)))

pub or_digit : (x y : ℕ) → bit_or x y ≡ max (x % 2) (y % 2) + 2 * bit_or (x / 2) (y / 2)
or_digit zero y = simp bit_or-bitwise (omega arith)
or_digit (suc x) y =
    simp bit_or-bitwise (omega (arith, halves (λ w. w) max x (suc x / 2) (y / 2) (omega arith)))

pub xor_digit : (x y : ℕ) → bit_xor x y ≡ (x + y) % 2 + 2 * bit_xor (x / 2) (y / 2)
xor_digit zero y = simp bit_xor-bitwise (omega arith)
xor_digit (suc x) y = simp bit_xor-bitwise (
    omega
      (arith, halves (λ w. w) differ x (suc x / 2) (y / 2) (omega arith), differ_parity (suc x) y))
