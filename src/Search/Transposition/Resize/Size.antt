-- ===== src/Search/Transposition/Resize/Size.antt =====
-- The size that `resize` chooses.
use sofcheck.Common.{
  ℕ, zero, suc, ◌*◌, ◌/◌, ◌^◌, ◌<◌, ◌≤◌, ◌≡◌, ◌∙◌, refl, ap, subst, true, leb, Option, none, some,
  u64, max, arith, Bool-cases, inl, inr, leb→le,
}
use native.Mathlib.Nat.{pow-suc}
use sofcheck.Search.Transposition.Resize.{double_past, new_table_size, entry_size}

-- The number is 2 ^ j for some j.
abbrev pub IsPowerOfTwo : ℕ → Type 0
IsPowerOfTwo n = (j : ℕ) × (n ≡ 2 ^ j)

more_fuel : (f n p q : ℕ) → q ≡ p * 2 → q * n ≡ p * (n * 2)
more_fuel f n p q e = rw e (grind arith)

doubled :
    (fuel n m : ℕ)
    → leb n m ≡ true
    → u64 (n * 2) ≡ n * 2
    → double_past (suc fuel) n m ≡ double_past fuel (n * 2) m
unfolding double_past
doubled fuel n m go fits = rw (go, fits) refl

double_past_lem :
    (fuel n m : ℕ)
    → m < 2 ^ 63
    → n ≤ m * 2
    → 2 ^ 64 ≤ 2 ^ fuel * n
    → IsPowerOfTwo n
    → (r : ℕ) × (double_past fuel n m ≡ some r) × (m < r) × (r ≤ m * 2) × IsPowerOfTwo r
unfolding double_past
double_past_lem zero n m small le enough pow = absurd (omega arith)
double_past_lem (suc fuel) n m small le enough (j, e) = elim (Bool-cases (leb n m)) [
  | inl go ↦
      let below = leb→le n m go in
      let fits : u64 (n * 2) ≡ n * 2 = omega arith in
      let left = more_fuel fuel n (2 ^ fuel) (2 ^ suc fuel) (pow-suc 2 fuel) in
      let twice : n * 2 ≡ 2 ^ suc j = rw e (omega (arith, pow-suc 2 j)) in
      let (r, found, lt, le', pow) =
        double_past_lem fuel (n * 2) m small (omega arith) (omega (arith, left)) (suc j, twice) in
      (r, doubled fuel n m go fits ∙ found, lt, le', pow)
  | inr stop ↦ (n, rw stop refl, ground arith, le, (j, e))
]

half_of_power : (r : ℕ) → 1 < r → IsPowerOfTwo r → (r / 2 * 2 ≡ r) × IsPowerOfTwo (r / 2)
half_of_power r lt (zero, e) = absurd (omega arith)
half_of_power r lt (suc j, e) = (omega (arith, pow-suc 2 j), (j, omega (arith, pow-suc 2 j)))

entries_of :
    (bytes r : ℕ)
    → 2 ^ 20 ≤ bytes
    → bytes < r
    → r ≤ bytes * 2
    → IsPowerOfTwo r
    → let n = r / 2 / entry_size in
      (n * entry_size ≤ bytes) × (bytes < 2 * (n * entry_size)) × IsPowerOfTwo n
entries_of bytes r big lt le pow =
    let (e₁, p₁) = half_of_power r (omega arith) pow in
    let (e₂, p₂) = half_of_power (r / 2) (omega arith) p₁ in
    let (e₃, p₃) = half_of_power (r / 2 / 2) (omega arith) p₂ in
    let (e₄, p₄) = half_of_power (r / 2 / 2 / 2) (omega arith) p₃ in
    let (e₅, p₅) = half_of_power (r / 2 / 2 / 2 / 2) (omega arith) p₄ in
    let same : r / 2 / 2 / 2 / 2 / 2 ≡ r / 2 / entry_size = omega arith in
    (omega arith, omega arith, subst IsPowerOfTwo same p₅)

chosen :
    (max_size r : ℕ)
    → double_past 65 1 (max max_size (2 ^ 20)) ≡ some r
    → new_table_size max_size ≡ some (r / 2 / entry_size)
unfolding new_table_size
chosen max_size r found =
    ap (λ (o : Option ℕ). elim o [ none ↦ none | some s ↦ some (s / 2 / entry_size) ]) found

-- The size in bytes that is chosen is the greatest power of two up to the larger of the wanted size
-- and 2 ^ 20; it is found with the fuel given.
abbrev pub HasGreatestSize : ℕ → Type 0
HasGreatestSize max_size =
    let bytes = max max_size (2 ^ 20) in
    (n : ℕ) × (new_table_size max_size ≡ some n)
    × (n * entry_size ≤ bytes)
    × (bytes < 2 * (n * entry_size))
    × IsPowerOfTwo n

-- The loop that looks for the size ends for a wanted size below 2 ^ 63, and the size in bytes is the
-- greatest power of two that does not exceed the larger of the wanted size and 2 ^ 20.
pub new_table_size_lem : (max_size : ℕ) → max_size < 2 ^ 63 → HasGreatestSize max_size
new_table_size_lem max_size small =
    let (r, found, lt, le, pow) =
      double_past_lem 65 1 (max max_size (2 ^ 20)) (omega arith) (omega arith) (omega arith)
        (0, refl) in
    let (fits, greatest, power) = entries_of (max max_size (2 ^ 20)) r (omega arith) lt le pow in
    (r / 2 / entry_size, chosen max_size r found, fits, greatest, power)
