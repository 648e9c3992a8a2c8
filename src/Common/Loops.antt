-- ===== src/Common/Loops.antt =====
-- Counted loops.
use Prim.Native.Nat.{ℕ, zero, suc, ◌<◌}
use mathlib.Core.Path.{◌≡◌, subst, sym}
use mathlib.Core.Logic.{◌⊎◌, inl, inr}
use mathlib.Core.Bool.{Bool, true, ◌&&◌}
use native.Mathlib.Omega.{arith}

-- `for (i = 0; i < n; ++i) s = body(i, s);`
unfoldable pub for_below {ℓ} : {S : Type ℓ} → ℕ → (ℕ → S → S) → S → S
for_below zero body s = s
for_below (suc n) body s = body n (for_below n body s)

-- The rule for an invariant that speaks of the rounds done.
pub for_below_inv {ℓ κ} :
    {S : Type ℓ} (P : ℕ → S → Type κ) (body : ℕ → S → S) (n : ℕ) (s : S)
    → ((i : ℕ) (t : S) → i < n → P i t → P (suc i) (body i t))
    → P 0 s
    → P n (for_below n body s)
unfolding for_below
for_below_inv P body zero s keep h = h
for_below_inv P body (suc n) s keep h =
    keep n (for_below n body s) (omega arith)
      (for_below_inv P body n s (λ i t lt. keep i t (omega arith)) h)

-- A test of every number below n.
unfoldable pub all_to : ℕ → (ℕ → Bool) → Bool
all_to zero p = true
all_to (suc n) p = p n && all_to n p

pub all_to_sound : (n : ℕ) (p : ℕ → Bool) (k : ℕ) → all_to n p ≡ true → k < n → p k ≡ true
unfolding all_to
all_to_sound zero p k h lt = absurd (omega arith)
all_to_sound (suc n) p k h lt = ground (arith, all_to_sound n p k)

-- A property of each of the first n numbers, the last one outermost.
abbrev pub Firsts {ℓ} : (ℕ → Type ℓ) → ℕ → Type ℓ
Firsts P zero = Unit
Firsts P (suc n) = Firsts P n × P n

pub Firsts_lem {ℓ} : (P : ℕ → Type ℓ) (n : ℕ) → Firsts P n → (k : ℕ) → k < n → P k
Firsts_lem P zero h k lt = absurd (omega arith)
Firsts_lem P (suc n) (h, last) k lt =
    let split : (k ≡ n) ⊎ (k < n) = omega arith in
    elim split [ inl same ↦ subst P (sym same) last | inr less ↦ Firsts_lem P n h k less ]
