-- ===== src/Common/Sweep.antt =====
-- Writes to a list of any type, and the loop that treats each cell once.
use sofcheck.Common.Loops.{for_below, for_below_inv}
use sofcheck.Common.Lists.{length, get_or, set}
use sofcheck.Common.Tests.{ltb, ◌==◌, if◌then◌else◌}
use Prim.Native.Nat.{ℕ, zero, suc}
use mathlib.Core.Path.{◌≡◌, refl}
use mathlib.Core.Bool.{◌&&◌}
use mathlib.Core.List.{List, [], ◌∷◌}
use native.Mathlib.Omega.{arith}

module _ {ℓ} {A : Type ℓ} where
  pub length-set : (xs : List A) (i : ℕ) (v : A) → length (set xs i v) ≡ length xs
  length-set [] i v = refl
  length-set (x ∷ xs) zero v = refl
  length-set (x ∷ xs) (suc i) v = ground (arith, length-set xs i v)

  pub get_or-set :
      (xs : List A) (i : ℕ) (v : A) (j : ℕ) (a : A)
      → get_or (set xs i v) j a ≡ (if i == j && ltb i (length xs) then v else get_or xs j a)
  get_or-set [] i v j a = ground arith
  get_or-set (x ∷ xs) zero v zero a = ground arith
  get_or-set (x ∷ xs) zero v (suc j) a = ground arith
  get_or-set (x ∷ xs) (suc i) v zero a = ground arith
  get_or-set (x ∷ xs) (suc i) v (suc j) a = ground (arith, get_or-set xs i v j a)

  -- `for (i = 0; i < n; ++i) xs[i] = g(i, xs[i]);`
  abbrev pub sweep : (ℕ → A → A) → A → ℕ → List A → List A
  sweep g a n xs = for_below n (λ i ys. set ys i (g i (get_or ys i a))) xs

  pub sweep_lem :
      (g : ℕ → A → A) (a : A) (n : ℕ) (xs : List A)
      → let ys = sweep g a n xs in
        (length ys ≡ length xs)
        × ((i : ℕ)
            → get_or ys i a
              ≡ (if ltb i n && ltb i (length xs) then g i (get_or xs i a) else get_or xs i a))
  sweep_lem g a n xs =
      for_below_inv
        (λ n ys.
          (length ys ≡ length xs)
          × ((i : ℕ)
              → get_or ys i a
                ≡ (if ltb i n && ltb i (length xs) then g i (get_or xs i a) else get_or xs i a)))
        (λ i ys. set ys i (g i (get_or ys i a))) n xs
        (λ k ys lt h. (
          ground (arith, length-set ys k (g k (get_or ys k a)), h.0),
          λ i. ground (arith, get_or-set ys k (g k (get_or ys k a)) i a, h.0, h.1 i, h.1 k),
        ))
        (refl, λ i. ground arith)
