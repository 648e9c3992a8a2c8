-- ===== src/Common/Lists.antt =====
-- C arrays as lists of numbers: `read` and `write` by index, and their laws.
use Prim.Native.Nat.{ℕ, zero, suc, ◌+◌, ◌<◌, ◌≤◌}
use mathlib.Core.Path.{◌≡◌, refl, ap, ap₂}
use mathlib.Core.Bool.{◌&&◌}
use mathlib.Core.List.{List, [], ◌∷◌, ◌++◌}
use native.Mathlib.Omega.{arith}
use sofcheck.Common.Tests.{ltb, ◌==◌, if◌then◌else◌}

module _ {ℓ} {A : Type ℓ} where
  abbrev pub length : List A → ℕ
  length [] = 0
  length (x ∷ xs) = suc (length xs)

  abbrev pub get_or : List A → ℕ → A → A
  get_or [] i d = d
  get_or (x ∷ xs) zero d = x
  get_or (x ∷ xs) (suc i) d = get_or xs i d

  -- A write out of bounds changes nothing.
  abbrev pub set : List A → ℕ → A → List A
  set [] i v = []
  set (x ∷ xs) zero v = v ∷ xs
  set (x ∷ xs) (suc i) v = x ∷ set xs i v

  abbrev pub replicate : ℕ → A → List A
  replicate zero a = []
  replicate (suc n) a = a ∷ replicate n a

  pub length-append : (xs ys : List A) → length (xs ++ ys) ≡ length xs + length ys
  length-append [] ys = omega arith
  length-append (x ∷ xs) ys = omega (arith, length-append xs ys)

  pub length-replicate : (n : ℕ) (a : A) → length (replicate n a) ≡ n
  length-replicate zero a = refl
  length-replicate (suc n) a = ap suc (length-replicate n a)

-- An array of integers; a read out of bounds gives 0.
unfoldable pub read : List ℕ → ℕ → ℕ
read xs i = get_or xs i 0

unfoldable pub write : List ℕ → ℕ → ℕ → List ℕ
write xs i v = set xs i v

pub length-write : (xs : List ℕ) (i v : ℕ) → length (write xs i v) ≡ length xs
unfolding write
length-write [] i v = refl
length-write (x ∷ xs) zero v = refl
length-write (x ∷ xs) (suc i) v = ap suc (length-write xs i v)

pub read-write :
    (xs : List ℕ) (i v j : ℕ)
    → read (write xs i v) j ≡ (if i == j && ltb i (length xs) then v else read xs j)
unfolding read write
read-write [] i v j = ground arith
read-write (x ∷ xs) zero v zero = ground arith
read-write (x ∷ xs) zero v (suc j) = ground arith
read-write (x ∷ xs) (suc i) v zero = ground arith
read-write (x ∷ xs) (suc i) v (suc j) = ground (arith, read-write xs i v j)

pub read-replicate : (n a i : ℕ) → read (replicate n a) i ≡ (if ltb i n then a else 0)
unfolding read
read-replicate zero a i = ground arith
read-replicate (suc n) a zero = ground arith
read-replicate (suc n) a (suc i) = ground (arith, read-replicate n a i)

-- Two arrays of one length with the same entries are equal.
pub read_ext :
    (xs ys : List ℕ)
    → length xs ≡ length ys
    → ((i : ℕ) → i < length xs → read xs i ≡ read ys i)
    → xs ≡ ys
unfolding read
read_ext [] [] e h = refl
read_ext [] (y ∷ ys) e h = absurd (omega arith)
read_ext (x ∷ xs) [] e h = absurd (omega arith)
read_ext (x ∷ xs) (y ∷ ys) e h =
    ap₂ ◌∷◌ (h 0 (omega arith)) (read_ext xs ys (omega arith) (λ i p. h (suc i) (omega arith)))

-- A read at the length or after it.
pub read_above : (xs : List ℕ) (i : ℕ) → length xs ≤ i → read xs i ≡ 0
unfolding read
read_above [] i le = refl
read_above (x ∷ xs) zero le = absurd (omega arith)
read_above (x ∷ xs) (suc i) le = read_above xs i (omega arith)
