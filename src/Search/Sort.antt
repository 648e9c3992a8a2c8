-- ===== src/Search/Sort.antt =====
-- `std::sort` of moves, as the search calls it: every comparison is `key(m1) > key(m2)`.
use sofcheck.Common.{
  ℕ, ◌≤◌, ◌≡◌, refl, Bool, ltb, List, [], ◌∷◌, ◌++◌, map, length, All, ◌⊎◌, inl, inr, arith, zero,
  suc, ◌<◌, get_or,
}
use sofcheck.Core.Move.{Move, as_uint, null_move}

-- The second list has the elements of the first one in another order. It is data, not a mere
-- proposition as the library's `Perm`, so that any property of the elements goes along it.
pub data Rearranged : List Move → List Move → Type 0 where
  nil : Rearranged [] []
  cons : {m : Move} {xs ys : List Move} → Rearranged xs ys → Rearranged (m ∷ xs) (m ∷ ys)
  swap : {m n : Move} {xs : List Move} → Rearranged (m ∷ n ∷ xs) (n ∷ m ∷ xs)
  trans : {xs ys zs : List Move} → Rearranged xs ys → Rearranged ys zs → Rearranged xs zs

abbrev pub greater : (Move → ℕ) → Move → Move → Bool
greater key m₁ m₂ = ltb (key m₂) (key m₁)

-- No later element has a greater key.
abbrev pub Descends : (Move → ℕ) → List Move → Type 0
Descends key [] = Unit
Descends key (m ∷ ms) = All (λ n. key n ≤ key m) ms × Descends key ms

-- What `std::sort` promises of such a comparison.
pub record StdSort : Type 0 where
  pub sort : (Move → Move → Bool) → List Move → List Move
  pub sort-Rearranged : (key : Move → ℕ) (ms : List Move) → Rearranged ms (sort (greater key) ms)
  pub sort-Descends : (key : Move → ℕ) (ms : List Move) → Descends key (sort (greater key) ms)

-- A move with this code is in the list: one that `operator==` finds equal.
abbrev pub Has : ℕ → List Move → Type 0
Has c [] = ⊥
Has c (m ∷ ms) = (c ≡ as_uint m) ⊎ Has c ms

pub Rearranged-All :
    (P : Move → Type 0) {xs ys : List Move} → Rearranged xs ys → All P xs → All P ys
Rearranged-All P nil h = h
Rearranged-All P (cons p) (hx, h) = (hx, Rearranged-All P p h)
Rearranged-All P swap (hx, (hy, h)) = (hy, (hx, h))
Rearranged-All P (trans p q) h = Rearranged-All P q (Rearranged-All P p h)

pub Rearranged-Has : (c : ℕ) {xs ys : List Move} → Rearranged xs ys → Has c xs → Has c ys
Rearranged-Has c nil h = h
Rearranged-Has c (cons p) (inl e) = inl e
Rearranged-Has c (cons p) (inr h) = inr (Rearranged-Has c p h)
Rearranged-Has c swap (inl e) = inr (inl e)
Rearranged-Has c swap (inr (inl e)) = inl e
Rearranged-Has c swap (inr (inr h)) = inr (inr h)
Rearranged-Has c (trans p q) h = Rearranged-Has c q (Rearranged-Has c p h)

pub Rearranged-length : {xs ys : List Move} → Rearranged xs ys → length xs ≡ length ys
Rearranged-length nil = refl
Rearranged-length (cons p) = omega (arith, Rearranged-length p)
Rearranged-length swap = refl
Rearranged-length (trans p q) = omega (arith, Rearranged-length p, Rearranged-length q)

pub Rearranged-map :
    (f : Move → Move) {xs ys : List Move} → Rearranged xs ys → Rearranged (map f xs) (map f ys)
Rearranged-map f nil = nil
Rearranged-map f (cons p) = cons (Rearranged-map f p)
Rearranged-map f swap = swap
Rearranged-map f (trans p q) = trans (Rearranged-map f p) (Rearranged-map f q)

pub Has-left : (c : ℕ) (xs ys : List Move) → Has c xs → Has c (xs ++ ys)
Has-left c [] ys h = absurd h
Has-left c (x ∷ xs) ys (inl e) = inl e
Has-left c (x ∷ xs) ys (inr h) = inr (Has-left c xs ys h)

pub Has-right : (c : ℕ) (xs ys : List Move) → Has c ys → Has c (xs ++ ys)
Has-right c [] ys h = h
Has-right c (x ∷ xs) ys h = inr (Has-right c xs ys h)

abbrev pub drop : ℕ → List Move → List Move
drop zero ms = ms
drop (suc n) [] = []
drop (suc n) (m ∷ ms) = drop n ms

-- The rest of a buffer, and a step in it.
pub drop_next :
    (ms : List Move) (i : ℕ) → i < length ms → drop i ms ≡ get_or ms i null_move ∷ drop (suc i) ms
drop_next [] i lt = absurd (omega arith)
drop_next (m ∷ ms) zero lt = refl
drop_next (m ∷ ms) (suc i) lt = drop_next ms i (omega arith)

pub drop_all : (ms : List Move) → drop (length ms) ms ≡ []
drop_all [] = refl
drop_all (m ∷ ms) = drop_all ms
