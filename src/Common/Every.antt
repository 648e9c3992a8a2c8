-- ===== src/Common/Every.antt =====
-- Properties of all the elements of a list, and occurrence in it.
use mathlib.Core.Path.{◌≡◌, refl, subst, sym}
use mathlib.Core.Bool.{Bool, true, false}
use sofcheck.Common.Tests.{if◌then◌else◌}
use mathlib.Core.Logic.{◌⊎◌, inl, inr}
use mathlib.Core.List.{List, [], ◌∷◌, ◌++◌}

-- All the elements have the property.
abbrev pub All {ℓ κ} : {A : Type ℓ} → (A → Type κ) → List A → Type κ
All P [] = Unit
All P (x ∷ xs) = P x × All P xs

-- The element occurs in the list.
abbrev pub Occurs : {A : Type 0} → A → List A → Type 0
Occurs a [] = ⊥
Occurs a (x ∷ xs) = (a ≡ x) ⊎ Occurs a xs

-- `for (x : xs) append(f(x));`
abbrev pub concat_map {ℓ κ} : {A : Type ℓ} {B : Type κ} → (A → List B) → List A → List B
concat_map f [] = []
concat_map f (x ∷ xs) = f x ++ concat_map f xs

module _ {ℓ κ} {A : Type ℓ} (P : A → Type κ) where
  pub All-append : (xs ys : List A) → All P xs → All P ys → All P (xs ++ ys)
  All-append [] ys h k = k
  All-append (x ∷ xs) ys (hx, h) k = (hx, All-append xs ys h k)

pub All-concat_map {ℓ κ μ} :
    {A : Type ℓ} {B : Type μ} (P : B → Type κ) (Q : A → Type κ) (f : A → List B)
    → ((x : A) → Q x → All P (f x))
    → (xs : List A) → All Q xs
    → All P (concat_map f xs)
All-concat_map P Q f step [] h = tt
All-concat_map P Q f step (x ∷ xs) (hx, h) =
    All-append P (f x) (concat_map f xs) (step x hx) (All-concat_map P Q f step xs h)

pub Occurs-All : {A : Type 0} (P : A → Type 0) (a : A) (xs : List A) → All P xs → Occurs a xs → P a
Occurs-All P a [] h o = absurd o
Occurs-All P a (x ∷ xs) (hx, h) (inl e) = subst P (sym e) hx
Occurs-All P a (x ∷ xs) (hx, h) (inr o) = Occurs-All P a xs h o

pub All-map {ℓ κ μ} :
    {A : Type ℓ} {P : A → Type κ} {Q : A → Type μ}
    → ((x : A) → P x → Q x)
    → (xs : List A) → All P xs
    → All Q xs
All-map f [] h = tt
All-map f (x ∷ xs) (hx, h) = (f x hx, All-map f xs h)

-- A list that is made under a test.
pub All-if {ℓ κ} :
    {A : Type ℓ} (P : A → Type κ) (t : Bool) (xs : List A)
    → (t ≡ true → All P xs)
    → All P (if t then xs else [])
All-if P true xs h = h refl
All-if P false xs h = tt

pub All-if_one {ℓ κ} :
    {A : Type ℓ} (P : A → Type κ) (t : Bool) (x : A)
    → (t ≡ true → P x)
    → All P (if t then x ∷ [] else [])
All-if_one P t x h = All-if P t (x ∷ []) λ e. (h e, tt)
