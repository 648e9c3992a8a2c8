-- ===== src/Search/MovePicker/Complete.antt =====
-- Every move of the three generators comes out of `MovePicker::next`, and the hash move does.
use sofcheck.Common.{
  ℕ, ◌≡◌, ◌∙◌, sym, refl, subst, false, ◌==◌, ==_iff, List, [], ◌∷◌, ◌++◌, map, Bool-cases, ◌⊎◌,
  inl, inr, arith, All, All-map,
}
use sofcheck.Core.Move.{Move, null_move, as_uint, move_eq}
use sofcheck.Search.Sort.{Rearranged, Has, Has-left, Has-right, Rearranged-Has}
use sofcheck.Search.MovePicker.{MovePickerStage}
use sofcheck.Search.MovePicker.Steps.{shown}

-- The list has a move equal to each of these.
abbrev pub HasAll : List Move → List Move → Type 0
HasAll ms out = All (λ m. Has (as_uint m) out) ms

pub wider : (ms xs ys : List Move) → HasAll ms xs → HasAll ms (xs ++ ys)
wider ms xs ys h = All-map (λ m. Has-left (as_uint m) xs ys) ms h

-- The list has the hash move, if there is one.
abbrev pub HasHash : Move → List Move → Type 0
HasHash hash out = move_eq hash null_move ≡ false → Has (as_uint hash) out

-- `next` shows the null move in place of the hash move, which was given before.
shown_or_before :
    (hash : Move) (st : MovePickerStage) (out ms : List Move) (c : ℕ)
    → HasHash hash out
    → Has c ms
    → Has c out ⊎ Has c (map (shown hash st) ms)
unfolding move_eq
shown_or_before hash st out [] c before h = absurd h
shown_or_before hash st out (m ∷ ms) c before (inl e) =
    elim (Bool-cases (as_uint m == as_uint hash)) [
      | inl same ↦ elim (Bool-cases (as_uint hash == as_uint null_move)) [
        | inl nothing ↦ inr (inl (ground arith))
        | inr other ↦ inl (subst (λ x. Has x out) (sym (e ∙ (==_iff _ _).0 same)) (before other))
      ]
      | inr other ↦ inr (inl (ground arith))
    ]
shown_or_before hash st out (m ∷ ms) c before (inr h) =
    elim (shown_or_before hash st out ms c before h) [ inl o ↦ inl o | inr k ↦ inr (inr k) ]

pub shown-Has :
    (hash : Move) (st : MovePickerStage) (out ms : List Move) (c : ℕ)
    → HasHash hash out
    → Has c ms
    → Has c (out ++ map (shown hash st) ms)
shown-Has hash st out ms c before h = elim (shown_or_before hash st out ms c before h) [
  | inl o ↦ Has-left c out _ o
  | inr k ↦ Has-right c out _ k
]

pub shown_all :
    (hash : Move) (st : MovePickerStage) (out ms ns : List Move)
    → HasHash hash out
    → HasAll ms ns
    → HasAll ms (out ++ map (shown hash st) ns)
shown_all hash st out ms ns before h =
    All-map (λ m. shown-Has hash st out ns (as_uint m) before) ms h

-- A sorted list has the moves of the list.
has_self : (ms : List Move) → HasAll ms ms
has_self [] = tt
has_self (m ∷ ms) = (inl refl, All-map (λ n h. inr h) ms (has_self ms))

pub sorted_all : (ms ns : List Move) → Rearranged ms ns → HasAll ms ns
sorted_all ms ns p = All-map (λ m. Rearranged-Has (as_uint m) p) ms (has_self ms)
