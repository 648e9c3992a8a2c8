-- ===== src/Search/Killers.antt =====
-- search/private/util.h: the killer moves and the history table.
use sofcheck.Common.{
  ℕ, ◌+◌, ◌<◌, ◌≡◌, ◌∙◌, refl, sym, ap, true, false, if◌then◌else◌, List, [], ◌∷◌, bit_or, ◌<<<◌,
  ◌*◌, ◌^◌, replicate, arith, inl, inr, Bool-cases,
}
use sofcheck.Common.Pack.{bit_or-field, bit_or_comm}
use sofcheck.Core.Move.{Move, null_move, move_eq}
use sofcheck.Core.Equality.{MoveFits, move_eq_iff}

pub record KillerLine : Type 0 where
  pub first : Move
  pub second : Move

abbrev pub new_killer_line : KillerLine
new_killer_line = record { first = null_move; second = null_move }

unfoldable pub add : KillerLine → Move → KillerLine
add k m = if move_eq m k.first then k else record { first = m; second = k.first }

-- The moves that are added one after the other, the last one first in the list.
abbrev pub add_all : List Move → KillerLine
add_all [] = new_killer_line
add_all (m ∷ ms) = add (add_all ms) m

-- The last of the moves, and the last one that is not the given move; the null move if there is none.
abbrev pub latest : List Move → Move
latest [] = null_move
latest (m ∷ ms) = m

abbrev pub latest_other : Move → List Move → Move
latest_other x [] = null_move
latest_other x (m ∷ ms) = if move_eq m x then latest_other x ms else m

unfoldable pub index_of : Move → ℕ
index_of m = bit_or (m.src <<< 6) m.dst

abbrev pub tab_size : ℕ
tab_size = 64 * 64

abbrev pub new_history_table : List ℕ
new_history_table = replicate tab_size 0

-- Moves between cells of the board have a cell of the history table, and different ones different
-- cells.
pub index_of_injective :
    (a b : Move)
    → a.src < 64
    → a.dst < 64
    → b.src < 64
    → b.dst < 64
    → (index_of a < tab_size) × (index_of a ≡ index_of b → (a.src ≡ b.src) × (a.dst ≡ b.dst))
unfolding index_of
index_of_injective a b ha ha' hb hb' =
    let ea : bit_or (a.src * 2 ^ 6) a.dst ≡ a.dst + a.src * 2 ^ 6 =
      bit_or_comm (a.src * 2 ^ 6) a.dst ∙ bit_or-field 6 a.dst a.src ha' in
    let eb : bit_or (b.src * 2 ^ 6) b.dst ≡ b.dst + b.src * 2 ^ 6 =
      bit_or_comm (b.src * 2 ^ 6) b.dst ∙ bit_or-field 6 b.dst b.src hb' in
    (omega (arith, ea), λ e. (omega (arith, ea, eb), omega (arith, ea, eb)))

abbrev pub AllFit : List Move → Type 0
AllFit [] = Unit
AllFit (m ∷ ms) = MoveFits m × AllFit ms

latest-MoveFits : (ms : List Move) → AllFit ms → MoveFits (latest ms)
latest-MoveFits [] h = record { src_lt = omega arith; dst_lt = omega arith; tag_lt = omega arith }
latest-MoveFits (m ∷ ms) h = h.0

move_eq_refl : (m : Move) → move_eq m m ≡ true
unfolding move_eq
move_eq_refl m = ground arith

move_eq_flip : (a b : Move) → move_eq a b ≡ false → move_eq b a ≡ false
unfolding move_eq
move_eq_flip a b h = ground arith

other_than_latest :
    (m : Move) (ms : List Move) → move_eq m (latest ms) ≡ false → latest ms ≡ latest_other m ms
other_than_latest m [] h = refl
other_than_latest m (n ∷ ms) h = rw (move_eq_flip m n h) refl

-- After any sequence of killer moves the line has the last of them first, and second the last one
-- that differs from it. The moves' fields fit their bytes.
pub add_all_lem :
    (ms : List Move)
    → AllFit ms
    → ((add_all ms).first ≡ latest ms) × ((add_all ms).second ≡ latest_other (latest ms) ms)
unfolding add
add_all_lem [] h = (refl, refl)
add_all_lem (m ∷ ms) (hm, h) =
    let (e₁, e₂) = add_all_lem ms h in
    elim (Bool-cases (move_eq m (latest ms))) [
      | inl again ↦
          let same : m ≡ latest ms =
            (move_eq_iff m (latest ms) hm (latest-MoveFits ms h)).0 again in
          (
            rw (e₁, again) (sym same),
            rw (e₁, again, move_eq_refl m) (e₂ ∙ ap (λ x. latest_other x ms) (sym same)),
          )
      | inr new ↦ (rw (e₁, new) refl, rw (e₁, new, move_eq_refl m) (other_than_latest m ms new))
    ]
