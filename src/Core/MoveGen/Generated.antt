-- ===== src/Core/MoveGen/Generated.antt =====
-- Every move that `MoveGen` generates passes `isWellFormed` and `isMoveValid`.
use sofcheck.Common.{Bool, true, false, List, All}
use sofcheck.Core.Zobrist.{Zobrist}
use sofcheck.Core.Board.{Board}
use sofcheck.Core.Move.{Move}
use sofcheck.Core.Synced.{IsSynced}
use sofcheck.Core.Attacks.{MagicTables}
use sofcheck.Core.Coherent.{IsCoherent}
use sofcheck.Core.Coherent.Playable.{IsPlayable}
use sofcheck.Core.MoveGen.Playable.{OneKing}
use sofcheck.Core.MoveGen.Gen.{
  new_move_gen, gen_impl, gen_captures, gen_all_moves, gen_simple_moves,
  gen_simple_moves_no_promote, gen_simple_promotes,
}
use sofcheck.Core.MoveGen.Checked.{gen_checked-All, promotes_checked-All, new_move_gen_lem}

module _ (z : Zobrist) (t : MagicTables) (b : Board) (h : IsSynced z b) (c : IsCoherent b)
    (one : OneKing b.side b.cells) where
  gen_impl-All : (s k p : Bool) → All (IsPlayable t b) (gen_impl t (new_move_gen t b) s k p)
  unfolding gen_impl
  gen_impl-All s k p =
      let g = new_move_gen t b in
      let (same, side, safe) = new_move_gen_lem z t b h c one in
      rw (same, side) (gen_checked-All z t b h c one g.check g.check_mask s k p safe)

  promotes-All : All (IsPlayable t b) (gen_simple_promotes t (new_move_gen t b))
  unfolding gen_simple_promotes
  promotes-All =
      let g = new_move_gen t b in
      let (same, side, safe) = new_move_gen_lem z t b h c one in
      rw (same, side) (promotes_checked-All z t b h c one g.check g.check_mask)

-- The moves of the five generators of the position.
abbrev pub Generators : MagicTables → Board → (List Move → Type 0) → Type 0
Generators t b P =
    let g = new_move_gen t b in
    P (gen_all_moves t g)
    × P (gen_captures t g)
    × P (gen_simple_moves t g)
    × P (gen_simple_moves_no_promote t g)
    × P (gen_simple_promotes t g)

module _ (z : Zobrist) (t : MagicTables) where
  -- In a position in sync, coherent and with one king of the side to move at most, every move of each
  -- of the five generators is well-formed and valid.
  pub Generators-All :
      (b : Board)
      → IsSynced z b
      → IsCoherent b
      → OneKing b.side b.cells
      → Generators t b (All (IsPlayable t b))
  unfolding gen_all_moves gen_captures gen_simple_moves gen_simple_moves_no_promote
  Generators-All b h c one = (
    gen_impl-All z t b h c one true true true,
    gen_impl-All z t b h c one false true false,
    gen_impl-All z t b h c one true false true,
    gen_impl-All z t b h c one true false false,
    promotes-All z t b h c one,
  )
