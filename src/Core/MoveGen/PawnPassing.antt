-- ===== src/Core/MoveGen/PawnPassing.antt =====
-- Captures in passing that the generator makes may be played.
use sofcheck.Common.{
  ℕ, ◌<◌, ◌≡◌, ◌≢◌, refl, inl, inr, Bool, true, false, ◌&&◌, ◌||◌, not, ltb, ◌==◌, ==_iff, read,
  arith, add8, sub8, All, All-append, All-if_one, all_to, all_to_sound,
}
use sofcheck.Core.Types.{Color, white, black, pawn, make_cell, coord_x, coord_y, invalid_coord}
use sofcheck.Core.Geometry.{pawn_forward_delta, enpassant_src_row}
use sofcheck.Core.Zobrist.{Zobrist}
use sofcheck.Core.Board.{Board}
use sofcheck.Core.Move.{enpassant}
use sofcheck.Core.Synced.{IsSynced}
use sofcheck.Core.Attacks.{MagicTables}
use sofcheck.Core.Coherent.{IsCoherent}
use sofcheck.Core.Coherent.Playable.{IsPlayable}
use sofcheck.Core.MoveGen.Pawns.{gen_pawn_enpassant}
use sofcheck.Core.MoveGen.Valid.{is_kind_valid, is_pawn_move_valid}
use sofcheck.Core.MoveGen.PawnSteps.{IsPlayable-intro}
use sofcheck.Core.Move.{kind_well_formed}

-- The capture of a pawn on its row, from the column to its left or to its right.
unfoldable passing_at : Color → ℕ → Bool
passing_at c e =
    let d = add8 e (pawn_forward_delta c) in
    let l = sub8 e 1 in
    let r = add8 e 1 in
    not (coord_x e == enpassant_src_row c)
    || (ltb d 64
        && (coord_y e == 0
            || (ltb l 64 && add8 l 1 == e && not (l == d) && kind_well_formed c enpassant l d))
        && (coord_y e == 7
            || (ltb r 64 && sub8 r 1 == e && not (r == d) && kind_well_formed c enpassant r d)))

passing_table : (c : Color) → all_to 64 (passing_at c) ≡ true
unfolding all_to passing_at coord_x coord_y kind_well_formed
passing_table white = refl
passing_table black = refl

row_lt : (c : Color) (e : ℕ) → coord_x e ≡ enpassant_src_row c → e < 64
unfolding coord_x
row_lt white e row = omega (arith, row)
row_lt black e row = omega (arith, row)

module _ (z : Zobrist) (t : MagicTables) (b : Board) (h : IsSynced z b) where
  passing-IsPlayable :
      (s d : ℕ)
      → s < 64
      → d < 64
      → s ≢ d
      → kind_well_formed b.side enpassant s d ≡ true
      → read b.cells s ≡ make_cell b.side pawn
      → (add8 s 1 == b.enpassant_coord || sub8 s 1 == b.enpassant_coord) ≡ true
      → d ≡ add8 b.enpassant_coord (pawn_forward_delta b.side)
      → IsPlayable t b (record { kind = enpassant; src = s; dst = d; tag = 0 })
  unfolding is_kind_valid is_pawn_move_valid
  passing-IsPlayable s d s_lt d_lt ne f ours beside at =
      IsPlayable-intro t b enpassant s d s_lt d_lt ne f (ground (arith, ours, beside, at))

  pub gen_pawn_enpassant-All : IsCoherent b → All (IsPlayable t b) (gen_pawn_enpassant b.side b)
  unfolding gen_pawn_enpassant passing_at
  gen_pawn_enpassant-All c = elim c.passing [
    | inl absent ↦ rw ((==_iff b.enpassant_coord invalid_coord).1 absent) tt
    | inr p ↦
        let e = b.enpassant_coord in
        let e_lt = row_lt b.side e p.on_row in
        let row = (==_iff (coord_x e) (enpassant_src_row b.side)).1 p.on_row in
        let seen = all_to_sound 64 (passing_at b.side) e (passing_table b.side) e_lt in
        let present : (e == invalid_coord) ≡ false = ground arith in
        let d = add8 e (pawn_forward_delta b.side) in
        let from_left : (not (coord_y e == 0) && read b.cells (sub8 e 1) == make_cell b.side pawn)
              ≡ true
            → IsPlayable t b (record { kind = enpassant; src = sub8 e 1; dst = d; tag = 0 }) =
          λ beside.
            passing-IsPlayable (sub8 e 1) d (ground arith) (ground arith) (λ same. ground arith)
              (ground arith) (ground arith) (ground arith) refl in
        let from_right : (not (coord_y e == 7) && read b.cells (add8 e 1) == make_cell b.side pawn)
              ≡ true
            → IsPlayable t b (record { kind = enpassant; src = add8 e 1; dst = d; tag = 0 }) =
          λ beside.
            passing-IsPlayable (add8 e 1) d (ground arith) (ground arith) (λ same. ground arith)
              (ground arith) (ground arith) (ground arith) refl in
        rw present (
          All-append (IsPlayable t b) _ _ (All-if_one (IsPlayable t b) _ _ from_left)
            (All-if_one (IsPlayable t b) _ _ from_right))
  ]
