-- ===== src/Core/Validate.antt =====
-- core/board.cpp: `Board::validate`.
pub mod Updated
pub mod Coherent
pub mod Kings
pub mod Errors
pub mod Tests
use sofcheck.Common.{
  ℕ, Bool, true, false, ◌&&◌, ◌||◌, not, ltb, leb, ◌==◌, if◌then◌else◌, List, [], ◌∷◌, bit_and,
  bit_or, read,
}
use sofcheck.Core.Types.{
  Color, white, black, pawn, king, make_cell, coord_x, invalid_coord, castling_all, is_cell_valid,
}
use sofcheck.Core.Geometry.{enpassant_src_row}
use sofcheck.Core.Zobrist.{Zobrist}
use sofcheck.Core.Board.{Board, update}
use sofcheck.Util.Bit.{popcount}
use sofcheck.Core.Attacks.{MagicTables}
use sofcheck.Core.MoveGen.{was_move_legal}

pub data ValidateResult : Type 0 where
  ok bad_data too_many_pieces no_king too_many_kings : ValidateResult
  invalid_enpassant_row invalid_pawn_position opponent_king_attacked : ValidateResult

abbrev pub all_cells_valid : List ℕ → Bool
all_cells_valid [] = true
all_cells_valid (c ∷ cells) = is_cell_valid c && all_cells_valid cells

-- The checks before `update`; a negative `enpassantCoord` is a pattern of 128 or more.
unfoldable pub check_data : Board → ValidateResult
check_data b =
    let e = b.enpassant_coord in
    if not (all_cells_valid b.cells)
    then bad_data
    else if not (bit_and b.castling castling_all == b.castling)
    then bad_data
    else if e == invalid_coord
    then ok
    else if leb 128 e || leb 64 e
    then bad_data
    else if not (coord_x e == enpassant_src_row b.side)
    then invalid_enpassant_row
    else ok

module _ (t : MagicTables) where
  -- The checks after `update`.
  unfoldable pub check_updated : Board → ValidateResult
  check_updated b =
      let bb_white_king = read b.bb_pieces (make_cell white king) in
      let bb_black_king = read b.bb_pieces (make_cell black king) in
      let bb_pawns =
        bit_or (read b.bb_pieces (make_cell white pawn))
          (read b.bb_pieces (make_cell black pawn)) in
      if ltb 16 (popcount b.bb_white) || ltb 16 (popcount b.bb_black)
      then too_many_pieces
      else if bb_white_king == 0 || bb_black_king == 0
      then no_king
      else if not (popcount bb_white_king == 1) || not (popcount bb_black_king == 1)
      then too_many_kings
      else if not (bit_and bb_pawns 0xff000000000000ff == 0)
      then invalid_pawn_position
      else if not (was_move_legal t b)
      then opponent_king_attacked
      else ok

  -- The rest of `validate` after the first checks.
  unfoldable pub validate_rest : Zobrist → Board → ValidateResult → Board × ValidateResult
  validate_rest z b ok = let b' = update z b in (b', check_updated b')
  validate_rest z b r = (b, r)

  unfoldable pub validate : Zobrist → Board → Board × ValidateResult
  validate z b = validate_rest z b (check_data b)
