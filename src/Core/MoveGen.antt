-- ===== src/Core/MoveGen.antt =====
-- core/movegen.cpp: attacked cells, checks, and the generation of moves. A list of moves is what the
-- code writes to `list` from `size` on; a template's parameters are arguments.
pub mod Pawns
pub mod Pieces
pub mod Gen
pub mod Valid
pub mod Targets
pub mod PawnSteps
pub mod PawnMoves
pub mod PawnPassing
pub mod PawnSpecial
pub mod PieceSteps
pub mod Playable
pub mod Checked
pub mod Generated
pub mod Taken
pub mod Captures
pub mod Quiets
pub mod Tests
use sofcheck.Common.{ℕ, Bool, true, false, ◌||◌, not, ◌==◌, bit_and, bit_or, read}
use sofcheck.Core.Types.{Color, Piece, pawn, king, knight, bishop, rook, queen, invert, make_cell}
use sofcheck.Core.Board.{Board}
use sofcheck.Core.Attacks.{
  MagicTables, knight_attacks, king_attacks, pawn_attacks, bishop_attack_masked, rook_attack_masked,
}
use sofcheck.Util.Bit.{get_lowest}

unfoldable pub bb_diag_pieces : Color → Board → ℕ
bb_diag_pieces c b =
    bit_or (read b.bb_pieces (make_cell c bishop)) (read b.bb_pieces (make_cell c queen))

unfoldable pub bb_line_pieces : Color → Board → ℕ
bb_line_pieces c b =
    bit_or (read b.bb_pieces (make_cell c rook)) (read b.bb_pieces (make_cell c queen))

unfoldable pub king_pos : Board → Color → ℕ
king_pos b c = get_lowest (read b.bb_pieces (make_cell c king))

-- The conversion of a word to `bool`.
abbrev pub nonzero : ℕ → Bool
nonzero x = not (x == 0)

module _ (t : MagicTables) where
  -- The pawn attacks are those of the other colour, from the attacked cell.
  unfoldable pub is_cell_attacked : Color → Board → ℕ → Bool
  is_cell_attacked c b coord =
      nonzero (bit_and (read b.bb_pieces (make_cell c pawn)) (pawn_attacks (invert c) coord))
      || nonzero (bit_and (read b.bb_pieces (make_cell c king)) (king_attacks coord))
      || nonzero (bit_and (read b.bb_pieces (make_cell c knight)) (knight_attacks coord))
      || nonzero (bishop_attack_masked t b.bb_all coord (bb_diag_pieces c b))
      || nonzero (rook_attack_masked t b.bb_all coord (bb_line_pieces c b))

  unfoldable pub cell_attackers : Color → Board → ℕ → ℕ
  cell_attackers c b coord =
      bit_or
        (bit_or
          (bit_or
            (bit_or (bit_and (read b.bb_pieces (make_cell c pawn)) (pawn_attacks (invert c) coord))
              (bit_and (read b.bb_pieces (make_cell c king)) (king_attacks coord)))
            (bit_and (read b.bb_pieces (make_cell c knight)) (knight_attacks coord)))
          (bishop_attack_masked t b.bb_all coord (bb_diag_pieces c b)))
        (rook_attack_masked t b.bb_all coord (bb_line_pieces c b))

  unfoldable pub is_check : Board → Bool
  is_check b = is_cell_attacked (invert b.side) b (king_pos b b.side)

  unfoldable pub was_move_legal : Board → Bool
  was_move_legal b = not (is_cell_attacked b.side b (king_pos b (invert b.side)))
