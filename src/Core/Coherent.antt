-- ===== src/Core/Coherent.antt =====
-- Castling flags and the passing pawn: what they promise of the cells, as `update` of
-- core/board.cpp makes it, and what the bitboards of a position in sync say of single cells.
pub mod Playable
pub mod Applicable
use sofcheck.Common.{
  ℕ, ◌+◌, ◌<◌, ◌≡◌, ◌⊎◌, ◌∙◌, sym, ap, inl, inr, Bool, true, false, ◌&&◌, ◌||◌, ltb, ◌==◌, ==_iff,
  read, List, arith, add8, bit_and, bit_or,
}
use sofcheck.Common.Bits.{test_bit, test_bit-zero, disjoint_bit, test_bit-or}
use sofcheck.Core.Types.{
  Color, white, black, Piece, piece_code, pawn, king, rook, make_cell, invert, coord_x,
  invalid_coord, empty_cell, coord_to_bitboard,
}
use sofcheck.Core.Geometry.{castling_offset, enpassant_src_row, pawn_forward_delta}
use sofcheck.Core.Zobrist.{Zobrist}
use sofcheck.Core.Board.{Board, bb_color, is_kingside_castling, is_queenside_castling}
use sofcheck.Core.Synced.{is_color, IsSynced, ShowsCells, test_bit-coord}

-- The pawn that has just made a double step stands at e, before the side that may take it.
pub record PassingPawn (c : Color) (cells : List ℕ) (e : ℕ) : Type 0 where
  pub on_row : coord_x e ≡ enpassant_src_row c
  pub enemy_pawn : read cells e ≡ make_cell (invert c) pawn
  pub passed_empty : read cells (add8 e (pawn_forward_delta c)) ≡ empty_cell

abbrev pub HomeAt : Color → List ℕ → ℕ → Type 0
HomeAt c cells y =
    (read cells (castling_offset c + 4) ≡ make_cell c king)
    × (read cells (castling_offset c + y) ≡ make_cell c rook)

pub record IsCoherent (b : Board) : Type 0 where
  pub kingside : (c : Color) → is_kingside_castling b c ≡ true → HomeAt c b.cells 7
  pub queenside : (c : Color) → is_queenside_castling b c ≡ true → HomeAt c b.cells 0
  pub passing : (b.enpassant_coord ≡ invalid_coord) ⊎ PassingPawn b.side b.cells b.enpassant_coord

pub color_of_cell : (c : Color) (p : Piece) → is_color c (make_cell c p) ≡ true
color_of_cell white p = ground arith
color_of_cell black p = ground arith

module _ (z : Zobrist) (b : Board) (h : IsSynced z b) where
  pub color_bit :
      (c : Color) (i : ℕ) → test_bit (bb_color b c) i ≡ (ltb i 64 && is_color c (read b.cells i))
  color_bit white i = h.boards.by_white i
  color_bit black i = h.boards.by_black i

  pub all_bit :
      (i : ℕ)
      → test_bit b.bb_all i
        ≡ (ltb i 64 && (is_color white (read b.cells i) || is_color black (read b.cells i)))
  all_bit i =
      ap (λ x. test_bit x i) h.all_pieces
      ∙ test_bit-or i b.bb_white b.bb_black
      ∙ ground (arith, h.boards.by_white i, h.boards.by_black i)

  pub piece_bit :
      (c : Color) (p : Piece) (i : ℕ)
      → test_bit (read b.bb_pieces (make_cell c p)) i
        ≡ (ltb i 64 && (read b.cells i == make_cell c p))
  piece_bit white p i = h.boards.by_piece (make_cell white p) (ground arith) (ground arith) i
  piece_bit black p i = h.boards.by_piece (make_cell black p) (ground arith) (ground arith) i

  -- A cell whose bit is not in `bbAll` is empty.
  pub free_cell : (i : ℕ) → i < 64 → test_bit b.bb_all i ≡ false → read b.cells i ≡ empty_cell
  free_cell i lt e = ground (arith, all_bit i)

  -- So are the cells of a mask that `bbAll` does not meet.
  pub free_of_mask :
      (m i : ℕ)
      → (bit_and m b.bb_all == 0) ≡ true
      → test_bit m i ≡ true
      → i < 64
      → read b.cells i ≡ empty_cell
  free_of_mask m i e in_mask lt = free_cell i lt (ground (arith, disjoint_bit m b.bb_all i e))

-- Whether a mask meets a cell.
pub zero_of_coord : (m i : ℕ) → (bit_and (coord_to_bitboard i) m == 0) ≡ true → test_bit m i ≡ false
zero_of_coord m i e = ground (arith, disjoint_bit _ m i e, test_bit-coord i i)
