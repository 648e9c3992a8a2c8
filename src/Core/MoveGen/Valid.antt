-- ===== src/Core/MoveGen/Valid.antt =====
-- core/movegen.cpp: `isMoveValid` and `isMoveLegal`.
use sofcheck.Common.{
  ℕ, ◌+◌, ◌-◌, Bool, false, ◌&&◌, ◌||◌, not, ◌==◌, if◌then◌else◌, bit_and, bit_or, bit_xor, bit_not,
  u64, ◌<<<◌, read, add8, sub8,
}
use sofcheck.Core.Types.{
  Color, white, black, pawn, king, knight, bishop, rook, queen, invert, make_cell, color_eq,
  cell_piece_color, coord_x, coord_to_bitboard, empty_cell,
}
use sofcheck.Core.Geometry.{castling_offset, promote_src_row, pawn_forward_delta}
use sofcheck.Core.Board.{Board, bb_color, is_kingside_castling, is_queenside_castling}
use sofcheck.Core.Move.{
  Move, MoveKind, null, castling_kingside, castling_queenside, kind_code, is_move_kind_promote,
}
use sofcheck.Core.Bitboard.{
  bb_full, bb_castling_kingside_pass, bb_castling_queenside_pass, advance_pawn_forward,
}
use sofcheck.Core.Attacks.{
  MagicTables, knight_attacks, king_attacks, pawn_attacks, bishop_attack_masked, rook_attack_masked,
}
use sofcheck.Core.MoveGen.{
  nonzero, is_cell_attacked, is_check, king_pos, bb_diag_pieces, bb_line_pieces,
}

-- The cells in front of a pawn that makes a double move.
unfoldable pub must_be_empty : Color → ℕ → ℕ
must_be_empty white src = u64 (0x0101 <<< (src - 16))
must_be_empty black src = u64 (0x010100 <<< src)

-- The case of a pawn in `isMoveValidImpl`.
unfoldable pub is_pawn_move_valid : Color → Board → MoveKind → ℕ → ℕ → Bool
is_pawn_move_valid c b kind src dst =
    let dst_cell = read b.cells dst in
    if kind_code kind == 2
    then bit_and b.bb_all (must_be_empty c src) == 0
    else if kind_code kind == 3
    then (add8 src 1 == b.enpassant_coord || sub8 src 1 == b.enpassant_coord)
      && dst == add8 b.enpassant_coord (pawn_forward_delta c)
    else if not (is_move_kind_promote kind) && coord_x src == promote_src_row c
    then false
    else if dst_cell == empty_cell
    then dst == add8 src (pawn_forward_delta c)
    else if not (color_eq (cell_piece_color dst_cell) c)
    then nonzero (bit_and (pawn_attacks c src) (coord_to_bitboard dst))
    else false

module _ (t : MagicTables) where
  -- The case of any other cell.
  unfoldable pub is_piece_move_valid : Color → Board → MoveKind → ℕ → ℕ → Bool
  is_piece_move_valid c b kind src dst =
      let src_cell = read b.cells src in
      let bb_dst = coord_to_bitboard dst in
      if not (kind_code kind == 1)
      then false
      else if nonzero (bit_and bb_dst (bb_color b c))
      then false
      else if src_cell == make_cell c king
      then nonzero (bit_and (king_attacks src) bb_dst)
      else if src_cell == make_cell c knight
      then nonzero (bit_and (knight_attacks src) bb_dst)
      else if src_cell == make_cell c bishop
      then nonzero (bishop_attack_masked t b.bb_all src bb_dst)
      else if src_cell == make_cell c rook
      then nonzero (rook_attack_masked t b.bb_all src bb_dst)
      else if src_cell == make_cell c queen
      then nonzero (bishop_attack_masked t b.bb_all src bb_dst)
        || nonzero (rook_attack_masked t b.bb_all src bb_dst)
      else false

  unfoldable pub is_kind_valid : Color → Board → MoveKind → ℕ → ℕ → Bool
  is_kind_valid c b null src dst = false
  is_kind_valid c b castling_kingside src dst =
      is_kingside_castling b c
      && bit_and (bb_castling_kingside_pass <<< castling_offset c) b.bb_all == 0
      && not (is_cell_attacked t (invert c) b src)
      && not (is_cell_attacked t (invert c) b (src + 1))
  is_kind_valid c b castling_queenside src dst =
      is_queenside_castling b c
      && bit_and (bb_castling_queenside_pass <<< castling_offset c) b.bb_all == 0
      && not (is_cell_attacked t (invert c) b src)
      && not (is_cell_attacked t (invert c) b (src - 1))
  is_kind_valid c b kind src dst =
      if read b.cells src == make_cell c pawn
      then is_pawn_move_valid c b kind src dst
      else is_piece_move_valid c b kind src dst

  unfoldable pub is_move_valid : Board → Move → Bool
  is_move_valid b m = is_kind_valid b.side b m.kind m.src m.dst

  unfoldable pub is_attacked_masked : Color → Board → ℕ → ℕ → ℕ → Bool
  is_attacked_masked c b king_pos bb_all bb_ours_mask =
      nonzero (
        bit_and
          (bit_or
            (bit_or
              (bit_and (read b.bb_pieces (make_cell c pawn)) (pawn_attacks (invert c) king_pos))
              (bit_and (read b.bb_pieces (make_cell c king)) (king_attacks king_pos)))
            (bit_and (read b.bb_pieces (make_cell c knight)) (knight_attacks king_pos)))
          bb_ours_mask)
      || nonzero
          (bishop_attack_masked t bb_all king_pos (bit_and (bb_diag_pieces c b) bb_ours_mask))
      || nonzero (rook_attack_masked t bb_all king_pos (bit_and (bb_line_pieces c b) bb_ours_mask))

  unfoldable pub is_move_legal_impl : Color → Board → Move → Bool
  is_move_legal_impl c b m =
      let bb_src = coord_to_bitboard m.src in
      let bb_dst = coord_to_bitboard m.dst in
      let king_at = king_pos b c in
      let bb_all = bit_or (bit_xor b.bb_all bb_src) bb_dst in
      let bb_ours_mask = bit_not bb_dst in
      let bb_tmp = advance_pawn_forward (invert c) bb_dst in
      if kind_code m.kind == 0
      then not (is_check t b)
      else if read b.cells m.src == make_cell c king
      then not (is_attacked_masked (invert c) b m.dst (bit_xor b.bb_all bb_src) bb_full)
      else if kind_code m.kind == 3
      then not (
          is_attacked_masked (invert c) b king_at (bit_xor bb_all bb_tmp)
            (bit_xor bb_ours_mask bb_tmp))
      else not (is_attacked_masked (invert c) b king_at bb_all bb_ours_mask)

  unfoldable pub is_move_legal : Board → Move → Bool
  is_move_legal b m = is_move_legal_impl b.side b m
