-- ===== src/Core/Validate/Tests.antt =====
-- Validation of the first position, and of a board with bad data.
use sofcheck.Common.{ℕ, ◌≡◌, ◌↔◌, refl, read, write, for_below, length}
use sofcheck.Core.Types.{
  Color, white, king, make_cell, make_coord, coord_x, coord_y, coord_diag1, coord_diag2,
  coord_to_bitboard, is_cell_valid,
}
use sofcheck.Core.Board.{
  Board, update, update_enpassant, update_castling_of, update_bitboards, compute_bitboards,
  add_to_bitboards,
}
use sofcheck.Core.Initial.{initial_cells}
use sofcheck.Core.Tests.{keys, blank}
use sofcheck.Core.Reach.Play.{InPlay}
use sofcheck.Core.Bitboard.{
  build_magic_rook_mask, build_magic_bishop_mask, build_magic_rook_post_mask,
  build_magic_bishop_post_mask,
}
use sofcheck.Core.Attacks.{
  king_attacks, knight_attacks, pawn_attacks, generate_directed, directed, bishop_attack_masked,
  rook_attack_masked, masked_attack_bitboard, do_attack_bitboard, magic_rook, magic_bishop,
}
use sofcheck.Core.MoveGen.{
  king_pos, is_cell_attacked, was_move_legal, bb_diag_pieces, bb_line_pieces,
}
use sofcheck.Core.MoveGen.Tests.{tables}
use sofcheck.Core.Validate.{ok, bad_data, check_data, check_updated, validate, validate_rest}
use sofcheck.Core.Validate.Kings.{validate-InPlay}
use sofcheck.Core.Validate.Errors.{GoodData, validate-bad_data}
use sofcheck.Util.Bit.{popcount, get_lowest, clear_lowest, de_bruijn, lowest_index}

-- The first position before `update`.
abbrev raw : Board
raw = record blank { cells = initial_cells; side = white; castling = 15; enpassant_coord = 255 }

raw-size : length raw.cells ≡ 64
unfolding initial_cells write for_below make_coord
raw-size = refl

raw-accepted : (validate tables keys raw).1 ≡ ok
unfolding validate validate_rest check_data check_updated update update_enpassant update_castling_of
    update_bitboards compute_bitboards add_to_bitboards initial_cells read write for_below
    make_coord coord_x coord_y coord_diag1 coord_diag2 coord_to_bitboard is_cell_valid popcount
    was_move_legal is_cell_attacked king_pos king_attacks knight_attacks pawn_attacks
    generate_directed directed bishop_attack_masked rook_attack_masked masked_attack_bitboard
    do_attack_bitboard magic_rook magic_bishop build_magic_rook_mask build_magic_bishop_mask
    build_magic_rook_post_mask build_magic_bishop_post_mask bb_diag_pieces bb_line_pieces get_lowest
    clear_lowest de_bruijn lowest_index
raw-accepted = refl

validate-InPlay_example :
    InPlay keys (validate tables keys raw).0
    × ((c : Color) → (i : ℕ) × (read (validate tables keys raw).0.cells i ≡ make_cell c king))
validate-InPlay_example = validate-InPlay keys tables raw raw-size raw-accepted

-- A cell with the code 7.
abbrev broken : Board
broken = record raw { cells = write initial_cells 20 7 }

validate-bad_data_example : ((validate tables keys broken).1 ≡ bad_data) ↔ (¬ GoodData broken)
validate-bad_data_example = validate-bad_data keys tables broken
