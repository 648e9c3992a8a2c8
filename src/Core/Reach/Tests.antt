-- ===== src/Core/Reach/Tests.antt =====
-- A game of two half moves from the first position.
use sofcheck.Common.{◌≡◌, refl, inl, inr, read, write, for_below, bit_not, arith, Occurs}
use sofcheck.Core.Types.{make_coord, coord_x, coord_y, coord_diag1, coord_diag2, coord_to_bitboard}
use sofcheck.Core.Initial.{set_initial_position, initial_cells}
use sofcheck.Core.Bitboard.{
  advance_pawn_forward, build_magic_rook_mask, build_magic_bishop_mask, build_magic_rook_post_mask,
  build_magic_bishop_post_mask,
}
use sofcheck.Core.Attacks.{
  king_attacks, knight_attacks, pawn_attacks, generate_directed, directed, bishop_attack_masked,
  rook_attack_masked, masked_attack_bitboard, do_attack_bitboard, magic_rook, magic_bishop,
}
use sofcheck.Core.MoveGen.{king_pos, cell_attackers, bb_diag_pieces, bb_line_pieces}
use sofcheck.Core.MoveGen.Pawns.{
  gen_pawn_simple, do_gen_pawn_single, do_gen_pawn_double, add_pawn_with_promote, filter_dst,
}
use sofcheck.Util.Bit.{bits_of, extract_all, get_lowest, clear_lowest, de_bruijn, lowest_index}
use sofcheck.Core.Board.{
  update, update_enpassant, update_castling_of, update_bitboards, compute_bitboards,
  add_to_bitboards,
}
use sofcheck.Core.Move.{null_move}
use sofcheck.Core.Tests.{keys, blank, start, opening, start-number}
use sofcheck.Core.Make.{move_make, move_unmake}
use sofcheck.Core.Make.Sums.{init_zobrist-KeysMade}
use sofcheck.Core.MoveGen.Gen.{gen_all_moves, new_move_gen, gen_impl, gen_checked, gen_impl_inner}
use sofcheck.Core.MoveGen.Tests.{tables}
use sofcheck.Core.Reach.Play.{InPlay, Reach-InPlay, Reach-move_unmake, here, move, pass}
use sofcheck.Core.Reach.Initial.{set_initial_position-InPlay}

opening-generated : Occurs opening (gen_all_moves tables (new_move_gen tables start))
unfolding set_initial_position update update_enpassant update_castling_of update_bitboards
    compute_bitboards add_to_bitboards initial_cells read write for_below make_coord coord_x coord_y
    coord_diag1 coord_diag2 coord_to_bitboard gen_all_moves new_move_gen gen_impl gen_checked
    gen_impl_inner gen_pawn_simple do_gen_pawn_single do_gen_pawn_double add_pawn_with_promote
    filter_dst advance_pawn_forward bits_of extract_all get_lowest clear_lowest de_bruijn
    lowest_index bit_not king_pos cell_attackers king_attacks knight_attacks pawn_attacks
    generate_directed directed bishop_attack_masked rook_attack_masked masked_attack_bitboard
    do_attack_bitboard magic_rook magic_bishop build_magic_rook_mask build_magic_bishop_mask
    build_magic_rook_post_mask build_magic_bishop_post_mask bb_diag_pieces bb_line_pieces
opening-generated = inr (inr (inr (inr (inr (inr (inr (inr (inr (inr (inr (inr (inl refl))))))))))))

Reach-InPlay_example : InPlay keys (move_make keys (move_make keys start opening).0 null_move).0
Reach-InPlay_example =
    Reach-InPlay keys (init_zobrist-KeysMade _) tables start
      (move_make keys (move_make keys start opening).0 null_move).0
      (set_initial_position-InPlay keys blank) (pass (move opening here opening-generated))

Reach-move_unmake_example :
    move_unmake keys (move_make keys start opening).0 opening (move_make keys start opening).1
    ≡ start
Reach-move_unmake_example =
    Reach-move_unmake keys (init_zobrist-KeysMade _) tables start start opening
      (set_initial_position-InPlay keys blank) here opening-generated (omega (arith, start-number))
