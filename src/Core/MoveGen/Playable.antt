-- ===== src/Core/MoveGen/Playable.antt =====
-- The moves of pieces that are generated pass `isWellFormed` and `isMoveValid`.
use sofcheck.Common.{ℕ, ◌<◌, ◌^◌, ◌≡◌, ◌∙◌, ◌⊎◌, Bool, true, ==_iff, read, List, arith, bit_or, All}
use sofcheck.Common.Bits.{test_bit, test_bit-or, and_bit_right, lt-pow_of_bits}
use sofcheck.Core.Types.{Color, Piece, king, knight, bishop, rook, queen, make_cell}
use sofcheck.Core.Zobrist.{Zobrist}
use sofcheck.Core.Board.{Board}
use sofcheck.Core.Synced.{IsSynced}
use sofcheck.Core.Bitboard.{build_magic_rook_post_mask, build_magic_bishop_post_mask}
use sofcheck.Core.Attacks.{
  MagicTables, king_attacks, knight_attacks, bishop_attack_bitboard, rook_attack_bitboard,
  do_attack_bitboard, magic_rook, magic_bishop,
}
use sofcheck.Core.Coherent.{piece_bit}
use sofcheck.Core.Coherent.Playable.{IsPlayable}
use sofcheck.Core.MoveGen.{king_pos, bb_diag_pieces, bb_line_pieces}
use sofcheck.Core.MoveGen.Pawns.{GenFilter, simple_gen_filter}
use sofcheck.Core.MoveGen.Pieces.{gen_knight, gen_king, gen_bishop, gen_rook}
use sofcheck.Core.MoveGen.Targets.{gen_steps-All, piece_lt, allowed_lt, allowed_free}
use sofcheck.Core.MoveGen.PieceSteps.{
  king_step, knight_step, diag_step, line_step, moves_away, king_table, knight_table, rook_table,
  bishop_table,
}
use sofcheck.Util.Bit.Lowest.{get_lowest_lem}

-- A colour has at most one king.
abbrev pub OneKing : Color → List ℕ → Type 0
OneKing c cells =
    (i j : ℕ) → read cells i ≡ make_cell c king → read cells j ≡ make_cell c king → i ≡ j

module _ (z : Zobrist) (t : MagicTables) (b : Board) (h : IsSynced z b) where
  pub gen_king-All : (s k : Bool) → All (IsPlayable t b) (gen_king b.side s k b)
  unfolding gen_king
  gen_king-All s k =
      gen_steps-All (IsPlayable t b) king_attacks _ simple_gen_filter _
        (allowed_lt z b h b.side s k) (piece_lt z b h b.side king)
        λ i j i_lt j_lt src hit m.
          king_step z t b h i j
            (record {
              src_lt = i_lt;
              dst_lt = j_lt;
              moves = moves_away king_attacks king_table i j i_lt hit;
              hit = hit;
              free = allowed_free z b h b.side s k j j_lt m;
            })
            ((==_iff _ _).0 (ground (arith, piece_bit z b h b.side king i)))

  module _ (filter : GenFilter) (s k : Bool) where
    pub gen_knight-All : All (IsPlayable t b) (gen_knight b.side s k filter b)
    unfolding gen_knight
    gen_knight-All =
        gen_steps-All (IsPlayable t b) knight_attacks _ filter _ (allowed_lt z b h b.side s k)
          (piece_lt z b h b.side knight)
          λ i j i_lt j_lt src hit m.
            knight_step z t b h i j
              (record {
                src_lt = i_lt;
                dst_lt = j_lt;
                moves = moves_away knight_attacks knight_table i j i_lt hit;
                hit = hit;
                free = allowed_free z b h b.side s k j j_lt m;
              })
              ((==_iff _ _).0 (ground (arith, piece_bit z b h b.side knight i)))

    either_piece :
        (p q : Piece) (i : ℕ)
        → test_bit
            (bit_or (read b.bb_pieces (make_cell b.side p)) (read b.bb_pieces (make_cell b.side q)))
            i
          ≡ true
        → (i < 64) × ((read b.cells i ≡ make_cell b.side p) ⊎ (read b.cells i ≡ make_cell b.side q))
    either_piece p q i e = ground (
      arith,
      test_bit-or i (read b.bb_pieces (make_cell b.side p)) (read b.bb_pieces (make_cell b.side q)),
      piece_bit z b h b.side p i,
      piece_bit z b h b.side q i,
    )

    either_lt :
        (p q : Piece)
        → bit_or (read b.bb_pieces (make_cell b.side p)) (read b.bb_pieces (make_cell b.side q))
          < 2 ^ 64
    either_lt p q = lt-pow_of_bits 64 _ λ i le. ground (
      arith,
      test_bit-or i (read b.bb_pieces (make_cell b.side p)) (read b.bb_pieces (make_cell b.side q)),
      piece_bit z b h b.side p i,
      piece_bit z b h b.side q i,
    )

    pub gen_bishop-All :
        All (IsPlayable t b) (gen_bishop t b.side s k filter b (bb_diag_pieces b.side b))
    unfolding gen_bishop bb_diag_pieces bishop_attack_bitboard do_attack_bitboard magic_bishop
    gen_bishop-All =
        gen_steps-All (IsPlayable t b) (bishop_attack_bitboard t b.bb_all) _ filter _
          (allowed_lt z b h b.side s k) (either_lt bishop queen)
          λ i j i_lt j_lt src hit m.
            diag_step z t b h i j
              (record {
                src_lt = i_lt;
                dst_lt = j_lt;
                moves =
                    moves_away build_magic_bishop_post_mask bishop_table i j i_lt
                      (and_bit_right _ (build_magic_bishop_post_mask i) j hit);
                hit = hit;
                free = allowed_free z b h b.side s k j j_lt m;
              })
              (either_piece bishop queen i src).1

    pub gen_rook-All :
        All (IsPlayable t b) (gen_rook t b.side s k filter b (bb_line_pieces b.side b))
    unfolding gen_rook bb_line_pieces rook_attack_bitboard do_attack_bitboard magic_rook
    gen_rook-All =
        gen_steps-All (IsPlayable t b) (rook_attack_bitboard t b.bb_all) _ filter _
          (allowed_lt z b h b.side s k) (either_lt rook queen)
          λ i j i_lt j_lt src hit m.
            line_step z t b h i j
              (record {
                src_lt = i_lt;
                dst_lt = j_lt;
                moves =
                    moves_away build_magic_rook_post_mask rook_table i j i_lt
                      (and_bit_right _ (build_magic_rook_post_mask i) j hit);
                hit = hit;
                free = allowed_free z b h b.side s k j j_lt m;
              })
              (either_piece rook queen i src).1

  -- The only king's cell is the one that `kingPos` finds.
  pub king_pos_lem :
      (c : Color) (i : ℕ)
      → OneKing c b.cells
      → i < 64
      → read b.cells i ≡ make_cell c king
      → king_pos b c ≡ i
  unfolding king_pos
  king_pos_lem c i one lt at =
      get_lowest_lem _ i
        (record {
          is_set = piece_bit z b h c king i ∙ ground (arith, at);
          none_below = λ j less. ground (arith, piece_bit z b h c king j, one i j at);
        })
        lt
