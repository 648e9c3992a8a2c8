-- ===== src/Core/Bitboard.antt =====
-- core/bitboard.h, core/private/bitboard.h and core/private/magic_util.h: the bitboards of rows,
-- columns and diagonals, the moves of all pawns at once, and the masks of the magic tables.
pub mod Shift
use sofcheck.Common.{
  ℕ, ◌+◌, ◌-◌, List, [], ◌∷◌, bit_and, bit_or, bit_xor, bit_not, u64, ◌<<<◌, ◌>>>◌, read, map,
}
use sofcheck.Core.Types.{
  Color, white, black, coord_x, coord_y, coord_diag1, coord_diag2, coord_to_bitboard,
}

abbrev pub bb_full : ℕ
bb_full = 0xffff_ffff_ffff_ffff

abbrev pub bb_diag1 : List ℕ
bb_diag1 =
    0x0000000000000001 ∷ 0x0000000000000102 ∷ 0x0000000000010204 ∷ 0x0000000001020408
    ∷ 0x0000000102040810 ∷ 0x0000010204081020 ∷ 0x0001020408102040 ∷ 0x0102040810204080
    ∷ 0x0204081020408000 ∷ 0x0408102040800000 ∷ 0x0810204080000000 ∷ 0x1020408000000000
    ∷ 0x2040800000000000 ∷ 0x4080000000000000 ∷ 0x8000000000000000 ∷ []

abbrev pub bb_diag2 : List ℕ
bb_diag2 =
    0x0100000000000000 ∷ 0x0201000000000000 ∷ 0x0402010000000000 ∷ 0x0804020100000000
    ∷ 0x1008040201000000 ∷ 0x2010080402010000 ∷ 0x4020100804020100 ∷ 0x8040201008040201
    ∷ 0x0080402010080402 ∷ 0x0000804020100804 ∷ 0x0000008040201008 ∷ 0x0000000080402010
    ∷ 0x0000000000804020 ∷ 0x0000000000008040 ∷ 0x0000000000000080 ∷ []

abbrev pub bb_row : List ℕ
bb_row =
    0x00000000000000ff ∷ 0x000000000000ff00 ∷ 0x0000000000ff0000 ∷ 0x00000000ff000000
    ∷ 0x000000ff00000000 ∷ 0x0000ff0000000000 ∷ 0x00ff000000000000 ∷ 0xff00000000000000 ∷ []

abbrev pub bb_col : List ℕ
bb_col =
    0x0101010101010101 ∷ 0x0202020202020202 ∷ 0x0404040404040404 ∷ 0x0808080808080808
    ∷ 0x1010101010101010 ∷ 0x2020202020202020 ∷ 0x4040404040404040 ∷ 0x8080808080808080 ∷ []

unfoldable pub advance_pawn_forward : Color → ℕ → ℕ
advance_pawn_forward white bb_pawns = bb_pawns >>> 8
advance_pawn_forward black bb_pawns = u64 (bb_pawns <<< 8)

unfoldable pub advance_pawn_left : Color → ℕ → ℕ
advance_pawn_left white bb_pawns = bit_and bb_pawns (bit_not (read bb_col 0)) >>> 9
advance_pawn_left black bb_pawns = u64 (bit_and bb_pawns (bit_not (read bb_col 0)) <<< 7)

unfoldable pub advance_pawn_right : Color → ℕ → ℕ
advance_pawn_right white bb_pawns = bit_and bb_pawns (bit_not (read bb_col 7)) >>> 7
advance_pawn_right black bb_pawns = u64 (bit_and bb_pawns (bit_not (read bb_col 7)) <<< 9)

abbrev pub bb_row_frame : ℕ
bb_row_frame = 0x8181818181818181

abbrev pub bb_col_frame : ℕ
bb_col_frame = 0xff000000000000ff

abbrev pub bb_diag_frame : ℕ
bb_diag_frame = 0xff818181818181ff

abbrev pub bb_castling_kingside_pass : ℕ
bb_castling_kingside_pass = 0x60

abbrev pub bb_castling_queenside_pass : ℕ
bb_castling_queenside_pass = 0x0e

unfoldable pub build_magic_rook_mask : ℕ → ℕ
build_magic_rook_mask c =
    bit_and
      (bit_or (bit_and (read bb_row (coord_x c)) (bit_not bb_row_frame))
        (bit_and (read bb_col (coord_y c)) (bit_not bb_col_frame)))
      (bit_not (coord_to_bitboard c))

unfoldable pub build_magic_rook_post_mask : ℕ → ℕ
build_magic_rook_post_mask c = bit_xor (read bb_row (coord_x c)) (read bb_col (coord_y c))

unfoldable pub build_magic_bishop_mask : ℕ → ℕ
build_magic_bishop_mask c =
    bit_and (bit_xor (read bb_diag1 (coord_diag1 c)) (read bb_diag2 (coord_diag2 c)))
      (bit_not bb_diag_frame)

unfoldable pub build_magic_bishop_post_mask : ℕ → ℕ
build_magic_bishop_post_mask c =
    bit_xor (read bb_diag1 (coord_diag1 c)) (read bb_diag2 (coord_diag2 c))
