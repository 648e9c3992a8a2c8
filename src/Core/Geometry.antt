-- ===== src/Core/Geometry.antt =====
-- core/private/geometry.h and core/private/bitboard.h: the rows and masks of the special moves.
use sofcheck.Common.{ℕ, ◌<<<◌, bit_or}
use sofcheck.Core.Types.{Color, white, black}

abbrev pub enpassant_src_row : Color → ℕ
enpassant_src_row white = 3
enpassant_src_row black = 4

abbrev pub enpassant_dst_row : Color → ℕ
enpassant_dst_row white = 2
enpassant_dst_row black = 5

abbrev pub promote_src_row : Color → ℕ
promote_src_row white = 1
promote_src_row black = 6

abbrev pub promote_dst_row : Color → ℕ
promote_dst_row white = 0
promote_dst_row black = 7

abbrev pub double_move_src_row : Color → ℕ
double_move_src_row white = 6
double_move_src_row black = 1

abbrev pub double_move_dst_row : Color → ℕ
double_move_dst_row white = 4
double_move_dst_row black = 3

abbrev pub castling_row : Color → ℕ
castling_row white = 7
castling_row black = 0

abbrev pub castling_offset : Color → ℕ
castling_offset c = castling_row c <<< 3

-- The deltas are 8-bit patterns: 248 stands for -8, 247 for -9 and 249 for -7.
abbrev pub pawn_forward_delta : Color → ℕ
pawn_forward_delta white = 248
pawn_forward_delta black = 8

abbrev pub pawn_left_delta : Color → ℕ
pawn_left_delta white = 247
pawn_left_delta black = 7

abbrev pub pawn_right_delta : Color → ℕ
pawn_right_delta white = 249
pawn_right_delta black = 9

abbrev pub bb_castling_black_kingside_srcs : ℕ
bb_castling_black_kingside_srcs = 0x90

abbrev pub bb_castling_black_queenside_srcs : ℕ
bb_castling_black_queenside_srcs = 0x11

abbrev pub bb_castling_black_all_srcs : ℕ
bb_castling_black_all_srcs = 0x91

abbrev pub bb_castling_white_kingside_srcs : ℕ
bb_castling_white_kingside_srcs = bb_castling_black_kingside_srcs <<< 56

abbrev pub bb_castling_white_queenside_srcs : ℕ
bb_castling_white_queenside_srcs = bb_castling_black_queenside_srcs <<< 56

abbrev pub bb_castling_white_all_srcs : ℕ
bb_castling_white_all_srcs = bb_castling_black_all_srcs <<< 56

abbrev pub bb_castling_all_srcs : ℕ
bb_castling_all_srcs = bit_or bb_castling_white_all_srcs bb_castling_black_all_srcs
