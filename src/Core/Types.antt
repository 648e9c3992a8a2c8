-- ===== src/Core/Types.antt =====
-- core/types.h: cells, coordinates, colours, pieces and castling flags. `coord_t`, `subcoord_t`,
-- `cell_t` and `Castling` are 8-bit patterns; the pattern of -1 is 255.
use sofcheck.Common.{
  ℕ, ◌+◌, ◌-◌, Bool, true, false, ◌&&◌, ◌||◌, not, ltb, leb, ◌==◌, if◌then◌else◌, bit_and, bit_or,
  bit_xor, ◌>>>◌, ◌<<<◌,
}

pub data Color : Type 0 where
  white black : Color

pub data Piece : Type 0 where
  pawn king knight bishop rook queen : Piece

-- The numbers of the enumerators.
abbrev pub color_code : Color → ℕ
color_code white = 0
color_code black = 1

abbrev pub piece_code : Piece → ℕ
piece_code pawn = 0
piece_code king = 1
piece_code knight = 2
piece_code bishop = 3
piece_code rook = 4
piece_code queen = 5

abbrev pub color_eq : Color → Color → Bool
color_eq white white = true
color_eq black black = true
color_eq _ _ = false

abbrev pub empty_cell : ℕ
empty_cell = 0

abbrev pub invalid_coord : ℕ
invalid_coord = 255

-- The enumerators of `Castling`.
abbrev pub castling_none : ℕ
castling_none = 0

abbrev pub white_queenside : ℕ
white_queenside = 1

abbrev pub white_kingside : ℕ
white_kingside = 2

abbrev pub black_queenside : ℕ
black_queenside = 4

abbrev pub black_kingside : ℕ
black_kingside = 8

abbrev pub castling_all : ℕ
castling_all = 15

-- `~` on `Castling` stays within `All`.
abbrev pub castling_not : ℕ → ℕ
castling_not c = bit_xor castling_all c

abbrev pub castling_queenside : Color → ℕ
castling_queenside white = white_queenside
castling_queenside black = black_queenside

abbrev pub castling_kingside : Color → ℕ
castling_kingside white = white_kingside
castling_kingside black = black_kingside

-- Whether any of the flags is set.
abbrev pub has : ℕ → Bool
has c = not (c == castling_none)

abbrev pub invert : Color → Color
invert white = black
invert black = white

unfoldable pub make_coord : ℕ → ℕ → ℕ
make_coord x y = bit_or (x <<< 3) y

unfoldable pub coord_x : ℕ → ℕ
coord_x coord = coord >>> 3

unfoldable pub coord_y : ℕ → ℕ
coord_y coord = bit_and coord 7

unfoldable pub coord_diag1 : ℕ → ℕ
coord_diag1 coord = coord_x coord + coord_y coord

unfoldable pub coord_diag2 : ℕ → ℕ
coord_diag2 coord = 7 - coord_x coord + coord_y coord

unfoldable pub coord_flip_x : ℕ → ℕ
coord_flip_x coord = bit_xor coord 56

unfoldable pub coord_flip_y : ℕ → ℕ
coord_flip_y coord = bit_xor coord 7

-- A shift by 64 or more is undefined; the coordinates are below 64.
unfoldable pub coord_to_bitboard : ℕ → ℕ
coord_to_bitboard coord = 1 <<< coord

unfoldable pub bitboard_has_bit : ℕ → ℕ → Bool
bitboard_has_bit bb coord = not (bit_and (bb >>> coord) 1 == 0)

abbrev pub color_offset : Color → ℕ
color_offset white = 1
color_offset black = 9

unfoldable pub is_cell_valid : ℕ → Bool
is_cell_valid c =
    c == empty_cell
    || (leb (color_offset white) c && leb c (color_offset white + 5))
    || (leb (color_offset black) c && leb c (color_offset black + 5))

abbrev pub cell_piece_color : ℕ → Color
cell_piece_color c = if ltb c 8 then white else black

unfoldable pub is_cell_piece_color_equal_to : ℕ → Color → Bool
is_cell_piece_color_equal_to c white = not (bit_and (1 <<< c) 0x7e == 0)
is_cell_piece_color_equal_to c black = not (bit_and (1 <<< c) 0x7e00 == 0)

-- The code of the piece in a cell that is not empty.
unfoldable pub cell_piece : ℕ → ℕ
cell_piece c = bit_and c 7 - 1

abbrev pub make_cell : Color → Piece → ℕ
make_cell c p = color_offset c + piece_code p
