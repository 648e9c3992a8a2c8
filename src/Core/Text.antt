-- ===== src/Core/Text.antt =====
-- core/strutil.h, core/strutil.cpp and core/move_parser.cpp: cells, coordinates and moves as text. A
-- character is its code below 256, a string the list of its characters.
pub mod Trip
pub mod Parse
use sofcheck.Common.{
  ℕ, ◌+◌, ◌-◌, Bool, true, false, ◌&&◌, ◌||◌, not, leb, ltb, ◌==◌, if◌then◌else◌, List, [], ◌∷◌,
  ◌++◌, bit_or, u8, ◌<<<◌, read,
}
use sofcheck.Core.Types.{
  Color, white, black, pawn, king, make_cell, empty_cell, invalid_coord, coord_x, coord_y,
  make_coord,
}
use sofcheck.Core.Geometry.{double_move_src_row, double_move_dst_row, castling_row}
use sofcheck.Core.Board.{Board}
use sofcheck.Core.Move.{
  Move, MoveKind, null, simple, pawn_double_move, enpassant, castling_kingside, castling_queenside,
  promote_knight, promote_bishop, promote_rook, promote_queen, null_move, invalid_move, kind_code,
  is_move_kind_promote, promote_code,
}

-- `transpos` of `cellToChar`: ".PKNBRQ??pknbrq?".
abbrev cell_chars : List ℕ
cell_chars = 46 ∷ 80 ∷ 75 ∷ 78 ∷ 66 ∷ 82 ∷ 81 ∷ 63 ∷ 63 ∷ 112 ∷ 107 ∷ 110 ∷ 98 ∷ 114 ∷ 113 ∷ 63 ∷ []

unfoldable pub cell_to_char : ℕ → ℕ
cell_to_char cell = if leb 16 cell then 63 else read cell_chars cell

unfoldable pub is_x_char_valid : ℕ → Bool
is_x_char_valid c = leb 49 c && leb c 56

unfoldable pub is_y_char_valid : ℕ → Bool
is_y_char_valid c = leb 97 c && leb c 104

unfoldable pub x_sub_to_char : ℕ → ℕ
x_sub_to_char x = 56 - x

unfoldable pub y_sub_to_char : ℕ → ℕ
y_sub_to_char y = 97 + y

unfoldable pub char_to_sub_x : ℕ → ℕ
char_to_sub_x c = 56 - c

unfoldable pub char_to_sub_y : ℕ → ℕ
char_to_sub_y c = c - 97

unfoldable pub chars_to_coord : ℕ → ℕ → ℕ
chars_to_coord cy cx = make_coord (char_to_sub_x cx) (char_to_sub_y cy)

-- `transpos` of `moveToStr`: "pknbrq".
abbrev promote_chars : List ℕ
promote_chars = 112 ∷ 107 ∷ 110 ∷ 98 ∷ 114 ∷ 113 ∷ []

unfoldable pub move_to_str : Move → List ℕ
move_to_str m =
    if kind_code m.kind == 0
    then 48 ∷ 48 ∷ 48 ∷ 48 ∷ []
    else (y_sub_to_char (coord_y m.src)
        ∷ x_sub_to_char (coord_x m.src)
        ∷ y_sub_to_char (coord_y m.dst)
        ∷ x_sub_to_char (coord_x m.dst)
        ∷ (if is_move_kind_promote m.kind
            then read promote_chars (promote_code m.kind) ∷ []
            else []))

pub data PromotePiece : Type 0 where
  none knight bishop rook queen : PromotePiece

abbrev pub promote_piece_code : PromotePiece → ℕ
promote_piece_code none = 0
promote_piece_code knight = 1
promote_piece_code bishop = 2
promote_piece_code rook = 3
promote_piece_code queen = 4

pub record ParsedMove : Type 0 where
  pub promote : PromotePiece
  pub src : ℕ
  pub dst : ℕ
  pub unused : ℕ

unfoldable pub parsed_as_uint : ParsedMove → ℕ
parsed_as_uint p =
    bit_or (bit_or (bit_or (u8 (promote_piece_code p.promote)) (u8 p.src <<< 8)) (u8 p.dst <<< 16))
      (u8 p.unused <<< 24)

unfoldable pub parsed_eq : ParsedMove → ParsedMove → Bool
parsed_eq a b = parsed_as_uint a == parsed_as_uint b

abbrev pub invalid_parsed_move : ParsedMove
invalid_parsed_move = record {
  promote = none;
  src = invalid_coord;
  dst = invalid_coord;
  unused = 0;
}

abbrev pub null_parsed_move : ParsedMove
null_parsed_move = record { promote = none; src = 0; dst = 0; unused = 0 }

-- The four characters of the coordinates, after the test for "0000".
unfoldable pub coords_from_str : ℕ → ℕ → ℕ → ℕ → ParsedMove
coords_from_str a b c d =
    if not (is_y_char_valid a)
      || not (is_x_char_valid b)
      || not (is_y_char_valid c)
      || not (is_x_char_valid d)
    then invalid_parsed_move
    else record { promote = none; src = chars_to_coord a b; dst = chars_to_coord c d; unused = 0 }

-- `switch (first[4])` on a result whose coordinates were valid.
unfoldable pub promote_from_str : ℕ → ParsedMove → ParsedMove
promote_from_str e p =
    if e == 110
    then record p { promote = knight }
    else if e == 98
    then record p { promote = bishop }
    else if e == 114
    then record p { promote = rook }
    else if e == 113
    then record p { promote = queen }
    else invalid_parsed_move

unfoldable pub from_str : List ℕ → ParsedMove
from_str (a ∷ b ∷ c ∷ d ∷ []) =
    if a == 48 && b == 48 && c == 48 && d == 48
    then record { promote = none; src = 0; dst = 0; unused = 0 }
    else coords_from_str a b c d
from_str (a ∷ b ∷ c ∷ d ∷ e ∷ []) =
    if not (is_y_char_valid a)
      || not (is_x_char_valid b)
      || not (is_y_char_valid c)
      || not (is_x_char_valid d)
    then invalid_parsed_move
    else promote_from_str e (coords_from_str a b c d)
from_str _ = invalid_parsed_move

-- The kind of a move that promotes to a piece.
abbrev pub promote_kind : PromotePiece → MoveKind
promote_kind none = simple
promote_kind knight = promote_knight
promote_kind bishop = promote_bishop
promote_kind rook = promote_rook
promote_kind queen = promote_queen

-- The kinds that a move without promotion takes in a position: pawns, then kings.
unfoldable pub pawn_or_king_kind : Color → List ℕ → ℕ → ℕ → MoveKind
pawn_or_king_kind c cells src dst =
    let x = castling_row c in
    if read cells src == make_cell c pawn
      && coord_x src == double_move_src_row c
      && coord_x dst == double_move_dst_row c
    then pawn_double_move
    else if read cells src == make_cell c pawn
        && not (coord_y src == coord_y dst)
        && read cells dst == empty_cell
    then enpassant
    else if read cells src == make_cell c king && src == make_coord x 4 && dst == make_coord x 6
    then castling_kingside
    else if read cells src == make_cell c king && src == make_coord x 4 && dst == make_coord x 2
    then castling_queenside
    else simple

unfoldable pub move_from_parsed : ParsedMove → Board → Move
move_from_parsed p b =
    if parsed_eq p invalid_parsed_move
    then invalid_move
    else if parsed_eq p null_parsed_move
    then null_move
    else if not (promote_piece_code p.promote == 0)
    then record { kind = promote_kind p.promote; src = p.src; dst = p.dst; tag = 0 }
    else record {
      kind = pawn_or_king_kind b.side b.cells p.src p.dst;
      src = p.src;
      dst = p.dst;
      tag = 0;
    }

unfoldable pub move_parse : List ℕ → Board → Move
move_parse str b = move_from_parsed (from_str str) b
