-- ===== src/Core/Fen.antt =====
-- core/board.cpp: `Board::asFen`. A string is the list of its codes, and what the calls write one
-- after the other.
pub mod Parse
pub mod Rows
pub mod Cells
pub mod Fields
pub mod Update
pub mod Trip
pub mod Accepts
pub mod Stages
pub mod Accepted
pub mod Tests
use sofcheck.Common.{
  ℕ, suc, ◌+◌, zero, Bool, true, false, not, ◌==◌, if◌then◌else◌, List, [], ◌∷◌, ◌++◌, map, read,
}
use sofcheck.Core.Types.{Color, white, black, empty_cell, invalid_coord, make_coord, coord_y}
use sofcheck.Core.Board.{Board, is_any_castling, is_kingside_castling, is_queenside_castling}
use sofcheck.Core.Text.{cell_to_char, y_sub_to_char}
use sofcheck.Util.Strutil.{Charconv}

abbrev pub eight : List ℕ
eight = 0 ∷ 1 ∷ 2 ∷ 3 ∷ 4 ∷ 5 ∷ 6 ∷ 7 ∷ []

-- `if (empty != 0) *(fen++) = '0' + empty;`
unfoldable pub empty_digit : ℕ → List ℕ
empty_digit zero = []
empty_digit (suc n) = (48 + suc n) ∷ []

-- A row: the number of empty cells that wait, and the cells from here.
unfoldable pub row_text : ℕ → List ℕ → List ℕ
row_text empty [] = empty_digit empty
row_text empty (c ∷ cells) =
    if c == empty_cell
    then row_text (suc empty) cells
    else empty_digit empty ++ cell_to_char c ∷ row_text 0 cells

abbrev pub row_cells : List ℕ → ℕ → List ℕ
row_cells cells i = map (λ j. read cells (make_coord i j)) eight

unfoldable pub rows_text : List ℕ → List ℕ → List ℕ
rows_text cells [] = []
rows_text cells (i ∷ rows) =
    (if i == 0 then [] else 47 ∷ []) ++ (row_text 0 (row_cells cells i) ++ rows_text cells rows)

abbrev char_if : Bool → ℕ → List ℕ
char_if test c = if test then c ∷ [] else []

unfoldable pub side_text : Color → List ℕ
side_text white = 119 ∷ []
side_text black = 98 ∷ []

unfoldable pub castling_text : Board → List ℕ
castling_text b =
    if not (is_any_castling b)
    then 45 ∷ []
    else char_if (is_kingside_castling b white) 75
      ++ char_if (is_queenside_castling b white) 81
      ++ char_if (is_kingside_castling b black) 107
      ++ char_if (is_queenside_castling b black) 113

abbrev pub enpassant_row_char : Color → ℕ
enpassant_row_char white = 54
enpassant_row_char black = 51

unfoldable pub enpassant_text : Board → List ℕ
enpassant_text b =
    if b.enpassant_coord == invalid_coord
    then 45 ∷ []
    else y_sub_to_char (coord_y b.enpassant_coord) ∷ enpassant_row_char b.side ∷ []

-- `*(fen++) = ' '`, and what follows.
abbrev pub then_space : List ℕ → List ℕ → List ℕ
then_space part rest = part ++ (32 ∷ rest)

unfoldable pub as_fen : Charconv → Board → List ℕ
as_fen d b = then_space (rows_text b.cells eight) (
    then_space (side_text b.side) (
      then_space (castling_text b) (
        then_space (enpassant_text b)
          (then_space (d.to_chars b.move_counter) (d.to_chars b.move_number)))))
