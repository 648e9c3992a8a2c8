-- ===== src/Core/Fen/Parse.antt =====
-- core/board.cpp: `Board::setFromFen` and `Board::fromFen`.
use sofcheck.Common.{
  ℕ, suc, zero, ◌+◌, ◌-◌, Bool, true, false, ◌&&◌, not, leb, ltb, ◌==◌, if◌then◌else◌, Option, none,
  some, List, [], ◌∷◌, write,
}
use sofcheck.Core.Types.{
  white, black, Piece, pawn, king, knight, bishop, rook, queen, make_cell, make_coord, empty_cell,
  invalid_coord, castling_none,
}
use sofcheck.Core.Geometry.{enpassant_src_row, enpassant_dst_row}
use sofcheck.Core.Zobrist.{Zobrist}
use sofcheck.Core.Board.{
  Board, is_kingside_castling, is_queenside_castling, set_kingside_castling, set_queenside_castling,
  update,
}
use sofcheck.Core.Text.{is_x_char_valid, is_y_char_valid, char_to_sub_x, char_to_sub_y}
use sofcheck.Util.Strutil.{
  Charconv, ascii_to_lower, scan_token_end, scan_token_start, value_from_str,
}

pub data FenParseResult : Type 0 where
  ok expected_space expected_uint16 unexpected_character : FenParseResult
  board_row_overflow board_row_underflow board_not_enough_rows board_too_many_rows : FenParseResult
  castling_duplicate castling_field_missing enpassant_invalid_cell redundant_data : FenParseResult

-- Where the parser stands: the board so far and the rest of the string, a result that it returns with
-- the board as it is then, or an assertion that fails.
pub data Progress : Type 0 where
  goes_on : Board → List ℕ → Progress
  returns : FenParseResult → Board → Progress
  asserts : Progress

infixl 5 ◌>>=◌
abbrev pub ◌>>=◌ : Progress → (Board → List ℕ → Progress) → Progress
goes_on b fen >>= f = f b fen
returns r b >>= f = returns r b
asserts >>= f = asserts

-- The loops read a character, and then go on, are left, or return.
pub data Turn (S : Type 0) : Type 0 where
  again : S → Turn S
  leave : Turn S
  fails : FenParseResult → Turn S
  breaks : Turn S

-- `D_PARSE_CONSUME_SPACE`.
unfoldable pub consume_space : Board → List ℕ → Progress
consume_space b [] = returns expected_space b
consume_space b (c ∷ fen) = if c == 32 then goes_on b fen else returns expected_space b

pub record Scan : Type 0 where
  pub x : ℕ
  pub y : ℕ
  pub cur : ℕ
  pub cells : List ℕ

-- `cells[cur++] = EMPTY_CELL;`, a number of times.
unfoldable pub write_empty : ℕ → ℕ → List ℕ → List ℕ
write_empty zero cur cells = cells
write_empty (suc n) cur cells = write_empty n (suc cur) (write cells cur empty_cell)

-- `switch (lowC)`.
unfoldable pub piece_of_char : ℕ → Option Piece
piece_of_char c =
    if c == 112
    then some pawn
    else if c == 107
    then some king
    else if c == 110
    then some knight
    else if c == 98
    then some bishop
    else if c == 114
    then some rook
    else if c == 113
    then some queen
    else none

-- The cell that a letter stands for.
unfoldable pub cell_of_char : ℕ → Option ℕ
cell_of_char c =
    let low_c = ascii_to_lower c in
    elim (piece_of_char low_c) [
      | none ↦ none
      | some piece ↦ some (make_cell (if c == low_c then black else white) piece)
    ]

unfoldable pub put_piece : Scan → Option ℕ → Turn Scan
put_piece s none = fails unexpected_character
put_piece s (some cell) =
    again (record s { y = s.y + 1; cur = s.cur + 1; cells = write s.cells s.cur cell })

-- One round of the loop over the cells.
unfoldable pub cell_turn : Scan → ℕ → Turn Scan
cell_turn s c =
    if leb 49 c && leb c 56
    then (let add = c - 48 in
        if leb (s.y + add) 8
        then again
            (record s { y = s.y + add; cur = s.cur + add; cells = write_empty add s.cur s.cells })
        else fails board_row_overflow)
    else if c == 47
    then (if not (s.y == 8)
        then fails board_row_underflow
        else if ltb (s.x + 1) 8
        then again (record s { x = s.x + 1; y = 0 })
        else fails board_too_many_rows)
    else if c == 32
    then (if not (s.y == 8)
        then fails board_row_underflow
        else if not (s.x == 7)
        then fails board_not_enough_rows
        else if s.cur == 64
        then leave
        else breaks)
    else if not (ltb s.y 8)
    then fails board_row_overflow
    else put_piece s (cell_of_char c)

unfoldable pub parse_cells : Board → Scan → List ℕ → Progress
parse_cells b s [] =
    returns (if ltb s.y 8 then unexpected_character else board_row_overflow)
      (record b { cells = s.cells })
parse_cells b s (c ∷ fen) = elim (cell_turn s c) [
  | again s' ↦ parse_cells b s' fen
  | leave ↦ goes_on (record b { cells = s.cells }) fen
  | fails r ↦ returns r (record b { cells = s.cells })
  | breaks ↦ asserts
]

unfoldable pub parse_side : Board → List ℕ → Progress
parse_side b [] = returns unexpected_character b
parse_side b (c ∷ fen) =
    if c == 119
    then goes_on (record b { side = white }) fen
    else if c == 98
    then goes_on (record b { side = black }) fen
    else returns unexpected_character b

-- `D_PARSE_ADD_CASTLING`, after the test of the character.
abbrev pub add_castling : Bool → Board → Turn Board
add_castling present b = if present then fails castling_duplicate else again b

-- One round of the loop over the castling letters; the flag is `hasCastling`.
unfoldable pub castling_turn : Bool → Board → ℕ → Turn Board
castling_turn has_castling b c =
    if c == 75
    then add_castling (is_kingside_castling b white) (set_kingside_castling b white)
    else if c == 81
    then add_castling (is_queenside_castling b white) (set_queenside_castling b white)
    else if c == 107
    then add_castling (is_kingside_castling b black) (set_kingside_castling b black)
    else if c == 113
    then add_castling (is_queenside_castling b black) (set_queenside_castling b black)
    else if c == 32
    then (if has_castling then leave else fails castling_field_missing)
    else fails unexpected_character

unfoldable pub castling_loop : Bool → Board → List ℕ → Progress
castling_loop has_castling b [] = returns unexpected_character b
castling_loop has_castling b (c ∷ fen) = elim (castling_turn has_castling b c) [
  | again b' ↦ castling_loop true b' fen
  | leave ↦ goes_on b fen
  | fails r ↦ returns r b
  | breaks ↦ asserts
]

-- `*fen == '-'`, or the letters.
unfoldable pub parse_castling_of : Board → List ℕ → Progress
parse_castling_of b [] = castling_loop false b []
parse_castling_of b (c ∷ fen) =
    if c == 45 then consume_space b fen else castling_loop false b (c ∷ fen)

unfoldable pub parse_castling : Board → List ℕ → Progress
parse_castling b fen = parse_castling_of (record b { castling = castling_none }) fen

-- The number of the cell behind the passing pawn, after the letter of its column.
unfoldable pub parse_enpassant_number : ℕ → Board → List ℕ → Progress
parse_enpassant_number letter b [] = returns unexpected_character b
parse_enpassant_number letter b (number ∷ fen) =
    if not (is_x_char_valid number)
    then returns unexpected_character b
    else if not (char_to_sub_x number == enpassant_dst_row b.side)
    then returns enpassant_invalid_cell b
    else goes_on
        (record b {
          enpassant_coord = make_coord (enpassant_src_row b.side) (char_to_sub_y letter);
        })
        fen

unfoldable pub parse_enpassant : Board → List ℕ → Progress
parse_enpassant b [] = returns unexpected_character b
parse_enpassant b (c ∷ fen) =
    if c == 45
    then goes_on (record b { enpassant_coord = invalid_coord }) fen
    else if not (is_y_char_valid c)
    then returns unexpected_character b
    else parse_enpassant_number c b fen

unfoldable pub parse_end : Zobrist → Board → List ℕ → Progress
parse_end z b fen = elim (scan_token_start fen) [
  | [] ↦ returns ok (update z b)
  | c ∷ rest ↦ returns redundant_data b
]

module _ (d : Charconv) where
  -- A counter: the next token, which is to be a number.
  unfoldable pub parse_number : (ℕ → Board) → Board → List ℕ → Progress
  parse_number keep b fen =
      let (token, rest) = scan_token_end fen in
      elim (value_from_str d token) [
        | none ↦ returns expected_uint16 b
        | some n ↦ goes_on (keep n) rest
      ]

  abbrev pub parse_move_counter : Board → List ℕ → Progress
  parse_move_counter b = parse_number (λ n. record b { move_counter = n }) b

  abbrev pub parse_move_number : Board → List ℕ → Progress
  parse_move_number b = parse_number (λ n. record b { move_number = n }) b

  unfoldable pub set_from_fen : Zobrist → Board → List ℕ → Progress
  set_from_fen z b₀ fen =
      let b = record b₀ { unused = 0 } in
      parse_cells b (record { x = 0; y = 0; cur = 0; cells = b.cells }) fen
      >>= parse_side
      >>= consume_space
      >>= parse_castling
      >>= parse_enpassant
      >>= consume_space
      >>= parse_move_counter
      >>= consume_space
      >>= parse_move_number
      >>= parse_end z
