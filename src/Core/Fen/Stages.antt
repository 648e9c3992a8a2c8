-- ===== src/Core/Fen/Stages.antt =====
-- What each part of `setFromFen` leaves to the next one.
use sofcheck.Common.{
  ℕ, ◌^◌, ◌<◌, ◌≡◌, ◌≢◌, refl, Bool, true, false, not, ◌&&◌, ◌||◌, ltb, ◌==◌, if◌then◌else◌, List,
  [], ◌∷◌, arith, Bool-cases, Option-cases, inl, inr, all_to, all_to_sound, bit_or,
}
use sofcheck.Core.Types.{
  Color, white, black, coord_x, make_coord, castling_kingside, castling_queenside,
}
use sofcheck.Core.Geometry.{enpassant_src_row, enpassant_dst_row}
use sofcheck.Core.Board.{Board, set_kingside_castling, set_queenside_castling}
use sofcheck.Core.Text.{is_y_char_valid, is_x_char_valid, char_to_sub_x, char_to_sub_y}
use sofcheck.Core.Fen.Parse.{
  Progress, goes_on, returns, asserts, ◌>>=◌, FenParseResult, ok, Turn, again, leave, fails, breaks,
  Scan, cell_turn, parse_cells, parse_side, consume_space, castling_turn, castling_loop,
  parse_castling_of, parse_castling, parse_enpassant_number, parse_enpassant, parse_number,
  add_castling,
}
use sofcheck.Core.Fen.Fields.{OnRow}
use sofcheck.Core.Fen.Accepts.{
  GoodCells, ScanFits, Keeps, Keeps-if, next, left, failed, cell_turn-Keeps,
}
use sofcheck.Util.Strutil.{Charconv, value_from_str, value_from_str-lt, scan_token_end}

-- The parser goes on with a board of this kind, or returns an error.
pub data Goes (P : Board → Type 0) : Progress → Type 0 where
  on : {b : Board} {fen : List ℕ} → P b → Goes P (goes_on b fen)
  back : {r : FenParseResult} {b : Board} → r ≢ ok → Goes P (returns r b)

-- At the end it has returned, and the board is of this kind if the text was accepted.
pub data Ends (Q : Board → Type 0) : Progress → Type 0 where
  ended : {r : FenParseResult} {b : Board} → (r ≡ ok → Q b) → Ends Q (returns r b)

pub Goes-bind :
    {P Q : Board → Type 0} {m : Progress} {f : Board → List ℕ → Progress}
    → Goes P m
    → ((b : Board) (fen : List ℕ) → P b → Goes Q (f b fen))
    → Goes Q (m >>= f)
Goes-bind (on h) k = k _ _ h
Goes-bind (back e) k = back e

pub Ends-bind :
    {P Q : Board → Type 0} {m : Progress} {f : Board → List ℕ → Progress}
    → Goes P m
    → ((b : Board) (fen : List ℕ) → P b → Ends Q (f b fen))
    → Ends Q (m >>= f)
Ends-bind (on h) k = k _ _ h
Ends-bind (back e) k = ended λ o. absurd (e o)

Goes-if :
    {P : Board → Type 0} (t : Bool) {a b : Progress}
    → (t ≡ true → Goes P a)
    → (t ≡ false → Goes P b)
    → Goes P (if t then a else b)
Goes-if true h k = h refl
Goes-if false h k = k refl

abbrev pub HasCells : Board → Type 0
HasCells b = GoodCells b.cells × (b.unused ≡ 0)

abbrev pub HasFlags : Board → Type 0
HasFlags b = HasCells b × (b.castling < 16)

abbrev pub HasPassing : Board → Type 0
HasPassing b = HasFlags b × OnRow b.side b.enpassant_coord

abbrev pub HasCounter : Board → Type 0
HasCounter b = HasPassing b × (b.move_counter < 2 ^ 16)

abbrev pub HasNumber : Board → Type 0
HasNumber b = HasCounter b × (b.move_number < 2 ^ 16)

-- A turn that fits leads on.
cells_turn-Goes :
    (b : Board) (s : Scan) (fen : List ℕ) (t : Turn Scan)
    → b.unused ≡ 0
    → GoodCells s.cells
    → Keeps ScanFits t
    → ((s' : Scan) → ScanFits s' → Goes HasCells (parse_cells b s' fen))
    → Goes HasCells (elim t [
      | again s' ↦ parse_cells b s' fen
      | leave ↦ goes_on (record b { cells = s.cells }) fen
      | fails r ↦ returns r (record b { cells = s.cells })
      | breaks ↦ asserts
    ])
cells_turn-Goes b s fen _ e good (next h) k = k _ h
cells_turn-Goes b s fen _ e good left k = on (good, e)
cells_turn-Goes b s fen _ e good (failed wrong) k = back wrong

pub parse_cells-Goes :
    (b : Board) (s : Scan) (fen : List ℕ)
    → b.unused ≡ 0
    → ScanFits s
    → Goes HasCells (parse_cells b s fen)
unfolding parse_cells
parse_cells-Goes b s [] e h = back (ground arith)
parse_cells-Goes b s (c ∷ fen) e h =
    cells_turn-Goes b s fen (cell_turn s c) e h.cells_good (cell_turn-Keeps s c h)
      λ s' h'. parse_cells-Goes b s' fen e h'

pub parse_side-Goes : (b : Board) (fen : List ℕ) → HasCells b → Goes HasCells (parse_side b fen)
unfolding parse_side
parse_side-Goes b [] h = back (ground arith)
parse_side-Goes b (c ∷ fen) h =
    Goes-if (c == 119) (λ e. on h) λ e. Goes-if (c == 98) (λ e. on h) λ e. back (ground arith)

pub consume_space-Goes :
    (P : Board → Type 0) (b : Board) (fen : List ℕ) → P b → Goes P (consume_space b fen)
unfolding consume_space
consume_space-Goes P b [] h = back (ground arith)
consume_space-Goes P b (c ∷ fen) h = Goes-if (c == 32) (λ e. on h) λ e. back (ground arith)

abbrev flags_stay : ℕ → Bool
flags_stay f =
    ltb (bit_or f (castling_kingside white)) 16
    && ltb (bit_or f (castling_queenside white)) 16
    && ltb (bit_or f (castling_kingside black)) 16
    && ltb (bit_or f (castling_queenside black)) 16

all_stay : all_to 16 flags_stay ≡ true
unfolding all_to
all_stay = refl

add_castling-Keeps :
    (present : Bool) (b : Board) → HasFlags b → Keeps HasFlags (add_castling present b)
add_castling-Keeps true b h = failed (ground arith)
add_castling-Keeps false b h = next h

castling_turn-Keeps :
    (seen : Bool) (b : Board) (c : ℕ) → HasFlags b → Keeps HasFlags (castling_turn seen b c)
unfolding castling_turn set_kingside_castling set_queenside_castling
castling_turn-Keeps seen b c (cells, lt) =
    let stay = all_to_sound 16 flags_stay b.castling all_stay lt in
    Keeps-if (c == 75) (λ e. add_castling-Keeps _ _ (cells, ground arith))
      λ e.
        Keeps-if (c == 81) (λ e. add_castling-Keeps _ _ (cells, ground arith))
          λ e.
            Keeps-if (c == 107) (λ e. add_castling-Keeps _ _ (cells, ground arith))
              λ e.
                Keeps-if (c == 113) (λ e. add_castling-Keeps _ _ (cells, ground arith))
                  λ e.
                    Keeps-if (c == 32) (λ e. Keeps-if seen (λ e. left) λ e. failed (ground arith))
                      λ e. failed (ground arith)

castling_turn-Goes :
    (b : Board) (fen : List ℕ) (t : Turn Board)
    → HasFlags b
    → Keeps HasFlags t
    → ((b' : Board) → HasFlags b' → Goes HasFlags (castling_loop true b' fen))
    → Goes HasFlags (elim t [
      | again b' ↦ castling_loop true b' fen
      | leave ↦ goes_on b fen
      | fails r ↦ returns r b
      | breaks ↦ asserts
    ])
castling_turn-Goes b fen _ good (next h) k = k _ h
castling_turn-Goes b fen _ good left k = on good
castling_turn-Goes b fen _ good (failed wrong) k = back wrong

castling_loop-Goes :
    (seen : Bool) (b : Board) (fen : List ℕ) → HasFlags b → Goes HasFlags (castling_loop seen b fen)
unfolding castling_loop
castling_loop-Goes seen b [] h = back (ground arith)
castling_loop-Goes seen b (c ∷ fen) h =
    castling_turn-Goes b fen (castling_turn seen b c) h (castling_turn-Keeps seen b c h)
      λ b' h'. castling_loop-Goes true b' fen h'

parse_castling_of-Goes :
    (b : Board) (fen : List ℕ) → HasFlags b → Goes HasFlags (parse_castling_of b fen)
unfolding parse_castling_of
parse_castling_of-Goes b [] h = castling_loop-Goes false b [] h
parse_castling_of-Goes b (c ∷ fen) h =
    Goes-if (c == 45) (λ e. consume_space-Goes HasFlags b fen h)
      λ e. castling_loop-Goes false b (c ∷ fen) h

pub parse_castling-Goes :
    (b : Board) (fen : List ℕ) → HasCells b → Goes HasFlags (parse_castling b fen)
unfolding parse_castling
parse_castling-Goes b fen h = parse_castling_of-Goes _ fen (h, omega arith)

row_of_letter : Color → ℕ → Bool
row_of_letter c letter =
    not (is_y_char_valid letter)
    || coord_x (make_coord (enpassant_src_row c) (char_to_sub_y letter)) == enpassant_src_row c

rows_of_letters : (c : Color) → all_to 105 (row_of_letter c) ≡ true
unfolding all_to row_of_letter is_y_char_valid coord_x make_coord char_to_sub_y
rows_of_letters white = refl
rows_of_letters black = refl

letter_on_row :
    (c : Color) (letter : ℕ)
    → is_y_char_valid letter ≡ true
    → coord_x (make_coord (enpassant_src_row c) (char_to_sub_y letter)) ≡ enpassant_src_row c
unfolding row_of_letter is_y_char_valid
letter_on_row c letter h =
    let seen = all_to_sound 105 (row_of_letter c) letter (rows_of_letters c) (ground arith) in
    ground arith

parse_enpassant_number-Goes :
    (letter : ℕ) (b : Board) (fen : List ℕ)
    → is_y_char_valid letter ≡ true
    → HasFlags b
    → Goes HasPassing (parse_enpassant_number letter b fen)
unfolding parse_enpassant_number
parse_enpassant_number-Goes letter b [] v h = back (ground arith)
parse_enpassant_number-Goes letter b (number ∷ fen) v h =
    Goes-if (not (is_x_char_valid number)) (λ e. back (ground arith))
      λ e.
        Goes-if (not (char_to_sub_x number == enpassant_dst_row b.side)) (λ e. back (ground arith))
          λ e. on (h, inr (letter_on_row b.side letter v))

pub parse_enpassant-Goes :
    (b : Board) (fen : List ℕ) → HasFlags b → Goes HasPassing (parse_enpassant b fen)
unfolding parse_enpassant
parse_enpassant-Goes b [] h = back (ground arith)
parse_enpassant-Goes b (c ∷ fen) h =
    Goes-if (c == 45) (λ e. on (h, inl refl))
      λ e. elim (Bool-cases (is_y_char_valid c)) [
        | inl valid ↦ rw valid (parse_enpassant_number-Goes c b fen valid h)
        | inr other ↦ rw other (back (ground arith))
      ]

module _ (d : Charconv) where
  pub parse_number-Goes :
      (Q : Board → Type 0) (keep : ℕ → Board) (b : Board) (fen : List ℕ)
      → ((n : ℕ) → n < 2 ^ 16 → Q (keep n))
      → Goes Q (parse_number d keep b fen)
  unfolding parse_number
  parse_number-Goes Q keep b fen k =
      let token = (scan_token_end fen).0 in
      elim (Option-cases (value_from_str d token)) [
        | inl nothing ↦ rw (parse_number, nothing) (back (ground arith))
        | inr (n, found) ↦ rw (parse_number, found) (on (k n (value_from_str-lt d token n found)))
      ]
