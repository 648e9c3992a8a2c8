-- ===== src/Core/Fen/Fields.antt =====
-- Reading back the other fields that `asFen` prints.
use mathlib.Core.List.{append-nil}
use sofcheck.Common.{
  ℕ, ◌^◌, ◌<◌, ◌≡◌, ◌∙◌, sym, ap, refl, Bool, true, false, not, ◌&&◌, ◌==◌, ==_iff, List, [], ◌∷◌,
  ◌++◌, arith, Bool-cases, inl, inr, ◌⊎◌, ◌||◌, Firsts, Firsts_lem, all_to, all_to_sound,
}
use sofcheck.Core.Types.{Color, white, black, coord_x, coord_y, make_coord, invalid_coord}
use sofcheck.Core.Geometry.{enpassant_src_row, enpassant_dst_row}
use sofcheck.Core.Board.{
  Board, is_any_castling, is_kingside_castling, is_queenside_castling, set_kingside_castling,
  set_queenside_castling,
}
use sofcheck.Core.Text.{
  is_x_char_valid, is_y_char_valid, char_to_sub_x, char_to_sub_y, y_sub_to_char,
}
use sofcheck.Core.Fen.{side_text, castling_text, enpassant_text, enpassant_row_char}
use sofcheck.Core.Fen.Parse.{
  goes_on, parse_side, consume_space, parse_castling, parse_castling_of, castling_loop,
  castling_turn, parse_enpassant, parse_enpassant_number, parse_number,
}
use sofcheck.Util.Strutil.{Charconv, value_from_str-to_chars, scan_token_end, scan_token_end-digits}

pub parse_side-side_text :
    (b : Board) (c : Color) (rest : List ℕ)
    → parse_side b (side_text c ++ rest) ≡ goes_on (record b { side = c }) rest
unfolding parse_side side_text
parse_side-side_text b white rest = refl
parse_side-side_text b black rest = refl

pub consume_space-space : (b : Board) (rest : List ℕ) → consume_space b (32 ∷ rest) ≡ goes_on b rest
unfolding consume_space
consume_space-space b rest = refl

abbrev FlagsTrip : Board → Board → List ℕ → ℕ → Type 0
FlagsTrip b from rest flags =
    parse_castling b (castling_text (record from { castling = flags }) ++ (32 ∷ rest))
    ≡ goes_on (record b { castling = flags }) rest

-- Each of the sixteen sets of flags.
flags_trip : (b from : Board) (rest : List ℕ) → Firsts (FlagsTrip b from rest) 16
unfolding parse_castling parse_castling_of castling_text castling_loop castling_turn consume_space
    is_any_castling is_kingside_castling is_queenside_castling set_kingside_castling
    set_queenside_castling
flags_trip b from rest = (
  (
    (
      (
        (
          (
            ((((((((((tt, refl), refl), refl), refl), refl), refl), refl), refl), refl), refl),
            refl,
          ),
          refl,
        ),
        refl,
      ),
      refl,
    ),
    refl,
  ),
  refl,
)

-- The letters of the castling flags, and the space after them.
pub parse_castling-castling_text :
    (b from : Board) (rest : List ℕ)
    → from.castling < 16
    → parse_castling b (castling_text from ++ (32 ∷ rest))
      ≡ goes_on (record b { castling = from.castling }) rest
parse_castling-castling_text b from rest lt =
    Firsts_lem (FlagsTrip b from rest) 16 (flags_trip b from rest) from.castling lt

-- The column of a passing pawn is read back, and its row follows from the side.
passing_ok : Color → ℕ → Bool
passing_ok c e =
    let letter = y_sub_to_char (coord_y e) in
    not (coord_x e == enpassant_src_row c)
    || (not (letter == 45)
        && is_y_char_valid letter
        && make_coord (enpassant_src_row c) (char_to_sub_y letter) == e)

passing_all : (c : Color) → all_to 64 (passing_ok c) ≡ true
unfolding all_to passing_ok y_sub_to_char coord_y coord_x is_y_char_valid make_coord char_to_sub_y
passing_all white = refl
passing_all black = refl

row_char_ok :
    (c : Color)
    → (is_x_char_valid (enpassant_row_char c) ≡ true)
      × ((char_to_sub_x (enpassant_row_char c) == enpassant_dst_row c) ≡ true)
unfolding is_x_char_valid char_to_sub_x
row_char_ok white = (refl, refl)
row_char_ok black = (refl, refl)

-- No passing pawn, or one on the row where it can be taken.
abbrev pub OnRow : Color → ℕ → Type 0
OnRow c e = (e ≡ invalid_coord) ⊎ (coord_x e ≡ enpassant_src_row c)

at_row_lt : (c : Color) (e : ℕ) → coord_x e ≡ enpassant_src_row c → e < 64
unfolding coord_x
at_row_lt white e h = omega (arith, h)
at_row_lt black e h = omega (arith, h)

-- What the parser asks of the two characters of a passing pawn.
record Readable (c : Color) (e letter number : ℕ) : Type 0 where
  no_dash : (letter == 45) ≡ false
  column : is_y_char_valid letter ≡ true
  row : is_x_char_valid number ≡ true
  behind : (char_to_sub_x number == enpassant_dst_row c) ≡ true
  back : make_coord (enpassant_src_row c) (char_to_sub_y letter) ≡ e

passing-Readable :
    (c : Color) (e : ℕ)
    → coord_x e ≡ enpassant_src_row c
    → Readable c e (y_sub_to_char (coord_y e)) (enpassant_row_char c)
unfolding passing_ok
passing-Readable c e h =
    let seen = all_to_sound 64 (passing_ok c) e (passing_all c) (at_row_lt c e h) in
    let there = (==_iff (coord_x e) (enpassant_src_row c)).1 h in
    record {
      no_dash = ground arith;
      column = ground arith;
      row = (row_char_ok c).0;
      behind = (row_char_ok c).1;
      back = ground arith;
    }

pub parse_enpassant-enpassant_text :
    (b from : Board) (rest : List ℕ)
    → b.side ≡ from.side
    → OnRow from.side from.enpassant_coord
    → parse_enpassant b (enpassant_text from ++ rest)
      ≡ goes_on (record b { enpassant_coord = from.enpassant_coord }) rest
unfolding parse_enpassant enpassant_text parse_enpassant_number
parse_enpassant-enpassant_text b from rest side on_row =
    let e = from.enpassant_coord in
    elim (Bool-cases (e == invalid_coord)) [
      | inl absent ↦
          rw absent (
            ap (λ k. goes_on (record b { enpassant_coord = k }) rest) (sym ((==_iff e _).0 absent)))
      | inr present ↦
          let there : coord_x e ≡ enpassant_src_row from.side = ground (arith, on_row) in
          let r = passing-Readable from.side e there in
          rw
            (
              present, parse_enpassant, r.no_dash, r.column, parse_enpassant_number, r.row, side,
              r.behind, r.back,
            )
            refl
    ]

module _ (d : Charconv) where
  pub parse_number-to_chars :
      (keep : ℕ → Board) (b : Board) (n : ℕ) (rest : List ℕ)
      → n < 2 ^ 16
      → scan_token_end rest ≡ ([], rest)
      → parse_number d keep b (d.to_chars n ++ rest) ≡ goes_on (keep n) rest
  unfolding parse_number
  parse_number-to_chars keep b n rest lt e =
      let split = scan_token_end-digits (d.to_chars n) rest (d.to_chars-digits n lt) e in
      rw (parse_number, ap (λ p. p.0) split, value_from_str-to_chars d n lt, ap (λ p. p.1) split)
        refl

  -- The number at the end of the string.
  pub parse_number-last :
      (keep : ℕ → Board) (b : Board) (n : ℕ)
      → n < 2 ^ 16
      → parse_number d keep b (d.to_chars n) ≡ goes_on (keep n) []
  unfolding scan_token_end
  parse_number-last keep b n lt =
      ap (parse_number d keep b) (sym (append-nil (d.to_chars n)))
      ∙ parse_number-to_chars keep b n [] lt refl
