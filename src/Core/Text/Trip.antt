-- ===== src/Core/Text/Trip.antt =====
-- Printing a move and reading it back.
use sofcheck.Common.{
  ℕ, ◌+◌, ◌-◌, ◌*◌, ◌/◌, ◌%◌, ◌<◌, ◌≤◌, ◌≡◌, ◌≢◌, ◌∙◌, refl, true, false, ◌==◌, ◌||◌, not, read,
  arith,
}
use sofcheck.Common.Pack.{bit_or-field, bit_or_comm, bit_and-seven}
use sofcheck.Core.Types.{make_coord, coord_x, coord_y}
use sofcheck.Core.Move.{
  Move, MoveKind, null, promote_knight, promote_bishop, promote_rook, promote_queen,
  is_move_kind_promote,
}
use sofcheck.Core.Text.{
  ParsedMove, PromotePiece, none, knight, bishop, rook, queen, from_str, coords_from_str,
  promote_from_str, move_to_str, chars_to_coord, char_to_sub_x, char_to_sub_y, x_sub_to_char,
  y_sub_to_char, is_x_char_valid, is_y_char_valid,
}

pub coord_y-mod : (s : ℕ) → coord_y s ≡ s % 8
unfolding coord_y
coord_y-mod s = bit_and-seven s

pub make_coord_sum : (x y : ℕ) → y < 8 → make_coord x y ≡ x * 8 + y
unfolding make_coord
make_coord_sum x y lt = bit_or_comm (x * 8) y ∙ bit_or-field 3 y x lt ∙ omega arith

-- The characters of a coordinate.
chars-coord :
    (s : ℕ)
    → s < 64
    → let cy = y_sub_to_char (coord_y s) in
      let cx = x_sub_to_char (coord_x s) in
      (chars_to_coord cy cx ≡ s)
      × (is_y_char_valid cy ≡ true)
      × (is_x_char_valid cx ≡ true)
      × (97 ≤ cy)
unfolding y_sub_to_char x_sub_to_char is_y_char_valid is_x_char_valid coord_x chars_to_coord
    char_to_sub_x char_to_sub_y
chars-coord s lt =
    let y = coord_y-mod s in
    (
      make_coord_sum (56 - (56 - s / 8)) (97 + coord_y s - 97) (omega arith) ∙ omega arith,
      ground arith,
      ground arith,
      omega arith,
    )

abbrev pub promote_of : MoveKind → PromotePiece
promote_of promote_knight = knight
promote_of promote_bishop = bishop
promote_of promote_rook = rook
promote_of promote_queen = queen
promote_of _ = none

-- What the printed text of a move is read as.
abbrev pub parsed_of : Move → ParsedMove
parsed_of m = record { promote = promote_of m.kind; src = m.src; dst = m.dst; unused = 0 }

coords-from_str :
    (s d : ℕ)
    → s < 64
    → d < 64
    → coords_from_str
        (y_sub_to_char (coord_y s))
        (x_sub_to_char (coord_x s))
        (y_sub_to_char (coord_y d))
        (x_sub_to_char (coord_x d))
      ≡ record { promote = none; src = s; dst = d; unused = 0 }
unfolding coords_from_str
coords-from_str s d hs hd =
    let (e, y, x, _) = chars-coord s hs in
    let (e', y', x', _) = chars-coord d hd in rw (y, x, y', x', e, e') refl

module _ (s d t : ℕ) (hs : s < 64) (hd : d < 64) where
  valid_chars :
      (not (is_y_char_valid (y_sub_to_char (coord_y s)))
        || not (is_x_char_valid (x_sub_to_char (coord_x s)))
        || not (is_y_char_valid (y_sub_to_char (coord_y d)))
        || not (is_x_char_valid (x_sub_to_char (coord_x d))))
      ≡ false
  valid_chars = let a = chars-coord s hs in let b = chars-coord d hd in rw (a.1, a.2, b.1, b.2) refl

  not_zeros : (y_sub_to_char (coord_y s) == 48) ≡ false
  not_zeros = let a = chars-coord s hs in ground arith

  pub from_str-printed :
      (k : MoveKind)
      → k ≢ null
      → let m : Move = record { kind = k; src = s; dst = d; tag = t } in
        from_str (move_to_str m) ≡ parsed_of m
  unfolding from_str move_to_str is_move_kind_promote promote_from_str read
  from_str-printed null not_null = absurd (not_null refl)
  from_str-printed promote_knight not_null = rw (valid_chars, coords-from_str s d hs hd) refl
  from_str-printed promote_bishop not_null = rw (valid_chars, coords-from_str s d hs hd) refl
  from_str-printed promote_rook not_null = rw (valid_chars, coords-from_str s d hs hd) refl
  from_str-printed promote_queen not_null = rw (valid_chars, coords-from_str s d hs hd) refl
  from_str-printed _ not_null = rw (not_zeros) (coords-from_str s d hs hd)
