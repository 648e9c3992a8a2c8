-- ===== src/Core/Board.antt =====
-- core/board.h and core/board.cpp: the position, its castling flags, and `update`, which computes
-- the bitboards and the hash from the essential fields. Arrays are lists; an index out of bounds,
-- which C++ leaves undefined, reads 0 and writes nothing.
use sofcheck.Common.{
  ℕ, Bool, ◌||◌, not, List, ◌==◌, if◌then◌else◌, bit_and, bit_or, bit_xor, read, write, replicate,
  for_below, add8,
}
use sofcheck.Core.Types.{
  Color, white, black, pawn, king, rook, color_eq, empty_cell, invalid_coord, castling_not,
  castling_queenside, castling_kingside, has, invert, make_coord, coord_to_bitboard,
  cell_piece_color, make_cell,
}
use sofcheck.Core.Geometry.{pawn_forward_delta, castling_row}
use sofcheck.Core.Zobrist.{Zobrist}

pub record Board : Type 0 where
  pub cells : List ℕ
  pub unused : ℕ
  pub side : Color
  pub castling : ℕ
  pub enpassant_coord : ℕ
  pub move_counter : ℕ
  pub move_number : ℕ
  pub hash : ℕ
  pub bb_white : ℕ
  pub bb_black : ℕ
  pub bb_all : ℕ
  pub bb_pieces : List ℕ

abbrev pub bb_color : Board → Color → ℕ
bb_color b white = b.bb_white
bb_color b black = b.bb_black

-- A write through the reference that `bbColor` returns.
abbrev pub set_bb_color : Board → Color → ℕ → Board
set_bb_color b white v = record b { bb_white = v }
set_bb_color b black v = record b { bb_black = v }

unfoldable pub is_any_castling : Board → Bool
is_any_castling b = has b.castling

unfoldable pub is_kingside_castling : Board → Color → Bool
is_kingside_castling b c = has (bit_and b.castling (castling_kingside c))

unfoldable pub is_queenside_castling : Board → Color → Bool
is_queenside_castling b c = has (bit_and b.castling (castling_queenside c))

unfoldable pub set_kingside_castling : Board → Color → Board
set_kingside_castling b c = record b { castling = bit_or b.castling (castling_kingside c) }

unfoldable pub set_queenside_castling : Board → Color → Board
set_queenside_castling b c = record b { castling = bit_or b.castling (castling_queenside c) }

unfoldable pub clear_kingside_castling : Board → Color → Board
clear_kingside_castling b c = record b {
  castling = bit_and b.castling (castling_not (castling_kingside c));
}

unfoldable pub clear_queenside_castling : Board → Color → Board
clear_queenside_castling b c = record b {
  castling = bit_and b.castling (castling_not (castling_queenside c));
}

-- `castling &= ~castlingKingside(c) & ~castlingQueenside(c)`.
unfoldable pub without_castling : ℕ → Color → ℕ
without_castling flags c =
    bit_and flags
      (bit_and (castling_not (castling_kingside c)) (castling_not (castling_queenside c)))

unfoldable pub clear_castling : Board → Color → Board
clear_castling b c = record b { castling = without_castling b.castling c }

unfoldable pub update_enpassant : Board → Board
update_enpassant b =
    if b.enpassant_coord == invalid_coord
    then b
    else let pre = add8 b.enpassant_coord (pawn_forward_delta b.side) in
      if not (read b.cells b.enpassant_coord == make_cell (invert b.side) pawn)
        || not (read b.cells pre == empty_cell)
      then record b { enpassant_coord = invalid_coord }
      else b

-- One round of the loop over the colours.
unfoldable pub update_castling_of : Board → Color → Board
unfolding clear_castling clear_queenside_castling clear_kingside_castling
update_castling_of b c =
    let x = castling_row c in
    let b₁ = if read b.cells (make_coord x 4) == make_cell c king then b else clear_castling b c in
    let b₂ =
      if read b₁.cells (make_coord x 0) == make_cell c rook
      then b₁
      else clear_queenside_castling b₁ c in
    if read b₂.cells (make_coord x 7) == make_cell c rook then b₂ else clear_kingside_castling b₂ c

-- The bitboards of a position, while they are made.
pub record Bitboards : Type 0 where
  pub for_white : ℕ
  pub for_black : ℕ
  pub for_pieces : List ℕ

unfoldable pub add_to_bitboards : List ℕ → ℕ → Bitboards → Bitboards
add_to_bitboards cells i s =
    let cell = read cells i in
    let bb_add = coord_to_bitboard i in
    if cell == empty_cell
    then s
    else if color_eq (cell_piece_color cell) white
    then record s {
      for_white = bit_or s.for_white bb_add;
      for_pieces = write s.for_pieces cell (bit_or (read s.for_pieces cell) bb_add);
    }
    else record s {
      for_black = bit_or s.for_black bb_add;
      for_pieces = write s.for_pieces cell (bit_or (read s.for_pieces cell) bb_add);
    }

unfoldable pub compute_bitboards : List ℕ → Bitboards
compute_bitboards cells =
    for_below 64 (add_to_bitboards cells)
      (record { for_white = 0; for_black = 0; for_pieces = replicate 15 0 })

unfoldable pub update_bitboards : Board → Board
update_bitboards b =
    let s = compute_bitboards b.cells in
    record b {
      bb_white = s.for_white;
      bb_black = s.for_black;
      bb_all = bit_or s.for_white s.for_black;
      bb_pieces = s.for_pieces;
    }

module _ (z : Zobrist) where
  unfoldable pub add_to_hash : List ℕ → ℕ → ℕ → ℕ
  add_to_hash cells i h =
      let cell = read cells i in if cell == empty_cell then h else bit_xor h (z.pieces cell i)

  unfoldable pub side_key : Color → ℕ
  side_key white = 0
  side_key black = z.move_side

  unfoldable pub enpassant_key : ℕ → ℕ → ℕ
  enpassant_key h e = if e == invalid_coord then h else bit_xor h (z.enpassant e)

  -- The last part of `update`: the hash of the essential fields.
  unfoldable pub compute_hash : Board → ℕ
  compute_hash b =
      for_below 64 (add_to_hash b.cells)
        (bit_xor (enpassant_key (side_key b.side) b.enpassant_coord) (z.castling b.castling))

  unfoldable pub update : Board → Board
  update b₀ =
      let b₁ = update_enpassant b₀ in
      let b₂ = update_castling_of b₁ white in
      let b₃ = update_castling_of b₂ black in
      let b₄ = update_bitboards b₃ in record b₄ { hash = compute_hash b₄ }
