-- ===== src/Core/Move.antt =====
-- core/move.h: the move kinds, moves, and what is kept to undo a move.
use sofcheck.Common.{
  ℕ, ◌+◌, ◌-◌, Bool, true, false, ◌&&◌, ◌||◌, not, leb, ◌==◌, if◌then◌else◌, bit_or, u8, ◌<<<◌,
  add8,
}
use sofcheck.Core.Types.{Color, white, black, coord_x, coord_y, make_coord}
use sofcheck.Core.Geometry.{
  double_move_src_row, double_move_dst_row, promote_src_row, promote_dst_row, castling_row,
  enpassant_src_row, enpassant_dst_row,
}

pub data MoveKind : Type 0 where
  null simple pawn_double_move enpassant castling_kingside castling_queenside : MoveKind
  promote_knight promote_bishop promote_rook promote_queen invalid : MoveKind

-- The numbers of the enumerators.
abbrev pub kind_code : MoveKind → ℕ
kind_code null = 0
kind_code simple = 1
kind_code pawn_double_move = 2
kind_code enpassant = 3
kind_code castling_kingside = 4
kind_code castling_queenside = 5
kind_code promote_knight = 6
kind_code promote_bishop = 7
kind_code promote_rook = 8
kind_code promote_queen = 9
kind_code invalid = 10

unfoldable pub is_move_kind_promote : MoveKind → Bool
is_move_kind_promote kind =
    kind_code kind == 6 || kind_code kind == 7 || kind_code kind == 8 || kind_code kind == 9

-- The code of the promoted piece: the kind's number less that of `PromoteKnight`, plus 2.
abbrev pub promote_code : MoveKind → ℕ
promote_code kind = kind_code kind - 6 + 2

pub record Move : Type 0 where
  pub kind : MoveKind
  pub src : ℕ
  pub dst : ℕ
  pub tag : ℕ

abbrev pub null_move : Move
null_move = record { kind = null; src = 0; dst = 0; tag = 0 }

abbrev pub invalid_move : Move
invalid_move = record { kind = invalid; src = 0; dst = 0; tag = 0 }

unfoldable pub as_uint : Move → ℕ
as_uint m =
    bit_or (bit_or (bit_or (u8 (kind_code m.kind)) (u8 m.src <<< 8)) (u8 m.dst <<< 16))
      (u8 m.tag <<< 24)

unfoldable pub move_eq : Move → Move → Bool
move_eq a b = as_uint a == as_uint b

-- The pattern of `dst + 8` or `dst - 8`.
abbrev pub enpassant_pawn_pos : Color → ℕ → ℕ
enpassant_pawn_pos white dst = add8 dst 8
enpassant_pawn_pos black dst = add8 dst 248

pub record MovePersistence : Type 0 where
  pub hash : ℕ
  pub castling : ℕ
  pub enpassant_coord : ℕ
  pub move_counter : ℕ
  pub dst_cell : ℕ

-- `x < 0 || x >= 64` of an 8-bit pattern.
abbrev outside : ℕ → Bool
outside x = leb 128 x || leb 64 x

-- The checks of `switch (kind)`, after the coordinates are known to lie on the board.
unfoldable pub kind_well_formed : Color → MoveKind → ℕ → ℕ → Bool
kind_well_formed c simple src dst = true
kind_well_formed c pawn_double_move src dst = not (
    not (coord_x src == double_move_src_row c)
    || not (coord_x dst == double_move_dst_row c)
    || not (coord_y src == coord_y dst))
kind_well_formed c castling_kingside src dst =
    let x = castling_row c in not (not (src == make_coord x 4) || not (dst == make_coord x 6))
kind_well_formed c castling_queenside src dst =
    let x = castling_row c in not (not (src == make_coord x 4) || not (dst == make_coord x 2))
kind_well_formed c null src dst = not (not (src == 0) || not (dst == 0))
kind_well_formed c enpassant src dst =
    let src_y = coord_y src in
    let dst_y = coord_y dst in
    if not (coord_x src == enpassant_src_row c) || not (coord_x dst == enpassant_dst_row c)
    then false
    else not (not (src_y + 1 == dst_y) && not (src_y == dst_y + 1))
kind_well_formed c invalid src dst = false
kind_well_formed c _ src dst =
    let src_y = coord_y src in
    let dst_y = coord_y dst in
    if not (coord_x src == promote_src_row c) || not (coord_x dst == promote_dst_row c)
    then false
    else not (not (src_y + 1 == dst_y) && not (src_y == dst_y) && not (src_y == dst_y + 1))

unfoldable pub is_well_formed : Move → Color → Bool
unfolding kind_well_formed
is_well_formed m c =
    if outside m.src || outside m.dst
    then false
    else if not (kind_code m.kind == 0) && m.src == m.dst
    then false
    else kind_well_formed c m.kind m.src m.dst
