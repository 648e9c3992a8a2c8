-- ===== src/Core/Make.antt =====
-- core/move.cpp: `moveMake` and `moveUnmake`. The template parameters `Color C` and `bool Inverse`
-- are arguments; a function that changes the board returns the new one.
pub mod Applicable
pub mod Simple
pub mod Castling
pub mod Sums
pub mod Keys
pub mod Sync
pub mod Fields
pub mod Undo
pub mod Unmake
use sofcheck.Common.{
  ℕ, ◌+◌, ◌-◌, ◌^◌, Bool, true, false, ◌||◌, not, ◌==◌, if◌then◌else◌, bit_or, bit_and, bit_xor,
  bit_not, u16, ◌<<<◌, read, write,
}
use sofcheck.Core.Types.{
  Color, white, black, pawn, king, rook, make_cell, empty_cell, invalid_coord, coord_to_bitboard,
  invert, black_kingside, black_queenside, white_kingside, white_queenside, castling_all,
  castling_none, color_offset,
}
use sofcheck.Core.Geometry.{
  castling_offset, bb_castling_all_srcs, bb_castling_black_kingside_srcs,
  bb_castling_black_queenside_srcs, bb_castling_white_kingside_srcs,
  bb_castling_white_queenside_srcs,
}
use sofcheck.Core.Zobrist.{Zobrist}
use sofcheck.Core.Board.{Board, bb_color, set_bb_color, without_castling}
use sofcheck.Core.Move.{
  Move, MoveKind, null, simple, pawn_double_move, enpassant, castling_kingside, castling_queenside,
  invalid, promote_code, MovePersistence, enpassant_pawn_pos,
}

-- `b.bbColor(c) ^= v`, `b.bbPieces[p] ^= v` and the like.
abbrev pub xor_color : Color → ℕ → Board → Board
xor_color c v b = set_bb_color b c (bit_xor (bb_color b c) v)

abbrev pub xor_pieces : ℕ → ℕ → Board → Board
xor_pieces p v b = record b { bb_pieces = write b.bb_pieces p (bit_xor (read b.bb_pieces p) v) }

abbrev pub mask_color : Color → ℕ → Board → Board
mask_color c v b = set_bb_color b c (bit_and (bb_color b c) v)

abbrev pub mask_pieces : ℕ → ℕ → Board → Board
mask_pieces p v b = record b { bb_pieces = write b.bb_pieces p (bit_and (read b.bb_pieces p) v) }

abbrev pub or_color : Color → ℕ → Board → Board
or_color c v b = set_bb_color b c (bit_or (bb_color b c) v)

abbrev pub or_pieces : ℕ → ℕ → Board → Board
or_pieces p v b = record b { bb_pieces = write b.bb_pieces p (bit_or (read b.bb_pieces p) v) }

abbrev pub set_cell : ℕ → ℕ → Board → Board
set_cell i v b = record b { cells = write b.cells i v }

abbrev pub xor_hash : ℕ → Board → Board
xor_hash v b = record b { hash = bit_xor b.hash v }

-- `D_CHECK_CASTLING_FLAG`.
abbrev check_castling_flag : ℕ → ℕ → ℕ → ℕ → ℕ
check_castling_flag bb_change srcs flag mask =
    bit_xor mask (if bit_and bb_change srcs == 0 then castling_none else flag)

unfoldable pub castling_mask : ℕ → ℕ
castling_mask bb_change =
    check_castling_flag bb_change bb_castling_white_queenside_srcs white_queenside (
      check_castling_flag bb_change bb_castling_white_kingside_srcs white_kingside (
        check_castling_flag bb_change bb_castling_black_queenside_srcs black_queenside (
          check_castling_flag bb_change bb_castling_black_kingside_srcs black_kingside
            castling_all)))

module _ (z : Zobrist) where
  -- `hash ^= castling[old]; castling = new; hash ^= castling[new]`.
  unfoldable pub change_castling : ℕ → Board → Board
  change_castling flags b = record b {
    castling = flags;
    hash = bit_xor (bit_xor b.hash (z.castling b.castling)) (z.castling flags);
  }

  unfoldable pub update_castling : ℕ → Board → Board
  unfolding castling_mask change_castling
  update_castling bb_change b =
      if bit_and bb_change bb_castling_all_srcs == 0
      then b
      else let new_castling = bit_and b.castling (castling_mask bb_change) in
        if new_castling == b.castling then b else change_castling new_castling b

  unfoldable pub make_kingside_castling : Color → Bool → Board → Board
  unfolding change_castling
  make_kingside_castling c inverse b₀ =
      let offset = castling_offset c in
      let k = make_cell c king in
      let r = make_cell c rook in
      let b₁ =
        if inverse
        then set_cell (offset + 7) r (
            set_cell (offset + 6) empty_cell
              (set_cell (offset + 5) empty_cell (set_cell (offset + 4) k b₀)))
        else xor_hash (z.piece_castling_kingside c) (
            set_cell (offset + 7) empty_cell (
              set_cell (offset + 6) k
                (set_cell (offset + 5) r (set_cell (offset + 4) empty_cell b₀)))) in
      let b₂ =
        xor_pieces k (0x50 <<< offset)
          (xor_pieces r (0xa0 <<< offset) (xor_color c (0xf0 <<< offset) b₁)) in
      if inverse then b₂ else change_castling (without_castling b₂.castling c) b₂

  unfoldable pub make_queenside_castling : Color → Bool → Board → Board
  unfolding change_castling
  make_queenside_castling c inverse b₀ =
      let offset = castling_offset c in
      let k = make_cell c king in
      let r = make_cell c rook in
      let b₁ =
        if inverse
        then set_cell (offset + 4) k (
            set_cell (offset + 3) empty_cell
              (set_cell (offset + 2) empty_cell (set_cell (offset + 0) r b₀)))
        else xor_hash (z.piece_castling_queenside c) (
            set_cell (offset + 4) empty_cell (
              set_cell (offset + 3) r
                (set_cell (offset + 2) k (set_cell (offset + 0) empty_cell b₀)))) in
      let b₂ =
        xor_pieces k (0x14 <<< offset)
          (xor_pieces r (0x09 <<< offset) (xor_color c (0x1d <<< offset) b₁)) in
      if inverse then b₂ else change_castling (without_castling b₂.castling c) b₂

  unfoldable pub make_enpassant : Color → Bool → Move → ℕ → Board → Board
  make_enpassant c inverse m bb_change b₀ =
      let taken = enpassant_pawn_pos c m.dst in
      let bb_taken = coord_to_bitboard taken in
      let our_pawn = make_cell c pawn in
      let enemy_pawn = make_cell (invert c) pawn in
      let b₁ =
        if inverse
        then set_cell taken enemy_pawn (set_cell m.dst empty_cell (set_cell m.src our_pawn b₀))
        else xor_hash
            (bit_xor (bit_xor (z.pieces our_pawn m.src) (z.pieces our_pawn m.dst))
              (z.pieces enemy_pawn taken))
            (set_cell taken empty_cell (set_cell m.dst our_pawn (set_cell m.src empty_cell b₀))) in
      xor_pieces enemy_pawn bb_taken
        (xor_color (invert c) bb_taken (xor_pieces our_pawn bb_change (xor_color c bb_change b₁)))

  unfoldable pub make_pawn_double_move : Color → Bool → Move → ℕ → Board → Board
  make_pawn_double_move c inverse m bb_change b₀ =
      let our_pawn = make_cell c pawn in
      let b₁ =
        if inverse
        then set_cell m.dst empty_cell (set_cell m.src our_pawn b₀)
        else xor_hash (bit_xor (z.pieces our_pawn m.src) (z.pieces our_pawn m.dst))
            (set_cell m.dst our_pawn (set_cell m.src empty_cell b₀)) in
      let b₂ = xor_pieces our_pawn bb_change (xor_color c bb_change b₁) in
      if inverse
      then b₂
      else record b₂ { enpassant_coord = m.dst; hash = bit_xor b₂.hash (z.enpassant m.dst) }

  -- The cases `Simple` and `Promote*` of `moveMakeImpl`.
  unfoldable pub make_simple : Color → Move → ℕ → ℕ → Board → Board
  make_simple c m src_cell dst_cell b =
      let bb_dst = coord_to_bitboard m.dst in
      let bb_change = bit_or (coord_to_bitboard m.src) bb_dst in
      let b₁ =
        xor_hash
          (bit_xor (bit_xor (z.pieces src_cell m.src) (z.pieces src_cell m.dst))
            (z.pieces dst_cell m.dst))
          (set_cell m.dst src_cell (set_cell m.src empty_cell b)) in
      let b₂ = xor_pieces src_cell bb_change (xor_color c bb_change b₁) in
      update_castling bb_change
        (mask_pieces dst_cell (bit_not bb_dst) (mask_color (invert c) (bit_not bb_dst) b₂))

  unfoldable pub make_promote : Color → Move → ℕ → ℕ → Board → Board
  make_promote c m src_cell dst_cell b =
      let bb_src = coord_to_bitboard m.src in
      let bb_dst = coord_to_bitboard m.dst in
      let bb_change = bit_or bb_src bb_dst in
      let promote = color_offset c + promote_code m.kind in
      let b₁ =
        xor_hash
          (bit_xor (bit_xor (z.pieces src_cell m.src) (z.pieces promote m.dst))
            (z.pieces dst_cell m.dst))
          (set_cell m.dst promote (set_cell m.src empty_cell b)) in
      let b₂ =
        xor_pieces promote bb_dst
          (xor_pieces (make_cell c pawn) bb_src (xor_color c bb_change b₁)) in
      update_castling bb_change
        (mask_pieces dst_cell (bit_not bb_dst) (mask_color (invert c) (bit_not bb_dst) b₂))

  -- `switch (move.kind)`. The case `Invalid` is marked unreachable; here it changes nothing.
  unfoldable pub make_kind : Color → Move → MoveKind → ℕ → ℕ → Board → Board
  make_kind c m simple s d b = make_simple c m s d b
  make_kind c m pawn_double_move s d b =
      make_pawn_double_move c false m (bit_or (coord_to_bitboard m.src) (coord_to_bitboard m.dst)) b
  make_kind c m castling_kingside s d b = make_kingside_castling c false b
  make_kind c m castling_queenside s d b = make_queenside_castling c false b
  make_kind c m null s d b = b
  make_kind c m enpassant s d b =
      make_enpassant c false m (bit_or (coord_to_bitboard m.src) (coord_to_bitboard m.dst)) b
  make_kind c m invalid s d b = b
  make_kind c m _ s d b = make_promote c m s d b

  -- The en passant square is dropped before the switch.
  unfoldable pub clear_enpassant : Board → Board
  clear_enpassant b = if b.enpassant_coord == invalid_coord then b else record b {
    hash = bit_xor b.hash (z.enpassant b.enpassant_coord);
    enpassant_coord = invalid_coord;
  }

  abbrev next_number : Color → ℕ → ℕ
  next_number white n = n
  next_number black n = u16 (n + 1)

  -- What follows the switch: counters, side, and the bitboard of all the pieces.
  unfoldable pub finish_move : Color → ℕ → ℕ → Board → Board
  finish_move c src_cell dst_cell b =
      let reset = not (dst_cell == empty_cell) || src_cell == make_cell c pawn in
      record b {
        move_counter = if reset then 0 else u16 (b.move_counter + 1);
        side = invert c;
        hash = bit_xor b.hash z.move_side;
        move_number = next_number c b.move_number;
        bb_all = bit_or b.bb_white b.bb_black;
      }

  unfoldable pub move_make_impl : Color → Board → Move → Board × MovePersistence
  move_make_impl c b m =
      let src_cell = read b.cells m.src in
      let dst_cell = read b.cells m.dst in
      (
        finish_move c src_cell dst_cell
            (make_kind c m m.kind src_cell dst_cell (clear_enpassant b)),
        record {
          hash = b.hash;
          castling = b.castling;
          enpassant_coord = b.enpassant_coord;
          move_counter = b.move_counter;
          dst_cell = dst_cell;
        },
      )

  unfoldable pub move_make : Board → Move → Board × MovePersistence
  move_make b m = move_make_impl b.side b m

  unfoldable pub unmake_simple : Color → Move → ℕ → ℕ → Board → Board
  unmake_simple c m src_cell dst_cell b =
      let bb_dst = coord_to_bitboard m.dst in
      let bb_change = bit_or (coord_to_bitboard m.src) bb_dst in
      let b₁ = set_cell m.dst dst_cell (set_cell m.src src_cell b) in
      let b₂ = xor_pieces src_cell bb_change (xor_color c bb_change b₁) in
      if dst_cell == empty_cell
      then b₂
      else or_pieces dst_cell bb_dst (or_color (invert c) bb_dst b₂)

  unfoldable pub unmake_promote : Color → Move → ℕ → Board → Board
  unmake_promote c m dst_cell b =
      let bb_src = coord_to_bitboard m.src in
      let bb_dst = coord_to_bitboard m.dst in
      let bb_change = bit_or bb_src bb_dst in
      let promote = color_offset c + promote_code m.kind in
      let b₁ = set_cell m.dst dst_cell (set_cell m.src (make_cell c pawn) b) in
      let b₂ =
        xor_pieces promote bb_dst
          (xor_pieces (make_cell c pawn) bb_src (xor_color c bb_change b₁)) in
      if dst_cell == empty_cell
      then b₂
      else or_pieces dst_cell bb_dst (or_color (invert c) bb_dst b₂)

  unfoldable pub unmake_kind : Color → Move → MoveKind → ℕ → ℕ → Board → Board
  unmake_kind c m simple s d b = unmake_simple c m s d b
  unmake_kind c m pawn_double_move s d b =
      make_pawn_double_move c true m (bit_or (coord_to_bitboard m.src) (coord_to_bitboard m.dst)) b
  unmake_kind c m castling_kingside s d b = make_kingside_castling c true b
  unmake_kind c m castling_queenside s d b = make_queenside_castling c true b
  unmake_kind c m null s d b = b
  unmake_kind c m enpassant s d b =
      make_enpassant c true m (bit_or (coord_to_bitboard m.src) (coord_to_bitboard m.dst)) b
  unmake_kind c m invalid s d b = b
  unmake_kind c m _ s d b = unmake_promote c m d b

  abbrev previous_number : Color → ℕ → ℕ
  previous_number white n = n
  previous_number black n = u16 (n + 2 ^ 16 - 1)

  unfoldable pub restore : Color → MovePersistence → Board → Board
  restore c p b = record b {
    hash = p.hash;
    castling = p.castling;
    enpassant_coord = p.enpassant_coord;
    move_counter = p.move_counter;
    side = c;
    move_number = previous_number c b.move_number;
    bb_all = bit_or b.bb_white b.bb_black;
  }

  unfoldable pub move_unmake_impl : Color → Board → Move → MovePersistence → Board
  move_unmake_impl c b m p =
      let src_cell = read b.cells m.dst in
      restore c p (unmake_kind c m m.kind src_cell p.dst_cell b)

  unfoldable pub move_unmake : Board → Move → MovePersistence → Board
  move_unmake b m p = move_unmake_impl (invert b.side) b m p
