-- ===== src/Core/Make/Keys.antt =====
-- The incremental hash of `moveMake`: each case changes it as it changes the essential fields.
use sofcheck.Common.{ℕ, ◌<◌, ◌≡◌, false, bit_and, bit_or, bit_xor, read, arith}
use sofcheck.Common.Bits.{bit_xor-zero, bit_xor_assoc, bit_xor_self}
use sofcheck.Core.Types.{Color, white, black, invert, coord_to_bitboard, invalid_coord}
use sofcheck.Core.Zobrist.{Zobrist}
use sofcheck.Core.Board.{Board, side_key, enpassant_key}
use sofcheck.Core.Move.{Move, enpassant_pawn_pos}
use sofcheck.Core.Hash.{cells_key, state_key}
use sofcheck.Core.Synced.{CellsValid}
use sofcheck.Core.Make.{
  make_simple, make_promote, make_enpassant, make_pawn_double_move, update_castling,
  make_kingside_castling, make_queenside_castling, change_castling, clear_enpassant, castling_mask,
}
use sofcheck.Core.Make.Applicable.{
  Travels, PawnStep, Takes, Promotes, CastlesKingside, CastlesQueenside,
}
use sofcheck.Core.Make.Sums.{
  KeysMade, swap_key, add_key, drop_key, turn_key, moved_sum, stepped_sum, taken_sum, castled_sum,
}

module _ (z : Zobrist) where
  abbrev pub Keyed : Board → Type 0
  Keyed b =
      b.hash ≡ bit_xor (state_key z b.side b.enpassant_coord b.castling) (cells_key z 64 b.cells)

  castling_change :
      (side : Color) (e castling flags h k : ℕ)
      → h ≡ bit_xor (state_key z side e castling) k
      → bit_xor (bit_xor h (z.castling castling)) (z.castling flags)
        ≡ bit_xor (state_key z side e flags) k
  unfolding state_key
  castling_change side e castling flags h k eq = rw eq (swap_key _ _ _ _)

  change_castling-Keyed : (flags : ℕ) (b : Board) → Keyed b → Keyed (change_castling z flags b)
  unfolding change_castling
  change_castling-Keyed flags b h =
      castling_change b.side b.enpassant_coord b.castling flags b.hash _ h

  update_castling-Keyed : (v : ℕ) (b : Board) → Keyed b → Keyed (update_castling z v b)
  unfolding update_castling
  update_castling-Keyed v b h =
      ground (arith, change_castling-Keyed (bit_and b.castling (castling_mask v)) b h)

  pub clear_enpassant-Keyed : (b : Board) → Keyed b → Keyed (clear_enpassant z b)
  unfolding clear_enpassant state_key enpassant_key
  clear_enpassant-Keyed b h = ground (
    arith,
    drop_key (side_key z b.side) (z.castling b.castling) (cells_key z 64 b.cells)
        (z.enpassant b.enpassant_coord),
  )

  pub turn-Keyed :
      (c : Color) (e castling k : ℕ)
      → bit_xor (bit_xor (state_key z c e castling) k) z.move_side
        ≡ bit_xor (state_key z (invert c) e castling) k
  unfolding state_key enpassant_key side_key
  turn-Keyed white e castling k = ground (
    arith,
    turn_key 0 (z.castling castling) k z.move_side,
    turn_key (bit_xor 0 (z.enpassant e)) (z.castling castling) k z.move_side,
    bit_xor_assoc z.move_side 0 (z.enpassant e),
    bit_xor-zero z.move_side,
  )
  turn-Keyed black e castling k = ground (
    arith,
    turn_key z.move_side (z.castling castling) k z.move_side,
    turn_key (bit_xor z.move_side (z.enpassant e)) (z.castling castling) k z.move_side,
    bit_xor_assoc z.move_side z.move_side (z.enpassant e),
    bit_xor_self z.move_side,
  )

-- The sums that the cases add to the hash, against the keys of the new cells.
module _ (z : Zobrist) (made : KeysMade z) where
  pub make_simple-Keyed :
      (c : Color) (m : Move) (b : Board)
      → CellsValid b.cells
      → Keyed z b
      → Travels c b.cells m.src m.dst
      → Keyed z (make_simple z c m (read b.cells m.src) (read b.cells m.dst) b)
  unfolding make_simple
  make_simple-Keyed white m b valid h t =
      update_castling-Keyed z _ _
        (rw h (moved_sum z made _ b.cells valid.0 m.src m.dst _ t.src_lt t.dst_lt t.src_ne_dst))
  make_simple-Keyed black m b valid h t =
      update_castling-Keyed z _ _
        (rw h (moved_sum z made _ b.cells valid.0 m.src m.dst _ t.src_lt t.dst_lt t.src_ne_dst))

  pub make_promote-Keyed :
      (c : Color) (m : Move) (b : Board)
      → CellsValid b.cells
      → Keyed z b
      → Promotes c b.cells m.src m.dst
      → Keyed z (make_promote z c m (read b.cells m.src) (read b.cells m.dst) b)
  unfolding make_promote
  make_promote-Keyed white m b valid h t =
      update_castling-Keyed z _ _
        (rw h (moved_sum z made _ b.cells valid.0 m.src m.dst _ t.src_lt t.dst_lt t.src_ne_dst))
  make_promote-Keyed black m b valid h t =
      update_castling-Keyed z _ _
        (rw h (moved_sum z made _ b.cells valid.0 m.src m.dst _ t.src_lt t.dst_lt t.src_ne_dst))

  -- The en passant square comes in, where none was set.
  enpassant_change :
      (side : Color) (castling d h k : ℕ)
      → d < 64
      → h ≡ bit_xor (state_key z side invalid_coord castling) k
      → bit_xor h (z.enpassant d) ≡ bit_xor (state_key z side d castling) k
  unfolding state_key enpassant_key
  enpassant_change side castling d h k hd eq =
      ground (arith, add_key (side_key z side) (z.castling castling) k (z.enpassant d))

  pub make_pawn_double_move-Keyed :
      (c : Color) (m : Move) (b : Board)
      → CellsValid b.cells
      → b.enpassant_coord ≡ invalid_coord
      → Keyed z b
      → PawnStep c b.cells m.src m.dst
      → Keyed z (
          make_pawn_double_move z c false m
            (bit_or (coord_to_bitboard m.src) (coord_to_bitboard m.dst))
            b)
  unfolding make_pawn_double_move
  make_pawn_double_move-Keyed white m b valid none h t =
      enpassant_change b.side b.castling m.dst _ _ t.dst_lt (
        rw (h, none)
          (stepped_sum z made _ b.cells valid.0 m.src m.dst 1 t.src_lt t.dst_lt t.src_ne_dst
            t.our_pawn t.free))
  make_pawn_double_move-Keyed black m b valid none h t =
      enpassant_change b.side b.castling m.dst _ _ t.dst_lt (
        rw (h, none)
          (stepped_sum z made _ b.cells valid.0 m.src m.dst 9 t.src_lt t.dst_lt t.src_ne_dst
            t.our_pawn t.free))

  pub make_enpassant-Keyed :
      (c : Color) (m : Move) (b : Board)
      → CellsValid b.cells
      → Keyed z b
      → Takes c b.cells m.src m.dst
      → Keyed z (
          make_enpassant z c false m (bit_or (coord_to_bitboard m.src) (coord_to_bitboard m.dst)) b)
  unfolding make_enpassant
  make_enpassant-Keyed white m b valid h t = rw h (
      taken_sum z made _ b.cells valid.0 m.src m.dst (enpassant_pawn_pos white m.dst) 1 9 t.src_lt
        t.dst_lt t.src_ne_dst t.taken_lt (ground (arith, t.our_pawn, t.enemy_pawn)) (omega arith)
        t.our_pawn t.free t.enemy_pawn)
  make_enpassant-Keyed black m b valid h t = rw h (
      taken_sum z made _ b.cells valid.0 m.src m.dst (enpassant_pawn_pos black m.dst) 9 1 t.src_lt
        t.dst_lt t.src_ne_dst t.taken_lt (ground (arith, t.our_pawn, t.enemy_pawn))
        (omega (arith, t.dst_lt)) t.our_pawn t.free t.enemy_pawn)

  pub make_kingside_castling-Keyed :
      (c : Color) (b : Board)
      → CellsValid b.cells
      → Keyed z b
      → CastlesKingside c b.cells
      → Keyed z (make_kingside_castling z c false b)
  unfolding make_kingside_castling
  make_kingside_castling-Keyed white b valid h t =
      castling_change z b.side b.enpassant_coord b.castling _ _ _ (
        rw (h, made.kingside white)
          (castled_sum z made _ b.cells valid.0 60 61 62 63 2 5 (omega arith) t.king_home t.free₁
            t.free₂ t.rook_home))
  make_kingside_castling-Keyed black b valid h t =
      castling_change z b.side b.enpassant_coord b.castling _ _ _ (
        rw (h, made.kingside black)
          (castled_sum z made _ b.cells valid.0 4 5 6 7 10 13 (omega arith) t.king_home t.free₁
            t.free₂ t.rook_home))

  pub make_queenside_castling-Keyed :
      (c : Color) (b : Board)
      → CellsValid b.cells
      → Keyed z b
      → CastlesQueenside c b.cells
      → Keyed z (make_queenside_castling z c false b)
  unfolding make_queenside_castling
  make_queenside_castling-Keyed white b valid h t =
      castling_change z b.side b.enpassant_coord b.castling _ _ _ (
        rw (h, made.queenside white)
          (castled_sum z made _ b.cells valid.0 56 58 59 60 5 2 (omega arith) t.rook_home t.free₁
            t.free₂ t.king_home))
  make_queenside_castling-Keyed black b valid h t =
      castling_change z b.side b.enpassant_coord b.castling _ _ _ (
        rw (h, made.queenside black)
          (castled_sum z made _ b.cells valid.0 0 2 3 4 13 10 (omega arith) t.rook_home t.free₁
            t.free₂ t.king_home))
