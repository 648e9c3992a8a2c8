-- ===== src/Core/Make/Undo.antt =====
-- `moveUnmake` undoes `moveMake`: each case gives the cells and the bitboards back.
use sofcheck.Common.{ℕ, ◌+◌, ◌≤◌, ◌∙◌, refl, true, false, read, arith, ◌<<<◌}
use sofcheck.Common.Bits.{bit_xor_cancel}
use sofcheck.Core.Types.{Color, white, black, color_offset, coord_to_bitboard}
use sofcheck.Core.Zobrist.{Zobrist}
use sofcheck.Core.Board.{Board}
use sofcheck.Core.Move.{Move, promote_code, enpassant_pawn_pos}
use sofcheck.Core.Synced.{CellsValid}
use sofcheck.Core.Synced.Restore.{
  restore₂, restore₃, restore₄, xor_twice, xor_two_twice, moved_pieces_back, promoted_pieces_back,
}
use sofcheck.Core.Make.{
  make_simple, make_promote, make_enpassant, make_pawn_double_move, make_kingside_castling,
  make_queenside_castling, unmake_simple, unmake_promote,
}
use sofcheck.Core.Make.Applicable.{
  Travels, PawnStep, Takes, Promotes, CastlesKingside, CastlesQueenside,
}
use sofcheck.Core.Make.Simple.{InSync, SameBoards, pieces_of}
use sofcheck.Core.Make.Fields.{
  unmake_simple_white, unmake_simple_black, theirs_back, make_simple_white, make_promote_white,
  unmake_promote_white, make_simple_black, make_promote_black, unmake_promote_black,
}

module _ (z : Zobrist) where
  pub undo_simple :
      (c : Color) (m : Move) (b after : Board)
      → CellsValid b.cells
      → InSync b
      → Travels c b.cells m.src m.dst
      → SameBoards after (make_simple z c m (read b.cells m.src) (read b.cells m.dst) b)
      → SameBoards (unmake_simple z c m (read b.cells m.src) (read b.cells m.dst) after) b
  undo_simple white m b after v h t same =
      let u = make_simple_white z m (read b.cells m.src) (read b.cells m.dst) b in
      let f = unmake_simple_white z m (read b.cells m.src) (read b.cells m.dst) after in
      (
        f.0 ∙ rw (same.0, u.0) (restore₂ b.cells m.src m.dst t.src_ne_dst _ _ _ refl refl),
        f.1 ∙ rw (same.1, u.1) (bit_xor_cancel _ _),
        f.2
            ∙ rw (same.2, u.2)
                (theirs_back black b.cells b.bb_black m.dst h.by_black t.dst_lt t.free),
        f.3
            ∙ rw (same.3, u.3)
                (moved_pieces_back b.cells b.bb_pieces (pieces_of h) m.src m.dst t.dst_lt
                  (read b.cells m.dst) refl (v.1 m.dst) (read b.cells m.src) (ground arith)
                  (v.1 m.src)),
      )
  undo_simple black m b after v h t same =
      let u = make_simple_black z m (read b.cells m.src) (read b.cells m.dst) b in
      let f = unmake_simple_black z m (read b.cells m.src) (read b.cells m.dst) after in
      (
        f.0 ∙ rw (same.0, u.0) (restore₂ b.cells m.src m.dst t.src_ne_dst _ _ _ refl refl),
        f.1
            ∙ rw (same.1, u.1)
                (theirs_back white b.cells b.bb_white m.dst h.by_white t.dst_lt t.free),
        f.2 ∙ rw (same.2, u.2) (bit_xor_cancel _ _),
        f.3
            ∙ rw (same.3, u.3)
                (moved_pieces_back b.cells b.bb_pieces (pieces_of h) m.src m.dst t.dst_lt
                  (read b.cells m.dst) refl (v.1 m.dst) (read b.cells m.src) (ground arith)
                  (v.1 m.src)),
      )

  pub undo_promote :
      (c : Color) (m : Move) (b after : Board)
      → CellsValid b.cells
      → InSync b
      → Promotes c b.cells m.src m.dst
      → 2 ≤ promote_code m.kind
      → promote_code m.kind ≤ 5
      → SameBoards after (make_promote z c m (read b.cells m.src) (read b.cells m.dst) b)
      → SameBoards (unmake_promote z c m (read b.cells m.dst) after) b
  undo_promote white m b after v h t lo hi same =
      let q = color_offset white + promote_code m.kind in
      let u = make_promote_white z m (read b.cells m.src) (read b.cells m.dst) b in
      let f = unmake_promote_white z m (read b.cells m.dst) after in
      (
        f.0 ∙ rw (same.0, u.0) (restore₂ b.cells m.src m.dst t.src_ne_dst _ _ _ t.our_pawn refl),
        f.1 ∙ rw (same.1, u.1) (bit_xor_cancel _ _),
        f.2
            ∙ rw (same.2, u.2)
                (theirs_back black b.cells b.bb_black m.dst h.by_black t.dst_lt t.free),
        f.3
            ∙ rw (same.3, u.3)
                (promoted_pieces_back b.cells b.bb_pieces (pieces_of h) m.src m.dst t.dst_lt
                  (read b.cells m.dst) refl (v.1 m.dst) 1 q (ground arith) (ground arith)
                  (omega arith) (omega arith) (omega arith)),
      )
  undo_promote black m b after v h t lo hi same =
      let q = color_offset black + promote_code m.kind in
      let u = make_promote_black z m (read b.cells m.src) (read b.cells m.dst) b in
      let f = unmake_promote_black z m (read b.cells m.dst) after in
      (
        f.0 ∙ rw (same.0, u.0) (restore₂ b.cells m.src m.dst t.src_ne_dst _ _ _ t.our_pawn refl),
        f.1
            ∙ rw (same.1, u.1)
                (theirs_back white b.cells b.bb_white m.dst h.by_white t.dst_lt t.free),
        f.2 ∙ rw (same.2, u.2) (bit_xor_cancel _ _),
        f.3
            ∙ rw (same.3, u.3)
                (promoted_pieces_back b.cells b.bb_pieces (pieces_of h) m.src m.dst t.dst_lt
                  (read b.cells m.dst) refl (v.1 m.dst) 9 q (ground arith) (ground arith)
                  (omega arith) (omega arith) (omega arith)),
      )

  pub undo_pawn_double_move :
      (c : Color) (m : Move) (change : ℕ) (b after : Board)
      → PawnStep c b.cells m.src m.dst
      → SameBoards after (make_pawn_double_move z c false m change b)
      → SameBoards (make_pawn_double_move z c true m change after) b
  unfolding make_pawn_double_move
  undo_pawn_double_move white m change b after t same = (
    rw (same.0) (restore₂ b.cells m.src m.dst t.src_ne_dst _ _ _ t.our_pawn t.free),
    rw (same.1) (bit_xor_cancel _ _),
    same.2,
    rw (same.3) (xor_twice b.bb_pieces 1 change),
  )
  undo_pawn_double_move black m change b after t same = (
    rw (same.0) (restore₂ b.cells m.src m.dst t.src_ne_dst _ _ _ t.our_pawn t.free),
    same.1,
    rw (same.2) (bit_xor_cancel _ _),
    rw (same.3) (xor_twice b.bb_pieces 9 change),
  )

  pub undo_enpassant :
      (c : Color) (m : Move) (change : ℕ) (b after : Board)
      → Takes c b.cells m.src m.dst
      → SameBoards after (make_enpassant z c false m change b)
      → SameBoards (make_enpassant z c true m change after) b
  unfolding make_enpassant
  undo_enpassant white m change b after t same = (
    rw (same.0) (
        restore₃ b.cells m.src m.dst t.src_ne_dst (enpassant_pawn_pos white m.dst) _ _ _ _
          (ground (arith, t.our_pawn, t.enemy_pawn)) (omega (arith, t.dst_lt)) t.our_pawn t.free
          t.enemy_pawn),
    rw (same.1) (bit_xor_cancel _ _),
    rw (same.2) (bit_xor_cancel _ _),
    rw (same.3) (
        xor_two_twice b.bb_pieces 1 9 change (coord_to_bitboard (enpassant_pawn_pos white m.dst))
          (omega arith)),
  )
  undo_enpassant black m change b after t same = (
    rw (same.0) (
        restore₃ b.cells m.src m.dst t.src_ne_dst (enpassant_pawn_pos black m.dst) _ _ _ _
          (ground (arith, t.our_pawn, t.enemy_pawn)) (omega (arith, t.dst_lt)) t.our_pawn t.free
          t.enemy_pawn),
    rw (same.1) (bit_xor_cancel _ _),
    rw (same.2) (bit_xor_cancel _ _),
    rw (same.3) (
        xor_two_twice b.bb_pieces 9 1 change (coord_to_bitboard (enpassant_pawn_pos black m.dst))
          (omega arith)),
  )

  pub undo_kingside_castling :
      (c : Color) (b after : Board)
      → CellsValid b.cells
      → CastlesKingside c b.cells
      → SameBoards after (make_kingside_castling z c false b)
      → SameBoards (make_kingside_castling z c true after) b
  unfolding make_kingside_castling
  undo_kingside_castling white b after v t same = (
    rw (same.0) (
        restore₄ b.cells 60 61 62 63 _ _ _ _ _ _ _ _ (omega (arith, v.0)) t.king_home t.free₁
          t.free₂ t.rook_home),
    rw (same.1) (bit_xor_cancel _ _),
    same.2,
    rw (same.3) (xor_two_twice b.bb_pieces 5 2 (0xa0 <<< 56) (0x50 <<< 56) (omega arith)),
  )
  undo_kingside_castling black b after v t same = (
    rw (same.0) (
        restore₄ b.cells 4 5 6 7 _ _ _ _ _ _ _ _ (omega (arith, v.0)) t.king_home t.free₁ t.free₂
          t.rook_home),
    same.1,
    rw (same.2) (bit_xor_cancel _ _),
    rw (same.3) (xor_two_twice b.bb_pieces 13 10 (0xa0 <<< 0) (0x50 <<< 0) (omega arith)),
  )

  pub undo_queenside_castling :
      (c : Color) (b after : Board)
      → CellsValid b.cells
      → CastlesQueenside c b.cells
      → SameBoards after (make_queenside_castling z c false b)
      → SameBoards (make_queenside_castling z c true after) b
  unfolding make_queenside_castling
  undo_queenside_castling white b after v t same = (
    rw (same.0) (
        restore₄ b.cells 56 58 59 60 _ _ _ _ _ _ _ _ (omega (arith, v.0)) t.rook_home t.free₁
          t.free₂ t.king_home),
    rw (same.1) (bit_xor_cancel _ _),
    same.2,
    rw (same.3) (xor_two_twice b.bb_pieces 5 2 (0x09 <<< 56) (0x14 <<< 56) (omega arith)),
  )
  undo_queenside_castling black b after v t same = (
    rw (same.0) (
        restore₄ b.cells 0 2 3 4 _ _ _ _ _ _ _ _ (omega (arith, v.0)) t.rook_home t.free₁ t.free₂
          t.king_home),
    same.1,
    rw (same.2) (bit_xor_cancel _ _),
    rw (same.3) (xor_two_twice b.bb_pieces 13 10 (0x09 <<< 0) (0x14 <<< 0) (omega arith)),
  )
