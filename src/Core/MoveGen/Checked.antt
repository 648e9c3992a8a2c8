-- ===== src/Core/MoveGen/Checked.antt =====
-- The moves of each generator, for each kind of check, may be played.
use sofcheck.Common.{
  ℕ, ◌+◌, ◌-◌, subst, ◌<◌, ◌≡◌, ◌≢◌, refl, inl, inr, Bool, Bool-cases, true, false, ◌&&◌, not, ◌==◌,
  if◌then◌else◌, read, List, [], ◌++◌, arith, bit_and, All, All-append, All-if, All-if_one, ◌<<<◌,
}
use sofcheck.Core.Types.{Color, white, black, king, make_cell, invert, make_coord}
use sofcheck.Core.Geometry.{castling_row, castling_offset}
use sofcheck.Core.Zobrist.{Zobrist}
use sofcheck.Core.Board.{Board, is_kingside_castling, is_queenside_castling}
use sofcheck.Core.Move.{Move, castling_kingside, castling_queenside, kind_well_formed}
use sofcheck.Core.Synced.{IsSynced}
use sofcheck.Core.Bitboard.{bb_castling_kingside_pass, bb_castling_queenside_pass}
use sofcheck.Core.Attacks.{MagicTables}
use sofcheck.Core.Coherent.{IsCoherent}
use sofcheck.Core.Coherent.Playable.{IsPlayable}
use sofcheck.Core.MoveGen.{king_pos, is_cell_attacked, bb_diag_pieces, bb_line_pieces}
use sofcheck.Core.MoveGen.Pawns.{GenFilter, simple_gen_filter, check_gen_filter}
use sofcheck.Core.MoveGen.Pieces.{
  gen_knight, gen_king, gen_bishop, gen_rook, gen_castling, gen_castling_kingside,
  gen_castling_queenside,
}
use sofcheck.Core.MoveGen.Valid.{is_kind_valid}
use sofcheck.Core.MoveGen.PawnSteps.{IsPlayable-intro}
use sofcheck.Core.MoveGen.{cell_attackers}
use sofcheck.Core.MoveGen.Targets.{is_cell_attacked_lem}
use sofcheck.Core.MoveGen.Pawns.{
  gen_pawn_simple, gen_pawn_capture, gen_pawn_enpassant, all, no_promote, promote_only,
  gen_castling_of,
}
use sofcheck.Core.MoveGen.PawnMoves.{gen_pawn_capture-All}
use sofcheck.Core.MoveGen.PawnPassing.{gen_pawn_enpassant-All}
use sofcheck.Core.MoveGen.PawnSpecial.{gen_pawn_simple-All}
use sofcheck.Core.MoveGen.Playable.{
  OneKing, gen_king-All, gen_knight-All, gen_bishop-All, gen_rook-All, king_pos_lem,
}
use sofcheck.Core.MoveGen.Gen.{
  CheckKind, none, single, double, new_move_gen, gen_impl_inner, gen_checked, gen_promotes_checked,
}
use sofcheck.Util.Bit.{has_zero_or_one_bit}

-- The king's cell at home, and those that it passes and reaches.
castling_cells :
    (c : Color)
    → (make_coord (castling_row c) 4 ≡ castling_offset c + 4)
      × (make_coord (castling_row c) 4 + 1 ≡ make_coord (castling_row c) 5)
      × (make_coord (castling_row c) 4 - 1 ≡ make_coord (castling_row c) 3)
      × (make_coord (castling_row c) 4 < 64)
      × (make_coord (castling_row c) 6 < 64)
      × (make_coord (castling_row c) 2 < 64)
unfolding make_coord
castling_cells white = (refl, refl, refl, omega arith, omega arith, omega arith)
castling_cells black = (refl, refl, refl, omega arith, omega arith, omega arith)

castling_formed :
    (c : Color)
    → (kind_well_formed c castling_kingside
          (make_coord (castling_row c) 4)
          (make_coord (castling_row c) 6)
        ≡ true)
      × (kind_well_formed c castling_queenside
            (make_coord (castling_row c) 4)
            (make_coord (castling_row c) 2)
          ≡ true)
unfolding make_coord kind_well_formed
castling_formed white = (refl, refl)
castling_formed black = (refl, refl)

castling_moves :
    (c : Color)
    → (make_coord (castling_row c) 4 ≢ make_coord (castling_row c) 6)
      × (make_coord (castling_row c) 4 ≢ make_coord (castling_row c) 2)
unfolding make_coord
castling_moves white = (λ e. omega arith, λ e. omega arith)
castling_moves black = (λ e. omega arith, λ e. omega arith)

module _ (z : Zobrist) (t : MagicTables) (b : Board) (h : IsSynced z b) (c : IsCoherent b)
    (one : OneKing b.side b.cells) where
  abbrev pub no_check : Bool
  no_check = not (is_cell_attacked t (invert b.side) b (king_pos b b.side))

  -- Without a check a king that may castle is not attacked on its home.
  home_safe :
      read b.cells (castling_offset b.side + 4) ≡ make_cell b.side king
      → no_check ≡ true
      → is_cell_attacked t (invert b.side) b (make_coord (castling_row b.side) 4) ≡ false
  home_safe at safe =
      let (home, _, _, lt, _, _) = castling_cells b.side in
      let same =
        king_pos_lem z t b h b.side (make_coord (castling_row b.side) 4) one lt (rw home at) in
      subst (λ i. is_cell_attacked t (invert b.side) b i ≡ false) same (ground (arith, safe))

  kingside-IsPlayable : no_check ≡ true → All (IsPlayable t b) (gen_castling_kingside t b.side b)
  unfolding gen_castling_kingside is_kind_valid
  kingside-IsPlayable safe = All-if_one (IsPlayable t b) _ _ λ may.
      let (home, next, _, s_lt, d_lt, _) = castling_cells b.side in
      let flag : is_kingside_castling b b.side ≡ true = ground (arith, may) in
      let pass : (bit_and (bb_castling_kingside_pass <<< castling_offset b.side) b.bb_all == 0)
          ≡ true =
        ground (arith, may) in
      let passed : is_cell_attacked t (invert b.side) b (make_coord (castling_row b.side) 5)
          ≡ false =
        ground (arith, may) in
      IsPlayable-intro t b castling_kingside (make_coord (castling_row b.side) 4)
        (make_coord (castling_row b.side) 6) s_lt d_lt (castling_moves b.side).0
        (castling_formed b.side).0
        (rw (flag, pass, next, passed, home_safe (c.kingside b.side flag).0 safe) refl)

  queenside-IsPlayable : no_check ≡ true → All (IsPlayable t b) (gen_castling_queenside t b.side b)
  unfolding gen_castling_queenside is_kind_valid
  queenside-IsPlayable safe = All-if_one (IsPlayable t b) _ _ λ may.
      let (home, _, next, s_lt, _, d_lt) = castling_cells b.side in
      let flag : is_queenside_castling b b.side ≡ true = ground (arith, may) in
      let pass : (bit_and (bb_castling_queenside_pass <<< castling_offset b.side) b.bb_all == 0)
          ≡ true =
        ground (arith, may) in
      let passed : is_cell_attacked t (invert b.side) b (make_coord (castling_row b.side) 3)
          ≡ false =
        ground (arith, may) in
      IsPlayable-intro t b castling_queenside (make_coord (castling_row b.side) 4)
        (make_coord (castling_row b.side) 2) s_lt d_lt (castling_moves b.side).1
        (castling_formed b.side).1
        (rw (flag, pass, next, passed, home_safe (c.queenside b.side flag).0 safe) refl)

  gen_castling-All : no_check ≡ true → All (IsPlayable t b) (gen_castling t b.side b)
  unfolding gen_castling
  gen_castling-All safe =
      All-append (IsPlayable t b) _ _ (kingside-IsPlayable safe) (queenside-IsPlayable safe)

  -- The parts of `genImplInner` that do not depend on the check.
  steps-All :
      (s k : Bool) (filter : GenFilter) (first : List Move)
      → All (IsPlayable t b) first
      → All (IsPlayable t b) (
          first
          ++ gen_king b.side s k b
          ++ gen_knight b.side s k filter b
          ++ gen_bishop t b.side s k filter b (bb_diag_pieces b.side b)
          ++ gen_rook t b.side s k filter b (bb_line_pieces b.side b))
  steps-All s k filter first before =
      All-append (IsPlayable t b) _ _
        (All-append (IsPlayable t b) _ _
          (All-append (IsPlayable t b) _ _
            (All-append (IsPlayable t b) first _ before (gen_king-All z t b h s k))
            (gen_knight-All z t b h filter s k))
          (gen_bishop-All z t b h filter s k))
        (gen_rook-All z t b h filter s k)

  captures-All :
      (filter : GenFilter)
      → All (IsPlayable t b) (gen_pawn_capture b.side filter b ++ gen_pawn_enpassant b.side b)
  captures-All filter =
      All-append (IsPlayable t b) _ _ (gen_pawn_capture-All z t b h filter)
        (gen_pawn_enpassant-All z t b h c)

  gen_impl_inner-All :
      (s k p : Bool) (filter : GenFilter)
      → ((s && gen_castling_of filter) ≡ true → no_check ≡ true)
      → All (IsPlayable t b) (gen_impl_inner t b.side s k p filter b)
  unfolding gen_impl_inner
  gen_impl_inner-All s k p filter safe =
      let simples = gen_pawn_simple b.side (if p then all else no_promote) filter b in
      let captures = gen_pawn_capture b.side filter b ++ gen_pawn_enpassant b.side b in
      All-append (IsPlayable t b) _
        (if s && gen_castling_of filter then gen_castling t b.side b else [])
        (steps-All s k filter ((if s then simples else []) ++ (if k then captures else [])) (
          All-append (IsPlayable t b) (if s then simples else []) (if k then captures else [])
            (All-if (IsPlayable t b) s simples
              λ _. gen_pawn_simple-All z t b h filter (if p then all else no_promote))
            (All-if (IsPlayable t b) k captures λ _. captures-All filter)))
        (All-if (IsPlayable t b) (s && gen_castling_of filter) (gen_castling t b.side b)
          λ e. gen_castling-All (safe e))

  -- Whatever the kind of the check, if castling is only generated where there is none.
  pub gen_checked-All :
      (kind : CheckKind) (mask : ℕ) (s k p : Bool)
      → (kind ≡ none → no_check ≡ true)
      → All (IsPlayable t b) (gen_checked t kind mask b.side s k p b)
  unfolding gen_checked
  gen_checked-All none mask s k p safe = gen_impl_inner-All s k p simple_gen_filter λ _. safe refl
  gen_checked-All single mask s k p safe =
      gen_impl_inner-All s k p (check_gen_filter mask) λ e. absurd (ground arith)
  gen_checked-All double mask s k p safe = gen_king-All z t b h s k

  pub promotes_checked-All :
      (kind : CheckKind) (mask : ℕ)
      → All (IsPlayable t b) (gen_promotes_checked t kind mask b.side b)
  unfolding gen_promotes_checked
  promotes_checked-All none mask = gen_pawn_simple-All z t b h simple_gen_filter promote_only
  promotes_checked-All single mask =
      gen_pawn_simple-All z t b h (check_gen_filter mask) promote_only
  promotes_checked-All double mask = tt

  -- The constructor reports no check only if the king is not attacked.
  pub new_move_gen_lem :
      let g = new_move_gen t b in
      (g.board ≡ b) × (g.side ≡ b.side) × (g.check ≡ none → no_check ≡ true)
  unfolding new_move_gen
  new_move_gen_lem =
      let attackers = cell_attackers t (invert b.side) b (king_pos b b.side) in
      let lem = is_cell_attacked_lem t (invert b.side) b (king_pos b b.side) in
      elim (Bool-cases (attackers == 0)) [
        | inl safe ↦ rw safe (refl, refl, λ _. ground (arith, lem, safe))
        | inr attacked ↦ elim (Bool-cases (has_zero_or_one_bit attackers)) [
          | inl few ↦ rw (attacked, few) (refl, refl, λ e. absurd (ground arith))
          | inr many ↦ rw (attacked, many) (refl, refl, λ e. absurd (ground arith))
        ]
      ]
