-- ===== src/Core/MoveGen/Captures.antt =====
-- `genCaptures` makes captures, and nothing else, and leaves their tags 0.
use sofcheck.Common.{
  ℕ, ◌^◌, ◌<◌, ◌≡◌, refl, Bool, Bool-cases, inl, inr, true, false, not, ◌&&◌, ◌==◌, read, arith,
  All, All-append, All-if_one, All-concat_map, All-map, ap, ◌∙◌, sub8, add8,
}
use sofcheck.Common.Bits.{test_bit}
use sofcheck.Core.Types.{
  Color, white, black, king, knight, bishop, rook, queen, pawn, make_cell, invert, coord_y,
  invalid_coord,
}
use sofcheck.Core.Geometry.{pawn_left_delta, pawn_right_delta}
use sofcheck.Core.Zobrist.{Zobrist}
use sofcheck.Core.Board.{Board, bb_color}
use sofcheck.Core.Move.{Move, MoveKind, simple, enpassant}
use sofcheck.Core.Synced.{is_color, IsSynced}
use sofcheck.Core.Coherent.{color_bit, IsCoherent}
use sofcheck.Core.Bitboard.{advance_pawn_left, advance_pawn_right}
use sofcheck.Core.Attacks.{
  MagicTables, king_attacks, knight_attacks, bishop_attack_bitboard, rook_attack_bitboard,
}
use sofcheck.Util.Bit.{has_zero_or_one_bit}
use sofcheck.Core.MoveGen.{cell_attackers, king_pos, bb_diag_pieces, bb_line_pieces}
use sofcheck.Core.MoveGen.Pawns.{
  GenFilter, simple_gen_filter, check_gen_filter, add_pawn_with_promote, do_gen_pawn_capture,
  gen_pawn_capture, gen_pawn_enpassant,
}
use sofcheck.Core.MoveGen.Pieces.{
  get_allowed_mask, gen_steps, gen_king, gen_knight, gen_bishop, gen_rook,
}
use sofcheck.Core.MoveGen.Gen.{
  CheckKind, none, single, double, new_move_gen, gen_impl_inner, gen_checked, gen_impl,
  gen_captures, is_move_capture,
}
use sofcheck.Core.MoveGen.Targets.{targets-All, gen_steps-All, color_lt, piece_lt, pieces_lt}
use sofcheck.Core.MoveGen.Taken.{taken_at, Takes, KnownPassing, behind, passing-Takes}

pub new_move_gen-board :
    (t : MagicTables) (b : Board)
    → ((new_move_gen t b).board ≡ b) × ((new_move_gen t b).side ≡ b.side)
unfolding new_move_gen
new_move_gen-board t b =
    let attackers = cell_attackers t (invert b.side) b (king_pos b b.side) in
    elim (Bool-cases (attackers == 0)) [
      | inl safe ↦ rw safe (refl, refl)
      | inr attacked ↦ elim (Bool-cases (has_zero_or_one_bit attackers)) [
        | inl few ↦ rw (attacked, few) (refl, refl)
        | inr many ↦ rw (attacked, many) (refl, refl)
      ]
    ]

holds : (c : Color) (cell : ℕ) → is_color c cell ≡ true → (cell == 0) ≡ false
holds white cell e = ground arith
holds black cell e = ground arith

module _ (z : Zobrist) (b : Board) (h : IsSynced z b) (c : Color) where
  -- A move in passing takes a piece if the passing pawn is coherent.
  abbrev IsCapture : Move → Type 0
  IsCapture m = (is_move_capture b m ≡ true) × (m.tag ≡ 0) × (KnownPassing b c → Takes b c m)

  -- A cell that the other side holds is not empty.
  enemy-IsCapture :
      (k : MoveKind) (s d : ℕ)
      → taken_at c k d ≡ d
      → test_bit (bb_color b (invert c)) d ≡ true
      → IsCapture (record { kind = k; src = s; dst = d; tag = 0 })
  unfolding is_move_capture
  enemy-IsCapture k s d at e =
      let held : is_color (invert c) (read b.cells d) ≡ true =
        ground (arith, e, color_bit z b h (invert c) d) in
      (
        ground (arith, held, holds (invert c) (read b.cells d)),
        refl,
        λ known. ap (λ i. is_color (invert c) (read b.cells i)) at ∙ held,
      )

  promoted-All :
      (p : Bool) (s d : ℕ)
      → test_bit (bb_color b (invert c)) d ≡ true
      → All IsCapture (add_pawn_with_promote p s d)
  unfolding add_pawn_with_promote
  promoted-All false s d e = (enemy-IsCapture simple s d refl e, tt)
  promoted-All true s d e = (
    enemy-IsCapture _ s d refl e,
    (
      enemy-IsCapture _ s d refl e,
      (enemy-IsCapture _ s d refl e, (enemy-IsCapture _ s d refl e, tt)),
    ),
  )

  pawns_taking-All :
      (p : Bool) (filter : GenFilter) (x : ℕ) → All IsCapture (do_gen_pawn_capture c p filter b x)
  unfolding do_gen_pawn_capture
  pawns_taking-All p filter x =
      let enemy_lt = color_lt z b h (invert c) in
      All-append IsCapture _ _
        (All-concat_map IsCapture _
          (λ dst. add_pawn_with_promote p (sub8 dst (pawn_left_delta c)) dst)
          (λ d q. promoted-All p (sub8 d (pawn_left_delta c)) d q.2) _
          (targets-All filter (advance_pawn_left c x) _ enemy_lt))
        (All-concat_map IsCapture _
          (λ dst. add_pawn_with_promote p (sub8 dst (pawn_right_delta c)) dst)
          (λ d q. promoted-All p (sub8 d (pawn_right_delta c)) d q.2) _
          (targets-All filter (advance_pawn_right c x) _ enemy_lt))

  passing-IsCapture :
      (b.enpassant_coord == invalid_coord) ≡ false
      → (s : ℕ) → IsCapture (record { kind = enpassant; src = s; dst = behind b c; tag = 0 })
  unfolding is_move_capture
  passing-IsCapture present s = (ground arith, refl, passing-Takes b c present)

  passing-All : All IsCapture (gen_pawn_enpassant c b)
  unfolding gen_pawn_enpassant
  passing-All = elim (Bool-cases (b.enpassant_coord == invalid_coord)) [
    | inl absent ↦ rw absent tt
    | inr present ↦
        let from_left : (not (coord_y b.enpassant_coord == 0)
                && read b.cells (sub8 b.enpassant_coord 1) == make_cell c pawn)
              ≡ true
            → IsCapture (record {
              kind = enpassant;
              src = sub8 b.enpassant_coord 1;
              dst = behind b c;
              tag = 0;
            }) =
          λ e. passing-IsCapture present _ in
        let from_right : (not (coord_y b.enpassant_coord == 7)
                && read b.cells (add8 b.enpassant_coord 1) == make_cell c pawn)
              ≡ true
            → IsCapture (record {
              kind = enpassant;
              src = add8 b.enpassant_coord 1;
              dst = behind b c;
              tag = 0;
            }) =
          λ e. passing-IsCapture present _ in
        rw present (
          All-append IsCapture _ _ (All-if_one IsCapture _ _ from_left)
            (All-if_one IsCapture _ _ from_right))
  ]

  steps-All :
      (attacks : ℕ → ℕ) (filter : GenFilter) (src : ℕ)
      → src < 2 ^ 64
      → All IsCapture (gen_steps attacks (get_allowed_mask c false true b) filter src)
  unfolding get_allowed_mask
  steps-All attacks filter src lt =
      gen_steps-All IsCapture attacks _ filter src (color_lt z b h (invert c)) lt
        λ s d s_lt d_lt from hit m. enemy-IsCapture simple s d refl m

  king-All : All IsCapture (gen_king c false true b)
  unfolding gen_king
  king-All = steps-All king_attacks simple_gen_filter _ (piece_lt z b h c king)

  module _ (t : MagicTables) where
    inner-All : (filter : GenFilter) → All IsCapture (gen_impl_inner t c false true false filter b)
    unfolding gen_impl_inner gen_pawn_capture gen_knight gen_bishop gen_rook bb_diag_pieces
        bb_line_pieces
    inner-All filter =
        let pawns =
          All-append IsCapture _ _
            (All-append IsCapture _ _ (pawns_taking-All false filter _)
              (pawns_taking-All true filter _))
            passing-All in
        let knights = steps-All knight_attacks filter _ (piece_lt z b h c knight) in
        let bishops =
          steps-All (bishop_attack_bitboard t b.bb_all) filter _ (pieces_lt z b h c bishop queen) in
        let rooks =
          steps-All (rook_attack_bitboard t b.bb_all) filter _ (pieces_lt z b h c rook queen) in
        All-append IsCapture _ _
          (All-append IsCapture _ _
            (All-append IsCapture _ _
              (All-append IsCapture _ _ (All-append IsCapture _ _ pawns king-All) knights) bishops)
            rooks)
          tt

    checked-All :
        (kind : CheckKind) (mask : ℕ) → All IsCapture (gen_checked t kind mask c false true false b)
    unfolding gen_checked
    checked-All none mask = inner-All simple_gen_filter
    checked-All single mask = inner-All (check_gen_filter mask)
    checked-All double mask = king-All

captures-All :
    (z : Zobrist) (t : MagicTables) (b : Board) (h : IsSynced z b)
    → All (IsCapture z b h b.side) (gen_captures t (new_move_gen t b))
unfolding gen_captures gen_impl
captures-All z t b h =
    let g = new_move_gen t b in
    let (same, side) = new_move_gen-board t b in
    rw (same, side) (checked-All z b h b.side t g.check g.check_mask)

-- In a position in sync, `isMoveCapture` holds of every move that `genCaptures` makes, and its tag is
-- 0.
pub gen_captures-All :
    (z : Zobrist) (t : MagicTables) (b : Board)
    → IsSynced z b
    → All (λ m. (is_move_capture b m ≡ true) × (m.tag ≡ 0)) (gen_captures t (new_move_gen t b))
gen_captures-All z t b h = All-map (λ m p. (p.0, p.1)) _ (captures-All z t b h)

-- In a position in sync and coherent, every move that `genCaptures` makes takes a piece of the other
-- side, which stands on the target, or behind it if the move takes in passing; `isMoveCapture` holds
-- of the move, and its tag is 0.
pub gen_captures-Taking :
    (z : Zobrist) (t : MagicTables) (b : Board)
    → IsSynced z b
    → IsCoherent b
    → All
        (λ m.
          (is_color (invert b.side) (read b.cells (taken_at b.side m.kind m.dst)) ≡ true)
          × (is_move_capture b m ≡ true)
          × (m.tag ≡ 0))
        (gen_captures t (new_move_gen t b))
gen_captures-Taking z t b h fine =
    All-map (λ m p. (p.2 fine.passing, p.0, p.1)) _ (captures-All z t b h)
