-- ===== src/Core/MoveGen/Quiets.antt =====
-- `genSimpleMovesNoPromote` makes moves to empty cells that promote nothing.
use sofcheck.Common.{
  ℕ, ◌^◌, ◌<◌, ◌≡◌, refl, Bool, true, false, ◌&&◌, ◌==◌, read, arith, All, All-append,
  if◌then◌else◌, All-if, All-concat_map, sub8, bit_and, bit_not, ◌<<<◌, [], ◌∷◌, u8, ◌*◌,
}
use sofcheck.Common.Bits.{test_bit, test_bit-not}
use sofcheck.Core.Types.{
  Color, white, black, king, knight, bishop, rook, queen, make_coord, empty_cell,
}
use sofcheck.Core.Geometry.{pawn_forward_delta, castling_row, castling_offset}
use sofcheck.Core.Zobrist.{Zobrist}
use sofcheck.Core.Board.{Board}
use sofcheck.Core.Move.{
  Move, MoveKind, simple, pawn_double_move, castling_kingside, castling_queenside,
  is_move_kind_promote, kind_code,
}
use sofcheck.Core.Synced.{IsSynced}
use sofcheck.Core.Coherent.{free_cell, free_of_mask}
use sofcheck.Core.Bitboard.{
  bb_castling_kingside_pass, bb_castling_queenside_pass, advance_pawn_forward,
}
use sofcheck.Core.Attacks.{
  MagicTables, king_attacks, knight_attacks, bishop_attack_bitboard, rook_attack_bitboard,
}
use sofcheck.Core.MoveGen.{bb_diag_pieces, bb_line_pieces}
use sofcheck.Core.MoveGen.Pawns.{
  GenFilter, simple_gen_filter, check_gen_filter, add_pawn_with_promote, do_gen_pawn_single,
  do_gen_pawn_double, gen_pawn_simple, no_promote,
}
use sofcheck.Core.MoveGen.Pieces.{
  get_allowed_mask, gen_steps, gen_king, gen_knight, gen_bishop, gen_rook, gen_castling,
  gen_castling_kingside, gen_castling_queenside,
}
use sofcheck.Core.MoveGen.Gen.{
  CheckKind, none, single, double, new_move_gen, gen_impl_inner, gen_checked, gen_impl,
  gen_simple_moves_no_promote, is_move_capture,
}
use sofcheck.Core.MoveGen.Targets.{
  targets-All, gen_steps-All, all_lt, bit_not_lt, piece_lt, pieces_lt,
}
use sofcheck.Core.MoveGen.Captures.{new_move_gen-board}

-- A move that takes nothing and promotes nothing, with the tag that the generators leave.
pub record IsQuiet (b : Board) (m : Move) : Type 0 where
  pub no_capture : is_move_capture b m ≡ false
  pub no_promotion : is_move_kind_promote m.kind ≡ false
  pub no_tag : m.tag ≡ 0

module _ (z : Zobrist) (b : Board) (h : IsSynced z b) where
  -- A cell that no piece is on is empty, so a move to it is quiet.
  free-IsQuiet :
      (k : MoveKind) (s d : ℕ)
      → (kind_code k == 3) ≡ false
      → is_move_kind_promote k ≡ false
      → read b.cells d ≡ empty_cell
      → IsQuiet b (record { kind = k; src = s; dst = d; tag = 0 })
  unfolding is_move_capture
  free-IsQuiet k s d other plain e = record {
    no_capture = ground arith;
    no_promotion = plain;
    no_tag = refl;
  }

  outside-IsQuiet :
      (k : MoveKind) (s d : ℕ)
      → (kind_code k == 3) ≡ false
      → is_move_kind_promote k ≡ false
      → d < 64
      → test_bit (bit_not b.bb_all) d ≡ true
      → IsQuiet b (record { kind = k; src = s; dst = d; tag = 0 })
  outside-IsQuiet k s d other plain lt e =
      free-IsQuiet k s d other plain
        (free_cell z b h d lt (ground (arith, test_bit-not d b.bb_all)))

  steps-All :
      (c : Color) (attacks : ℕ → ℕ) (filter : GenFilter) (src : ℕ)
      → src < 2 ^ 64
      → All (IsQuiet b) (gen_steps attacks (get_allowed_mask c true false b) filter src)
  unfolding get_allowed_mask is_move_kind_promote
  steps-All c attacks filter src lt =
      gen_steps-All (IsQuiet b) attacks _ filter src (bit_not_lt _ (all_lt z b h)) lt
        λ s d s_lt d_lt from hit m. outside-IsQuiet simple s d refl refl d_lt m

  module _ (c : Color) (filter : GenFilter) where
    single-All : (x : ℕ) → All (IsQuiet b) (do_gen_pawn_single c false filter b x)
    unfolding do_gen_pawn_single add_pawn_with_promote is_move_kind_promote
    single-All x =
        All-concat_map (IsQuiet b) _
          (λ dst. add_pawn_with_promote false (sub8 dst (pawn_forward_delta c)) dst)
          (λ d q. (outside-IsQuiet simple _ d refl refl q.0 q.2, tt)) _
          (targets-All filter (advance_pawn_forward c x) _ (bit_not_lt _ (all_lt z b h)))

    double-All : (x : ℕ) → All (IsQuiet b) (do_gen_pawn_double c filter b x)
    unfolding do_gen_pawn_double is_move_kind_promote
    double-All x =
        All-concat_map (IsQuiet b) _
          (λ dst.
            record {
              kind = pawn_double_move;
              src = sub8 dst (u8 (2 * pawn_forward_delta c));
              dst = dst;
              tag = 0;
            }
            ∷ [])
          (λ d q. (outside-IsQuiet pawn_double_move _ d refl refl q.0 q.2, tt)) _
          (targets-All filter (advance_pawn_forward c _) _ (bit_not_lt _ (all_lt z b h)))

    pawns-All : All (IsQuiet b) (gen_pawn_simple c no_promote filter b)
    unfolding gen_pawn_simple
    pawns-All =
        All-append (IsQuiet b) _ _ (All-append (IsQuiet b) _ _ (single-All _) (double-All _)) tt

  castling_cells :
      (c : Color)
      → (bit_and (bb_castling_kingside_pass <<< castling_offset c) b.bb_all == 0 ≡ true
          → read b.cells (make_coord (castling_row c) 6) ≡ empty_cell)
        × (bit_and (bb_castling_queenside_pass <<< castling_offset c) b.bb_all == 0 ≡ true
            → read b.cells (make_coord (castling_row c) 2) ≡ empty_cell)
  unfolding make_coord test_bit
  castling_cells white = (
    λ e. free_of_mask z b h (bb_castling_kingside_pass <<< 56) 62 e refl (omega arith),
    λ e. free_of_mask z b h (bb_castling_queenside_pass <<< 56) 58 e refl (omega arith),
  )
  castling_cells black = (
    λ e. free_of_mask z b h (bb_castling_kingside_pass <<< 0) 6 e refl (omega arith),
    λ e. free_of_mask z b h (bb_castling_queenside_pass <<< 0) 2 e refl (omega arith),
  )

  -- A castling that is made if its way is clear, among other tests.
  way-All :
      (k : MoveKind) (flag clear safe : Bool) (s d : ℕ)
      → (kind_code k == 3) ≡ false
      → is_move_kind_promote k ≡ false
      → (clear ≡ true → read b.cells d ≡ empty_cell)
      → All (IsQuiet b) (
          if flag && (clear && safe)
          then record { kind = k; src = s; dst = d; tag = 0 } ∷ []
          else [])
  way-All k true true true s d other plain free = (free-IsQuiet k s d other plain (free refl), tt)
  way-All k true true false s d other plain free = tt
  way-All k true false safe s d other plain free = tt
  way-All k false clear safe s d other plain free = tt

  module _ (t : MagicTables) (c : Color) where
    kingside-All : All (IsQuiet b) (gen_castling_kingside t c b)
    unfolding gen_castling_kingside is_move_kind_promote
    kingside-All = way-All castling_kingside _ _ _ _ _ refl refl (castling_cells c).0

    queenside-All : All (IsQuiet b) (gen_castling_queenside t c b)
    unfolding gen_castling_queenside is_move_kind_promote
    queenside-All = way-All castling_queenside _ _ _ _ _ refl refl (castling_cells c).1

    castling-All : All (IsQuiet b) (gen_castling t c b)
    unfolding gen_castling
    castling-All = All-append (IsQuiet b) (gen_castling_kingside t c b) _ kingside-All queenside-All

    steps_of_king : All (IsQuiet b) (gen_king c true false b)
    unfolding gen_king
    steps_of_king = steps-All c king_attacks simple_gen_filter _ (piece_lt z b h c king)

    inner-All :
        (filter : GenFilter) → All (IsQuiet b) (gen_impl_inner t c true false false filter b)
    unfolding gen_impl_inner gen_knight gen_bishop gen_rook bb_diag_pieces bb_line_pieces
    inner-All filter =
        let knights = steps-All c knight_attacks filter _ (piece_lt z b h c knight) in
        let bishops =
          steps-All c (bishop_attack_bitboard t b.bb_all) filter _
            (pieces_lt z b h c bishop queen) in
        let rooks =
          steps-All c (rook_attack_bitboard t b.bb_all) filter _ (pieces_lt z b h c rook queen) in
        All-append (IsQuiet b) _ _
          (All-append (IsQuiet b) _ _
            (All-append (IsQuiet b) _ _
              (All-append (IsQuiet b) _ _
                (All-append (IsQuiet b) _ _ (All-append (IsQuiet b) _ _ (pawns-All c filter) tt)
                  steps_of_king)
                knights)
              bishops)
            rooks)
          (All-if (IsQuiet b) _ _ λ e. castling-All)

    checked-All :
        (kind : CheckKind) (mask : ℕ)
        → All (IsQuiet b) (gen_checked t kind mask c true false false b)
    unfolding gen_checked
    checked-All none mask = inner-All simple_gen_filter
    checked-All single mask = inner-All (check_gen_filter mask)
    checked-All double mask = steps_of_king

-- In a position in sync, every move that `genSimpleMovesNoPromote` makes takes nothing and promotes
-- nothing, and its tag is 0.
pub gen_quiets-All :
    (z : Zobrist) (t : MagicTables) (b : Board)
    → IsSynced z b
    → All (IsQuiet b) (gen_simple_moves_no_promote t (new_move_gen t b))
unfolding gen_simple_moves_no_promote gen_impl
gen_quiets-All z t b h =
    let g = new_move_gen t b in
    let (same, side) = new_move_gen-board t b in
    rw (same, side) (checked-All z b h t b.side g.check g.check_mask)
