-- ===== src/Core/MoveGen/PawnSpecial.antt =====
-- Double steps that the generators make may be played, and all the moves of pawns to empty cells.
use sofcheck.Common.{
  ℕ, ◌*◌, ◌<◌, ◌^◌, ◌≡◌, refl, subst, Bool, true, false, ◌&&◌, ◌||◌, not, ltb, ◌==◌, ==_iff, read,
  arith, bit_and, bit_or, bit_not, sub8, u8, All, All-append, All-concat_map, [], ◌∷◌, ◌++◌, all_to,
  all_to_sound,
}
use sofcheck.Common.Bits.{
  test_bit, test_bit_ext, bit_laws, bit_and_comm, test_bit-not, test_bit_above, and_bit_left,
  and_bit_right, bit_and_lt,
}
use sofcheck.Core.Types.{Color, white, black, pawn, make_cell, coord_x, coord_y, coord_to_bitboard}
use sofcheck.Core.Geometry.{pawn_forward_delta, promote_src_row, double_move_src_row}
use sofcheck.Core.Bitboard.{bb_row, advance_pawn_forward}
use sofcheck.Core.Bitboard.Shift.{advance_pawn_forward-src}
use sofcheck.Core.Zobrist.{Zobrist}
use sofcheck.Core.Board.{Board}
use sofcheck.Core.Move.{pawn_double_move}
use sofcheck.Core.Synced.{IsSynced, test_bit-coord}
use sofcheck.Core.Attacks.{MagicTables}
use sofcheck.Core.Coherent.{piece_bit}
use sofcheck.Core.Coherent.Playable.{IsPlayable}
use sofcheck.Core.MoveGen.Pawns.{
  GenFilter, PromoteGenPolicy, all, promote_only, no_promote, do_gen_pawn_single,
  do_gen_pawn_double, gen_pawn_simple,
}
use sofcheck.Core.MoveGen.Valid.{is_kind_valid, is_pawn_move_valid, must_be_empty}
use sofcheck.Core.MoveGen.Targets.{targets-All, all_lt, piece_lt, bit_not_lt}
use sofcheck.Core.MoveGen.PawnSteps.{IsPlayable-intro}
use sofcheck.Core.MoveGen.PawnMoves.{row_at, on_promote, off_promote, do_gen_pawn_single-All}
use sofcheck.Core.Move.{kind_well_formed}

double_row_table : (c : Color) → all_to 64 (row_at (double_move_src_row c)) ≡ true
unfolding all_to read test_bit coord_x
double_row_table white = refl
double_row_table black = refl

-- A double step as the generator makes it, from the cell that it reaches.
unfoldable double_at : Color → ℕ → Bool
double_at c d =
    let mid = sub8 d (pawn_forward_delta c) in
    let s = sub8 mid (pawn_forward_delta c) in
    not (ltb mid 64)
    || not (ltb s 64)
    || not (coord_x s == double_move_src_row c)
    || (s == sub8 d (u8 (2 * pawn_forward_delta c))
        && not (s == d)
        && kind_well_formed c pawn_double_move s d
        && must_be_empty c s == bit_or (coord_to_bitboard mid) (coord_to_bitboard d))

double_table : (c : Color) → all_to 64 (double_at c) ≡ true
unfolding all_to double_at coord_x coord_y kind_well_formed must_be_empty coord_to_bitboard
double_table white = refl
double_table black = refl

two_free :
    (x i k : ℕ)
    → test_bit x i ≡ false
    → test_bit x k ≡ false
    → bit_and x (bit_or (coord_to_bitboard i) (coord_to_bitboard k)) ≡ 0
two_free x i k hi hk =
    test_bit_ext _ 0 λ j. simp bit_laws (ground (arith, test_bit-coord i j, test_bit-coord k j))

module _ (z : Zobrist) (t : MagicTables) (b : Board) (h : IsSynced z b) where
  module _ (filter : GenFilter) where
    double-IsPlayable :
        (x d : ℕ)
        → x < 2 ^ 64
        → ((i : ℕ)
            → i < 64
            → test_bit x i ≡ true
            → (read b.cells i ≡ make_cell b.side pawn)
              × ((coord_x i == double_move_src_row b.side) ≡ true))
        → test_bit
            (advance_pawn_forward b.side
              (bit_and (advance_pawn_forward b.side x) (bit_not b.bb_all)))
            d
          ≡ true
        → test_bit (bit_not b.bb_all) d ≡ true
        → IsPlayable t b (record {
          kind = pawn_double_move;
          src = sub8 d (u8 (2 * pawn_forward_delta b.side));
          dst = d;
          tag = 0;
        })
    unfolding double_at is_kind_valid is_pawn_move_valid
    double-IsPlayable x d x_lt on came free =
        let tmp = bit_and (advance_pawn_forward b.side x) (bit_not b.bb_all) in
        let tmp_lt : tmp < 2 ^ 64 =
          rw (bit_and_comm (advance_pawn_forward b.side x) (bit_not b.bb_all))
            (bit_and_lt 64 _ _ (bit_not_lt _ (all_lt z b h))) in
        let (d_lt, tmp_set) = advance_pawn_forward-src b.side tmp d tmp_lt came in
        let mid = sub8 d (pawn_forward_delta b.side) in
        let mid_free =
          and_bit_right (advance_pawn_forward b.side x) (bit_not b.bb_all) mid tmp_set in
        let (mid_lt, x_set) =
          advance_pawn_forward-src b.side x mid x_lt
            (and_bit_left _ (bit_not b.bb_all) mid tmp_set) in
        let s = sub8 mid (pawn_forward_delta b.side) in
        let s_lt : s < 64 = ground (arith, test_bit_above 64 s x x_lt) in
        let (ours, row) = on s s_lt x_set in
        let seen = all_to_sound 64 (double_at b.side) d (double_table b.side) d_lt in
        let same : s ≡ sub8 d (u8 (2 * pawn_forward_delta b.side)) = ground arith in
        let empty : must_be_empty b.side s ≡ bit_or (coord_to_bitboard mid) (coord_to_bitboard d) =
          ground arith in
        let nothing =
          two_free b.bb_all mid d (ground (arith, test_bit-not mid b.bb_all))
            (ground (arith, test_bit-not d b.bb_all)) in
        subst (λ s. IsPlayable t b (record { kind = pawn_double_move; src = s; dst = d; tag = 0 }))
          same
          (IsPlayable-intro t b pawn_double_move s d s_lt d_lt (λ e. ground arith) (ground arith)
            (ground (arith, ours, empty, nothing)))

    abbrev double_pawns : ℕ
    double_pawns =
        bit_and (read b.bb_pieces (make_cell b.side pawn))
          (read bb_row (double_move_src_row b.side))

    double_pawns_lem :
        (i : ℕ)
        → i < 64
        → test_bit double_pawns i ≡ true
        → (read b.cells i ≡ make_cell b.side pawn)
          × ((coord_x i == double_move_src_row b.side) ≡ true)
    double_pawns_lem i lt e =
        let here = and_bit_left (read b.bb_pieces (make_cell b.side pawn)) _ i e in
        let on_row = and_bit_right (read b.bb_pieces (make_cell b.side pawn)) _ i e in
        (
          (==_iff _ _).0 (ground (arith, here, piece_bit z b h b.side pawn i)),
          ground (
            arith,
            on_row,
            all_to_sound 64 (row_at (double_move_src_row b.side)) i (double_row_table b.side) lt,
          ),
        )

    do_gen_pawn_double-All : All (IsPlayable t b) (do_gen_pawn_double b.side filter b double_pawns)
    unfolding do_gen_pawn_double
    do_gen_pawn_double-All =
        let x_lt = bit_and_lt 64 _ _ (piece_lt z b h b.side pawn) in
        All-concat_map (IsPlayable t b) _
          (λ dst.
            record {
              kind = pawn_double_move;
              src = sub8 dst (u8 (2 * pawn_forward_delta b.side));
              dst = dst;
              tag = 0;
            }
            ∷ [])
          (λ d q. (double-IsPlayable double_pawns d x_lt double_pawns_lem q.1 q.2, tt)) _
          (targets-All filter
            (advance_pawn_forward b.side
              (bit_and (advance_pawn_forward b.side double_pawns) (bit_not b.bb_all)))
            (bit_not b.bb_all) (bit_not_lt _ (all_lt z b h)))

    without_promotes : All (IsPlayable t b) (
        do_gen_pawn_single b.side false filter b (
          bit_and
            (read b.bb_pieces (make_cell b.side pawn))
            (bit_not (read bb_row (promote_src_row b.side))))
        ++ do_gen_pawn_double b.side filter b double_pawns)
    without_promotes =
        All-append (IsPlayable t b) _ _
          (do_gen_pawn_single-All z t b h filter false _ (off_promote z t b h filter))
          do_gen_pawn_double-All

    with_promotes : All (IsPlayable t b) (
        do_gen_pawn_single b.side true filter b (
          bit_and
            (read b.bb_pieces (make_cell b.side pawn))
            (read bb_row (promote_src_row b.side))))
    with_promotes = do_gen_pawn_single-All z t b h filter true _ (on_promote z t b h filter)

    pub gen_pawn_simple-All :
        (p : PromoteGenPolicy) → All (IsPlayable t b) (gen_pawn_simple b.side p filter b)
    unfolding gen_pawn_simple
    gen_pawn_simple-All all = All-append (IsPlayable t b) _ _ without_promotes with_promotes
    gen_pawn_simple-All promote_only = with_promotes
    gen_pawn_simple-All no_promote = All-append (IsPlayable t b) _ _ without_promotes tt
