-- ===== src/Core/MoveGen/PawnMoves.antt =====
-- All that the generators of pawn moves make may be played.
use sofcheck.Common.{
  ℕ, ◌<◌, ◌^◌, ◌≡◌, refl, inl, inr, Bool, true, false, not, ◌==◌, ==_iff, xor, read, arith, bit_and,
  bit_not, sub8, All, All-append, All-concat_map, all_to, all_to_sound,
}
use sofcheck.Common.Bits.{
  test_bit, test_bit-not, test_bit_above, and_bit_left, and_bit_right, bit_and_lt,
}
use sofcheck.Core.Types.{Color, white, black, pawn, make_cell, invert, coord_x}
use sofcheck.Core.Geometry.{pawn_forward_delta, pawn_left_delta, pawn_right_delta, promote_src_row}
use sofcheck.Core.Bitboard.{
  bb_row, bb_col, advance_pawn_forward, advance_pawn_left, advance_pawn_right,
}
use sofcheck.Core.Bitboard.Shift.{
  advance_pawn_forward-src, advance_pawn_left-src, advance_pawn_right-src,
}
use sofcheck.Core.Zobrist.{Zobrist}
use sofcheck.Core.Board.{Board, bb_color}
use sofcheck.Core.Synced.{IsSynced}
use sofcheck.Core.Attacks.{MagicTables}
use sofcheck.Core.Coherent.{color_bit, piece_bit, free_cell}
use sofcheck.Core.Coherent.Playable.{IsPlayable}
use sofcheck.Core.MoveGen.Pawns.{
  GenFilter, add_pawn_with_promote, do_gen_pawn_single, do_gen_pawn_capture, gen_pawn_capture,
}
use sofcheck.Core.MoveGen.Targets.{targets-All, color_lt, all_lt, piece_lt, bit_not_lt}
use sofcheck.Core.MoveGen.PawnSteps.{
  PawnTo, PawnTo-All, forward_at, captures_at, forward_table, left_table, right_table,
}

abbrev pub row_at : ℕ → ℕ → Bool
row_at r i = not (xor (test_bit (read bb_row r) i) (coord_x i == r))

promote_row_table : (c : Color) → all_to 64 (row_at (promote_src_row c)) ≡ true
unfolding all_to read test_bit coord_x
promote_row_table white = refl
promote_row_table black = refl

-- The pawns of one generator: on the promotion row, or on the others.
abbrev pub PawnsOn : Board → Bool → ℕ → Type 0
PawnsOn b is_promote x =
    (x < 2 ^ 64)
    × ((i : ℕ)
        → i < 64
        → test_bit x i ≡ true
        → (read b.cells i ≡ make_cell b.side pawn)
          × ((coord_x i == promote_src_row b.side) ≡ is_promote))

module _ (z : Zobrist) (t : MagicTables) (b : Board) (h : IsSynced z b) (filter : GenFilter) where
  src_lt : (x i : ℕ) → x < 2 ^ 64 → test_bit x i ≡ true → i < 64
  src_lt x i lt e = ground (arith, test_bit_above 64 i x lt)

  single-PawnTo :
      (p : Bool) (x : ℕ)
      → PawnsOn b p x
      → (d : ℕ) → test_bit (advance_pawn_forward b.side x) d ≡ true
      → test_bit (bit_not b.bb_all) d ≡ true
      → PawnTo b.side b.cells p (sub8 d (pawn_forward_delta b.side)) d
  single-PawnTo p x on d came free =
      let (d_lt, was) = advance_pawn_forward-src b.side x d on.0 came in
      let s = sub8 d (pawn_forward_delta b.side) in
      let s_lt = src_lt x s on.0 was in
      let seen = all_to_sound 64 (forward_at b.side) d (forward_table b.side) d_lt in
      let (ours, row) = on.1 s s_lt was in
      record {
        src_lt = s_lt;
        dst_lt = d_lt;
        our_pawn = ours;
        from_row = row;
        formed = ground arith;
        lands =
            inl (ground arith, free_cell z b h d d_lt (ground (arith, test_bit-not d b.bb_all)));
      }

  pub do_gen_pawn_single-All :
      (p : Bool) (x : ℕ)
      → PawnsOn b p x
      → All (IsPlayable t b) (do_gen_pawn_single b.side p filter b x)
  unfolding do_gen_pawn_single
  do_gen_pawn_single-All p x on =
      All-concat_map (IsPlayable t b) _
        (λ dst. add_pawn_with_promote p (sub8 dst (pawn_forward_delta b.side)) dst)
        (λ d q.
          PawnTo-All t b (sub8 d (pawn_forward_delta b.side)) d p (single-PawnTo p x on d q.1 q.2))
        _
        (targets-All filter (advance_pawn_forward b.side x) (bit_not b.bb_all)
          (bit_not_lt _ (all_lt z b h)))

  capture-PawnTo :
      (delta column : ℕ)
      → all_to 64 (captures_at b.side delta column) ≡ true
      → (p : Bool) (x : ℕ) → PawnsOn b p x
      → (d : ℕ)
      → (d < 64) × (test_bit (bit_and x (bit_not (read bb_col column))) (sub8 d delta) ≡ true)
      → test_bit (bb_color b (invert b.side)) d ≡ true
      → PawnTo b.side b.cells p (sub8 d delta) d
  capture-PawnTo delta column table p x on d (d_lt, was) taken =
      let s = sub8 d delta in
      let here = and_bit_left x _ s was in
      let off_edge = and_bit_right x _ s was in
      let s_lt = src_lt x s on.0 here in
      let seen = all_to_sound 64 (captures_at b.side delta column) d table d_lt in
      let (ours, row) = on.1 s s_lt here in
      record {
        src_lt = s_lt;
        dst_lt = d_lt;
        our_pawn = ours;
        from_row = row;
        formed = ground arith;
        lands = inr (ground arith, ground (arith, color_bit z b h (invert b.side) d));
      }

  do_gen_pawn_capture-All :
      (p : Bool) (x : ℕ)
      → PawnsOn b p x
      → All (IsPlayable t b) (do_gen_pawn_capture b.side p filter b x)
  unfolding do_gen_pawn_capture
  do_gen_pawn_capture-All p x on =
      let enemy_lt = color_lt z b h (invert b.side) in
      All-append (IsPlayable t b) _ _
        (All-concat_map (IsPlayable t b) _
          (λ dst. add_pawn_with_promote p (sub8 dst (pawn_left_delta b.side)) dst)
          (λ d q. PawnTo-All t b (sub8 d (pawn_left_delta b.side)) d p (
            capture-PawnTo (pawn_left_delta b.side) 0 (left_table b.side) p x on d
              (advance_pawn_left-src b.side x d on.0 q.1) q.2))
          _ (targets-All filter (advance_pawn_left b.side x) _ enemy_lt))
        (All-concat_map (IsPlayable t b) _
          (λ dst. add_pawn_with_promote p (sub8 dst (pawn_right_delta b.side)) dst)
          (λ d q. PawnTo-All t b (sub8 d (pawn_right_delta b.side)) d p (
            capture-PawnTo (pawn_right_delta b.side) 7 (right_table b.side) p x on d
              (advance_pawn_right-src b.side x d on.0 q.1) q.2))
          _ (targets-All filter (advance_pawn_right b.side x) _ enemy_lt))

  abbrev pub pawns : ℕ
  pawns = read b.bb_pieces (make_cell b.side pawn)

  pawns_on :
      (p : Bool) (m : ℕ)
      → ((i : ℕ) → i < 64 → test_bit m i ≡ true → (coord_x i == promote_src_row b.side) ≡ p)
      → PawnsOn b p (bit_and pawns m)
  pawns_on p m row = (
    bit_and_lt 64 pawns m (piece_lt z b h b.side pawn),
    λ i lt e. (
      (==_iff _ _).0 (ground (arith, and_bit_left pawns m i e, piece_bit z b h b.side pawn i)),
      row i lt (and_bit_right pawns m i e),
    ),
  )

  pub on_promote : PawnsOn b true (bit_and pawns (read bb_row (promote_src_row b.side)))
  on_promote = pawns_on true _ λ i lt e.
      ground
        (arith, all_to_sound 64 (row_at (promote_src_row b.side)) i (promote_row_table b.side) lt)

  pub off_promote : PawnsOn b false (bit_and pawns (bit_not (read bb_row (promote_src_row b.side))))
  off_promote = pawns_on false _ λ i lt e. ground (
    arith,
    test_bit-not i (read bb_row (promote_src_row b.side)),
    all_to_sound 64 (row_at (promote_src_row b.side)) i (promote_row_table b.side) lt,
  )

  pub gen_pawn_capture-All : All (IsPlayable t b) (gen_pawn_capture b.side filter b)
  unfolding gen_pawn_capture
  gen_pawn_capture-All =
      All-append (IsPlayable t b) _ _ (do_gen_pawn_capture-All false _ off_promote)
        (do_gen_pawn_capture-All true _ on_promote)
