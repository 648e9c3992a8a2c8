-- ===== src/Core/Draw.antt =====
-- core/board.cpp: `isBoardDrawInsufficientMaterial`.
pub mod Shades
pub mod Exact
use sofcheck.Common.{
  ℕ, ltb, ◌<◌, ◌≡◌, ap, Bool, true, false, ◌&&◌, not, ◌==◌, if◌then◌else◌, bit_and, bit_or, bit_xor,
  read, ◌||◌, arith, inl, inr, ◌⊎◌,
}
use sofcheck.Common.Bits.{test_bit, test_bit-zero, test_bit-xor, test_bit-or}
use sofcheck.Util.Bit.{popcount}
use sofcheck.Core.Types.{white, black, king, knight, bishop, make_cell}
use sofcheck.Core.Zobrist.{Zobrist}
use sofcheck.Core.Board.{Board}
use sofcheck.Core.Synced.{IsSynced}

abbrev pub bb_cells_white : ℕ
bb_cells_white = 0xaa55aa55aa55aa55

abbrev pub bb_cells_black : ℕ
bb_cells_black = 0x55aa55aa55aa55aa

-- The pieces of a kind, of both colours.
abbrev pub both : Board → ℕ → ℕ → ℕ
both b p q = bit_or (read b.bb_pieces p) (read b.bb_pieces q)

unfoldable pub bb_no_kings : Board → ℕ
bb_no_kings b = bit_xor b.bb_all (both b (make_cell white king) (make_cell black king))

unfoldable pub is_board_draw_insufficient_material : Board → Bool
is_board_draw_insufficient_material b =
    let no_kings = bb_no_kings b in
    let knights = both b (make_cell white knight) (make_cell black knight) in
    let bishops = both b (make_cell white bishop) (make_cell black bishop) in
    if not (bit_and no_kings bb_cells_white == 0) && not (bit_and no_kings bb_cells_black == 0)
    then false
    else if no_kings == 0
    then true
    else if no_kings == knights && popcount knights == 1
    then true
    else no_kings == bishops

-- The bits of a cell in the bitboard without the kings, and in those of two pieces.
module _ (z : Zobrist) (b : Board) (h : IsSynced z b) (i : ℕ) where
  pub no_kings-bit : test_bit (bb_no_kings b) i ≡ (
      ltb i 64
      && not (read b.cells i == 0)
      && not (read b.cells i == 2)
      && not (read b.cells i == 10))
  unfolding bb_no_kings
  no_kings-bit = ground (
    arith,
    test_bit-xor i b.bb_all (both b 2 10),
    ap (λ x. test_bit x i) h.all_pieces,
    test_bit-or i b.bb_white b.bb_black,
    test_bit-or i (read b.bb_pieces 2) (read b.bb_pieces 10),
    h.boards.by_white i,
    h.boards.by_black i,
    h.boards.by_piece 2 (omega arith) (omega arith) i,
    h.boards.by_piece 10 (omega arith) (omega arith) i,
  )

  pub both-bit :
      (p q : ℕ)
      → 0 < p
      → p < 15
      → 0 < q
      → q < 15
      → test_bit (both b p q) i ≡ (ltb i 64 && (read b.cells i == p || read b.cells i == q))
  both-bit p q hp hp' hq hq' = ground (
    arith,
    test_bit-or i (read b.bb_pieces p) (read b.bb_pieces q),
    h.boards.by_piece p hp hp' i,
    h.boards.by_piece q hq hq' i,
  )
