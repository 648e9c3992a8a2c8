-- ===== src/Core/Attacks.antt =====
-- core/private/magic.h, core/private/between.h and the generators gen/core/near_attacks.cpp and
-- gen/core/between_consts.cpp: the attacks of each piece, from tables.
pub mod Masks
use sofcheck.Common.{
  ◌*◌, ℕ, zero, suc, ◌+◌, ◌-◌, Bool, ◌&&◌, not, ltb, ◌==◌, if◌then◌else◌, List, [], ◌∷◌, bit_and,
  bit_or, bit_not, u64, ◌>>>◌, add8, read,
}
use sofcheck.Core.Types.{
  Color, white, black, coord_x, coord_y, coord_diag1, coord_diag2, make_coord, coord_to_bitboard,
}
use sofcheck.Core.Bitboard.{
  bb_diag1, bb_diag2, bb_row, bb_col, build_magic_rook_mask, build_magic_rook_post_mask,
  build_magic_bishop_mask, build_magic_bishop_post_mask,
}

-- The loop over the directions, from the coordinates of the cell.
unfoldable pub directed : List ℕ → List ℕ → ℕ → ℕ → ℕ → ℕ
directed (dx ∷ off_x) (dy ∷ off_y) x y bb =
    let nx = add8 x dx in
    let ny = add8 y dy in
    directed off_x off_y x y
      (if ltb nx 8 && ltb ny 8 then bit_or bb (coord_to_bitboard (make_coord nx ny)) else bb)
directed _ _ x y bb = bb

-- An entry of the table that `generateDirected` makes; the offsets are 8-bit patterns.
unfoldable pub generate_directed : List ℕ → List ℕ → ℕ → ℕ
generate_directed off_x off_y c = directed off_x off_y (coord_x c) (coord_y c) 0

unfoldable pub knight_attacks : ℕ → ℕ
knight_attacks =
    generate_directed (254 ∷ 254 ∷ 255 ∷ 255 ∷ 2 ∷ 2 ∷ 1 ∷ 1 ∷ [])
      (255 ∷ 1 ∷ 254 ∷ 2 ∷ 255 ∷ 1 ∷ 254 ∷ 2 ∷ [])

unfoldable pub king_attacks : ℕ → ℕ
king_attacks =
    generate_directed (255 ∷ 255 ∷ 255 ∷ 0 ∷ 0 ∷ 1 ∷ 1 ∷ 1 ∷ [])
      (255 ∷ 0 ∷ 1 ∷ 255 ∷ 1 ∷ 255 ∷ 0 ∷ 1 ∷ [])

-- `WHITE_PAWN_ATTACKS` and `BLACK_PAWN_ATTACKS`.
unfoldable pub pawn_attacks : Color → ℕ → ℕ
pawn_attacks white = generate_directed (255 ∷ 255 ∷ []) (255 ∷ 1 ∷ [])
pawn_attacks black = generate_directed (1 ∷ 1 ∷ []) (255 ∷ 1 ∷ [])

unfoldable pub lt_mask : ℕ → ℕ
lt_mask c = coord_to_bitboard c - 1

unfoldable pub gt_mask : ℕ → ℕ
gt_mask c = bit_not (bit_or (lt_mask c) (coord_to_bitboard c))

unfoldable pub gen_bishop_between : (ℕ → ℕ) → ℕ → ℕ
gen_bishop_between mask c =
    bit_and (bit_or (read bb_diag1 (coord_diag1 c)) (read bb_diag2 (coord_diag2 c))) (mask c)

unfoldable pub gen_rook_between : (ℕ → ℕ) → ℕ → ℕ
gen_rook_between mask c =
    bit_and (bit_or (read bb_row (coord_x c)) (read bb_col (coord_y c))) (mask c)

-- `between` once the cells are in order.
unfoldable pub between_ordered : ℕ → ℕ → ℕ
between_ordered src dst =
    let bb_dst = coord_to_bitboard dst in
    let bishop_gt = gen_bishop_between gt_mask src in
    let rook_gt = gen_rook_between gt_mask src in
    if not (bit_and bishop_gt bb_dst == 0)
    then bit_and bishop_gt (gen_bishop_between lt_mask dst)
    else if not (bit_and rook_gt bb_dst == 0)
    then bit_and rook_gt (gen_rook_between lt_mask dst)
    else 0

unfoldable pub between : ℕ → ℕ → ℕ
between src dst = if ltb dst src then between_ordered dst src else between_ordered src dst

-- `lookup` is the cell's part of the table that the entries share.
pub record MagicEntry : Type 0 where
  pub lookup : ℕ → ℕ
  pub mask : ℕ
  pub post_mask : ℕ

-- The generated constants, and the contents of the shared tables.
pub record MagicTables : Type 0 where
  pub rook_magics : ℕ → ℕ
  pub rook_shifts : ℕ → ℕ
  pub bishop_magics : ℕ → ℕ
  pub bishop_shifts : ℕ → ℕ
  pub rook_lookup : ℕ → ℕ → ℕ
  pub bishop_lookup : ℕ → ℕ → ℕ

unfoldable pub do_attack_bitboard : (ℕ → ℕ) → (ℕ → ℕ) → ℕ → ℕ → MagicEntry → ℕ
do_attack_bitboard magics shifts occupied pos entry =
    let idx = u64 (bit_and occupied entry.mask * magics pos) >>> shifts pos in
    bit_and (entry.lookup idx) entry.post_mask

-- `entry.postMask &= postMask; if (!entry.postMask) return 0;`
unfoldable pub masked_attack_bitboard : (ℕ → ℕ) → (ℕ → ℕ) → ℕ → ℕ → ℕ → MagicEntry → ℕ
masked_attack_bitboard magics shifts occupied pos post_mask entry =
    let narrowed = bit_and entry.post_mask post_mask in
    let attack =
      do_attack_bitboard magics shifts occupied pos (record entry { post_mask = narrowed }) in
    if narrowed == 0 then 0 else attack

module _ (t : MagicTables) where
  -- The entries that `initMagic` makes.
  unfoldable pub magic_rook : ℕ → MagicEntry
  magic_rook c = record {
    lookup = t.rook_lookup c;
    mask = build_magic_rook_mask c;
    post_mask = build_magic_rook_post_mask c;
  }

  unfoldable pub magic_bishop : ℕ → MagicEntry
  magic_bishop c = record {
    lookup = t.bishop_lookup c;
    mask = build_magic_bishop_mask c;
    post_mask = build_magic_bishop_post_mask c;
  }

  unfoldable pub rook_attack_bitboard : ℕ → ℕ → ℕ
  rook_attack_bitboard occupied pos =
      do_attack_bitboard t.rook_magics t.rook_shifts occupied pos (magic_rook pos)

  unfoldable pub rook_attack_masked : ℕ → ℕ → ℕ → ℕ
  rook_attack_masked occupied pos post_mask =
      masked_attack_bitboard t.rook_magics t.rook_shifts occupied pos post_mask (magic_rook pos)

  unfoldable pub bishop_attack_bitboard : ℕ → ℕ → ℕ
  bishop_attack_bitboard occupied pos =
      do_attack_bitboard t.bishop_magics t.bishop_shifts occupied pos (magic_bishop pos)

  unfoldable pub bishop_attack_masked : ℕ → ℕ → ℕ → ℕ
  bishop_attack_masked occupied pos post_mask =
      masked_attack_bitboard t.bishop_magics t.bishop_shifts occupied pos post_mask
        (magic_bishop pos)
