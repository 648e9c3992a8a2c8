-- ===== src/Core/MoveGen/PawnSteps.antt =====
-- The moves of pawns that the generators make pass `isWellFormed` and `isMoveValid`.
use sofcheck.Common.{
  ℕ, ◌<◌, ◌≡◌, ◌≢◌, ◌∙◌, ◌⊎◌, refl, Bool, true, false, ◌&&◌, ◌||◌, not, ltb, ◌==◌, read, List,
  arith, bit_and, bit_not, add8, sub8, All, all_to,
}
use sofcheck.Common.Bits.{test_bit, common_bit}
use sofcheck.Core.Types.{
  Color, white, black, pawn, make_cell, invert, coord_x, coord_y, coord_to_bitboard, make_coord,
  empty_cell,
}
use sofcheck.Core.Geometry.{pawn_forward_delta, pawn_left_delta, pawn_right_delta, promote_src_row}
use sofcheck.Core.Bitboard.{bb_col}
use sofcheck.Core.Board.{Board}
use sofcheck.Core.Move.{
  MoveKind, simple, promote_knight, promote_bishop, promote_rook, promote_queen, is_well_formed,
  kind_well_formed, is_move_kind_promote, kind_code,
}
use sofcheck.Core.Synced.{is_color, test_bit-coord}
use sofcheck.Core.Attacks.{MagicTables, pawn_attacks, generate_directed, directed}
use sofcheck.Core.Coherent.Playable.{IsPlayable, valid_step}
use sofcheck.Core.MoveGen.Pawns.{add_pawn_with_promote}
use sofcheck.Core.MoveGen.Valid.{is_move_valid, is_kind_valid, is_pawn_move_valid}

-- The geometry of a pawn's step, as a test.
unfoldable pub step_formed : Color → ℕ → ℕ → Bool
step_formed c s d =
    not (s == d) && (not (coord_x s == promote_src_row c) || kind_well_formed c promote_knight s d)

abbrev pub forward_at : Color → ℕ → Bool
forward_at c d =
    let s = sub8 d (pawn_forward_delta c) in
    not (ltb s 64) || (d == add8 s (pawn_forward_delta c) && step_formed c s d)

abbrev pub captures_at : Color → ℕ → ℕ → ℕ → Bool
captures_at c delta column d =
    let s = sub8 d delta in
    not (ltb s 64)
    || not (test_bit (bit_not (read bb_col column)) s)
    || (test_bit (pawn_attacks c s) d && step_formed c s d)

pub forward_table : (c : Color) → all_to 64 (forward_at c) ≡ true
unfolding all_to step_formed kind_well_formed coord_x coord_y
forward_table white = refl
forward_table black = refl

pub left_table : (c : Color) → all_to 64 (captures_at c (pawn_left_delta c) 0) ≡ true
unfolding all_to step_formed kind_well_formed coord_x coord_y pawn_attacks generate_directed
    directed test_bit bit_not read coord_to_bitboard make_coord
left_table white = refl
left_table black = refl

pub right_table : (c : Color) → all_to 64 (captures_at c (pawn_right_delta c) 7) ≡ true
unfolding all_to step_formed kind_well_formed coord_x coord_y pawn_attacks generate_directed
    directed test_bit bit_not read coord_to_bitboard make_coord
right_table white = refl
right_table black = refl

-- A pawn's step or capture, and whether it promotes.
pub record PawnTo (c : Color) (cells : List ℕ) (is_promote : Bool) (s d : ℕ) : Type 0 where
  pub src_lt : s < 64
  pub dst_lt : d < 64
  pub our_pawn : read cells s ≡ make_cell c pawn
  pub from_row : (coord_x s == promote_src_row c) ≡ is_promote
  pub formed : step_formed c s d ≡ true
  pub lands :
      ((d ≡ add8 s (pawn_forward_delta c)) × (read cells d ≡ empty_cell))
      ⊎ ((test_bit (pawn_attacks c s) d ≡ true) × (is_color (invert c) (read cells d) ≡ true))

pub meets : (m d : ℕ) → test_bit m d ≡ true → (bit_and m (coord_to_bitboard d) == 0) ≡ false
meets m d h = common_bit m (coord_to_bitboard d) d h (test_bit-coord d d ∙ ground arith)

module _ (t : MagicTables) (b : Board) (is_promote : Bool) (s d : ℕ) where
  pawn_step-valid :
      (c : Color) (k : MoveKind)
      → PawnTo c b.cells is_promote s d
      → (kind_code k == 2) ≡ false
      → (kind_code k == 3) ≡ false
      → is_move_kind_promote k ≡ is_promote
      → is_pawn_move_valid c b k s d ≡ true
  unfolding is_pawn_move_valid
  pawn_step-valid white k h n₁ n₂ e =
      ground (arith, h.from_row, h.lands, meets (pawn_attacks white s) d)
  pawn_step-valid black k h n₁ n₂ e =
      ground (arith, h.from_row, h.lands, meets (pawn_attacks black s) d)

pub IsPlayable-intro :
    (t : MagicTables) (b : Board) (k : MoveKind) (s d : ℕ)
    → s < 64
    → d < 64
    → s ≢ d
    → kind_well_formed b.side k s d ≡ true
    → is_kind_valid t b.side b k s d ≡ true
    → IsPlayable t b (record { kind = k; src = s; dst = d; tag = 0 })
unfolding is_well_formed is_move_valid
IsPlayable-intro t b k s d s_lt d_lt ne f v = record { formed = ground arith; valid = v }

module _ (t : MagicTables) (b : Board) (s d : ℕ) where
  promotes :
      (k : MoveKind)
      → is_move_kind_promote k ≡ true
      → kind_well_formed b.side k s d ≡ kind_well_formed b.side promote_knight s d
      → is_kind_valid t b.side b k s d ≡ valid_step t b s d b.side k
      → PawnTo b.side b.cells true s d
      → IsPlayable t b (record { kind = k; src = s; dst = d; tag = 0 })
  unfolding step_formed is_move_kind_promote
  promotes k p same_form same_test h =
      let formed : kind_well_formed b.side promote_knight s d ≡ true =
        ground (arith, h.from_row, h.formed) in
      let valid =
        pawn_step-valid t b true s d b.side k h (ground (arith, p)) (ground (arith, p)) p in
      IsPlayable-intro t b k s d h.src_lt h.dst_lt (λ e. ground (arith, h.formed))
        (same_form ∙ formed) (same_test ∙ ground (arith, h.our_pawn, valid))

  pub PawnTo-All :
      (is_promote : Bool)
      → PawnTo b.side b.cells is_promote s d
      → All (IsPlayable t b) (add_pawn_with_promote is_promote s d)
  unfolding add_pawn_with_promote is_move_kind_promote step_formed is_kind_valid kind_well_formed
  PawnTo-All false h =
      let valid = pawn_step-valid t b false s d b.side simple h refl refl refl in
      (
        IsPlayable-intro t b simple s d h.src_lt h.dst_lt (λ e. ground (arith, h.formed)) refl
            (ground (arith, h.our_pawn)),
        tt,
      )
  PawnTo-All true h = (
    promotes promote_knight refl refl refl h,
    (
      promotes promote_bishop refl refl refl h,
      (promotes promote_rook refl refl refl h, (promotes promote_queen refl refl refl h, tt)),
    ),
  )
