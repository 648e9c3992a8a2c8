-- ===== src/Core/MoveGen/Pawns.antt =====
-- core/movegen.cpp: the moves of pawns.
use sofcheck.Common.{
  ℕ, ◌*◌, Bool, true, false, ◌&&◌, not, ◌==◌, if◌then◌else◌, List, [], ◌∷◌, ◌++◌, bit_and, bit_not,
  read, concat_map, add8, sub8, u8,
}
use sofcheck.Core.Types.{Color, pawn, invert, make_cell, coord_y, invalid_coord}
use sofcheck.Core.Geometry.{
  promote_src_row, double_move_src_row, pawn_forward_delta, pawn_left_delta, pawn_right_delta,
}
use sofcheck.Core.Board.{Board, bb_color}
use sofcheck.Core.Move.{
  Move, simple, pawn_double_move, enpassant, promote_knight, promote_bishop, promote_rook,
  promote_queen,
}
use sofcheck.Core.Bitboard.{bb_row, advance_pawn_forward, advance_pawn_left, advance_pawn_right}
use sofcheck.Util.Bit.{bits_of}

pub data PromoteGenPolicy : Type 0 where
  all promote_only no_promote : PromoteGenPolicy

-- `SimpleGenFilter` and `CheckGenFilter`.
pub data GenFilter : Type 0 where
  simple_gen_filter : GenFilter
  check_gen_filter : ℕ → GenFilter

abbrev pub gen_castling_of : GenFilter → Bool
gen_castling_of simple_gen_filter = true
gen_castling_of (check_gen_filter mask) = false

unfoldable pub filter_dst : GenFilter → ℕ → ℕ
filter_dst simple_gen_filter bb_dst = bb_dst
filter_dst (check_gen_filter mask) bb_dst = bit_and bb_dst mask

unfoldable pub add_pawn_with_promote : Bool → ℕ → ℕ → List Move
add_pawn_with_promote true src dst =
    record { kind = promote_knight; src = src; dst = dst; tag = 0 }
    ∷ record { kind = promote_bishop; src = src; dst = dst; tag = 0 }
    ∷ record { kind = promote_rook; src = src; dst = dst; tag = 0 }
    ∷ record { kind = promote_queen; src = src; dst = dst; tag = 0 }
    ∷ []
add_pawn_with_promote false src dst = record { kind = simple; src = src; dst = dst; tag = 0 } ∷ []

unfoldable pub do_gen_pawn_single : Color → Bool → GenFilter → Board → ℕ → List Move
do_gen_pawn_single c is_promote filter b bb_pawns =
    let bb_pawn_dsts =
      filter_dst filter (bit_and (advance_pawn_forward c bb_pawns) (bit_not b.bb_all)) in
    concat_map (λ dst. add_pawn_with_promote is_promote (sub8 dst (pawn_forward_delta c)) dst)
      (bits_of bb_pawn_dsts)

unfoldable pub do_gen_pawn_double : Color → GenFilter → Board → ℕ → List Move
do_gen_pawn_double c filter b bb_pawns =
    let bb_pawn_tmps = bit_and (advance_pawn_forward c bb_pawns) (bit_not b.bb_all) in
    let bb_pawn_dsts =
      filter_dst filter (bit_and (advance_pawn_forward c bb_pawn_tmps) (bit_not b.bb_all)) in
    concat_map
      (λ dst.
        record {
          kind = pawn_double_move;
          src = sub8 dst (u8 (2 * pawn_forward_delta c));
          dst = dst;
          tag = 0;
        }
        ∷ [])
      (bits_of bb_pawn_dsts)

unfoldable pub do_gen_pawn_capture : Color → Bool → GenFilter → Board → ℕ → List Move
do_gen_pawn_capture c is_promote filter b bb_pawns =
    let bb_allowed = bb_color b (invert c) in
    let left = filter_dst filter (bit_and (advance_pawn_left c bb_pawns) bb_allowed) in
    let right = filter_dst filter (bit_and (advance_pawn_right c bb_pawns) bb_allowed) in
    concat_map (λ dst. add_pawn_with_promote is_promote (sub8 dst (pawn_left_delta c)) dst)
      (bits_of left)
    ++ concat_map (λ dst. add_pawn_with_promote is_promote (sub8 dst (pawn_right_delta c)) dst)
        (bits_of right)

abbrev with_simple : PromoteGenPolicy → Bool
with_simple all = true
with_simple no_promote = true
with_simple promote_only = false

abbrev with_promote : PromoteGenPolicy → Bool
with_promote all = true
with_promote promote_only = true
with_promote no_promote = false

unfoldable pub gen_pawn_simple : Color → PromoteGenPolicy → GenFilter → Board → List Move
gen_pawn_simple c p filter b =
    let bb_promote = read bb_row (promote_src_row c) in
    let bb_double = read bb_row (double_move_src_row c) in
    let bb_pawns = read b.bb_pieces (make_cell c pawn) in
    (if with_simple p
      then do_gen_pawn_single c false filter b (bit_and bb_pawns (bit_not bb_promote))
        ++ do_gen_pawn_double c filter b (bit_and bb_pawns bb_double)
      else [])
    ++ (if with_promote p
        then do_gen_pawn_single c true filter b (bit_and bb_pawns bb_promote)
        else [])

unfoldable pub gen_pawn_capture : Color → GenFilter → Board → List Move
gen_pawn_capture c filter b =
    let bb_promote = read bb_row (promote_src_row c) in
    let bb_pawns = read b.bb_pieces (make_cell c pawn) in
    do_gen_pawn_capture c false filter b (bit_and bb_pawns (bit_not bb_promote))
    ++ do_gen_pawn_capture c true filter b (bit_and bb_pawns bb_promote)

unfoldable pub gen_pawn_enpassant : Color → Board → List Move
gen_pawn_enpassant c b =
    let e = b.enpassant_coord in
    let y = coord_y e in
    let dst = add8 e (pawn_forward_delta c) in
    let left_pawn = sub8 e 1 in
    let right_pawn = add8 e 1 in
    if e == invalid_coord
    then []
    else (if not (y == 0) && read b.cells left_pawn == make_cell c pawn
        then record { kind = enpassant; src = left_pawn; dst = dst; tag = 0 } ∷ []
        else [])
      ++ (if not (y == 7) && read b.cells right_pawn == make_cell c pawn
          then record { kind = enpassant; src = right_pawn; dst = dst; tag = 0 } ∷ []
          else [])
