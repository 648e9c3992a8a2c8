-- ===== src/Core/MoveGen/Gen.antt =====
-- core/movegen.cpp and core/movegen.h: `MoveGen`, which chooses the generators by the check.
use sofcheck.Common.{
  ℕ, Bool, true, false, ◌&&◌, ◌||◌, not, ◌==◌, if◌then◌else◌, List, [], ◌++◌, bit_or, read,
}
use sofcheck.Core.Types.{Color, invert, empty_cell}
use sofcheck.Core.Board.{Board}
use sofcheck.Core.Move.{Move, kind_code}
use sofcheck.Core.Attacks.{MagicTables, between}
use sofcheck.Core.MoveGen.{king_pos, cell_attackers, bb_diag_pieces, bb_line_pieces}
use sofcheck.Core.MoveGen.Pawns.{
  all, promote_only, no_promote, GenFilter, simple_gen_filter, check_gen_filter, gen_castling_of,
  gen_pawn_simple, gen_pawn_capture, gen_pawn_enpassant,
}
use sofcheck.Core.MoveGen.Pieces.{gen_king, gen_knight, gen_bishop, gen_rook, gen_castling}
use sofcheck.Util.Bit.{has_zero_or_one_bit, get_lowest}

pub data CheckKind : Type 0 where
  none single double : CheckKind

pub record MoveGen : Type 0 where
  pub board : Board
  pub check_mask : ℕ
  pub check : CheckKind
  pub side : Color

unfoldable pub is_move_capture : Board → Move → Bool
is_move_capture b m = not (read b.cells m.dst == empty_cell) || kind_code m.kind == 3

module _ (t : MagicTables) where
  -- The constructor.
  unfoldable pub new_move_gen : Board → MoveGen
  new_move_gen b =
      let king = king_pos b b.side in
      let king_attackers = cell_attackers t (invert b.side) b king in
      let checker = get_lowest king_attackers in
      if king_attackers == 0
      then record { board = b; check_mask = 0; check = none; side = b.side }
      else if not (has_zero_or_one_bit king_attackers)
      then record { board = b; check_mask = 0; check = double; side = b.side }
      else record {
        board = b;
        check_mask = bit_or (between checker king) king_attackers;
        check = single;
        side = b.side;
      }

  unfoldable pub gen_impl_inner : Color → Bool → Bool → Bool → GenFilter → Board → List Move
  gen_impl_inner c gen_simple gen_captures gen_simple_promote filter b =
      (if gen_simple
        then gen_pawn_simple c (if gen_simple_promote then all else no_promote) filter b
        else [])
      ++ (if gen_captures then gen_pawn_capture c filter b ++ gen_pawn_enpassant c b else [])
      ++ gen_king c gen_simple gen_captures b
      ++ gen_knight c gen_simple gen_captures filter b
      ++ gen_bishop t c gen_simple gen_captures filter b (bb_diag_pieces c b)
      ++ gen_rook t c gen_simple gen_captures filter b (bb_line_pieces c b)
      ++ (if gen_simple && gen_castling_of filter then gen_castling t c b else [])

  unfoldable pub gen_checked : CheckKind → ℕ → Color → Bool → Bool → Bool → Board → List Move
  gen_checked none mask c gen_simple gen_captures gen_simple_promote b =
      gen_impl_inner c gen_simple gen_captures gen_simple_promote simple_gen_filter b
  gen_checked single mask c gen_simple gen_captures gen_simple_promote b =
      gen_impl_inner c gen_simple gen_captures gen_simple_promote (check_gen_filter mask) b
  gen_checked double mask c gen_simple gen_captures gen_simple_promote b =
      gen_king c gen_simple gen_captures b

  unfoldable pub gen_impl : MoveGen → Bool → Bool → Bool → List Move
  gen_impl g gen_simple gen_captures gen_simple_promote =
      gen_checked g.check g.check_mask g.side gen_simple gen_captures gen_simple_promote g.board

  unfoldable pub gen_promotes_checked : CheckKind → ℕ → Color → Board → List Move
  gen_promotes_checked none mask c b = gen_pawn_simple c promote_only simple_gen_filter b
  gen_promotes_checked single mask c b = gen_pawn_simple c promote_only (check_gen_filter mask) b
  gen_promotes_checked double mask c b = []

  unfoldable pub gen_captures : MoveGen → List Move
  gen_captures g = gen_impl g false true false

  unfoldable pub gen_all_moves : MoveGen → List Move
  gen_all_moves g = gen_impl g true true true

  unfoldable pub gen_simple_moves : MoveGen → List Move
  gen_simple_moves g = gen_impl g true false true

  unfoldable pub gen_simple_moves_no_promote : MoveGen → List Move
  gen_simple_moves_no_promote g = gen_impl g true false false

  unfoldable pub gen_simple_promotes : MoveGen → List Move
  gen_simple_promotes g = gen_promotes_checked g.check g.check_mask g.side g.board
