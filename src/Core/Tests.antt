-- ===== src/Core/Tests.antt =====
-- Concrete positions and moves of core/.
use sofcheck.Common.{
  ℕ, List, true, ◌↔◌, ◌*◌, ◌%◌, ◌^◌, ◌≡◌, refl, read, write, replicate, arith, for_below,
}
use sofcheck.Core.Types.{black, coord_to_bitboard, make_coord, coord_x, coord_y}
use sofcheck.Core.Zobrist.{Zobrist, init_zobrist}
use sofcheck.Core.Board.{
  Board, update, update_enpassant, update_castling_of, update_bitboards, compute_bitboards,
  add_to_bitboards,
}
use sofcheck.Core.Move.{Move, pawn_double_move, is_well_formed, kind_well_formed, move_eq}
use sofcheck.Core.Equality.{MoveFits, move_eq_iff}
use sofcheck.Core.Draw.{is_board_draw_insufficient_material, bb_no_kings}
use sofcheck.Core.Draw.Shades.{IsInsufficient}
use sofcheck.Core.Draw.Exact.{draw_insufficient_material_lem}
use sofcheck.Util.Bit.{popcount}
use sofcheck.Core.Synced.{IsSynced}
use sofcheck.Core.Initial.{initial_cells, set_initial_position, update-IsSynced, read-all_below}
use sofcheck.Core.Text.{move_to_str, move_parse}
use sofcheck.Core.Text.Parse.{move_parse-move_to_str}
use sofcheck.Core.Make.{move_make, move_unmake}
use sofcheck.Core.Make.Applicable.{IsApplicable}
use sofcheck.Core.Make.Sums.{init_zobrist-KeysMade}
use sofcheck.Core.Make.Sync.{move_make-IsSynced}
use sofcheck.Core.Make.Unmake.{move_unmake-move_make}

abbrev pub keys : Zobrist
keys = init_zobrist (λ k. k * 7919 % 2 ^ 64)

abbrev pub blank : Board
blank = record {
  cells = replicate 64 0;
  unused = 0;
  side = black;
  castling = 0;
  enpassant_coord = 0;
  move_counter = 0;
  move_number = 0;
  hash = 0;
  bb_white = 0;
  bb_black = 0;
  bb_all = 0;
  bb_pieces = replicate 15 0;
}

abbrev pub start : Board
start = set_initial_position keys blank

-- e2e4.
abbrev pub opening : Move
opening = record { kind = pawn_double_move; src = 52; dst = 36; tag = 0 }

pub start-IsSynced : IsSynced keys start
unfolding set_initial_position write for_below make_coord
start-IsSynced = update-IsSynced keys _ (refl, read-all_below 15 initial_cells (omega arith) refl)

opening-IsApplicable : IsApplicable start opening
unfolding set_initial_position update update_enpassant update_castling_of update_bitboards
    initial_cells read write for_below make_coord
opening-IsApplicable = record {
  src_lt = omega arith;
  dst_lt = omega arith;
  src_ne_dst = omega arith;
  our_pawn = refl;
  free = refl;
}

move_make-IsSynced_example : IsSynced keys (move_make keys start opening).0
move_make-IsSynced_example =
    move_make-IsSynced keys (init_zobrist-KeysMade _) start opening start-IsSynced
      opening-IsApplicable

pub start-number : start.move_number ≡ 1
unfolding set_initial_position update update_enpassant update_castling_of update_bitboards
    initial_cells read write for_below make_coord
start-number = refl

move_unmake-move_make_example :
    move_unmake keys (move_make keys start opening).0 opening (move_make keys start opening).1
    ≡ start
move_unmake-move_make_example =
    move_unmake-move_make keys start opening start-IsSynced opening-IsApplicable
      (omega (arith, start-number))

update-IsSynced_example : IsSynced keys (update keys (record blank { cells = initial_cells }))
unfolding write for_below make_coord initial_cells
update-IsSynced_example =
    update-IsSynced keys (record blank { cells = initial_cells })
      (refl, read-all_below 15 initial_cells (omega arith) refl)

pub opening-well_formed : is_well_formed opening start.side ≡ true
unfolding set_initial_position update update_enpassant update_castling_of update_bitboards
    initial_cells read write for_below make_coord is_well_formed kind_well_formed coord_x coord_y
opening-well_formed = refl

move_parse-move_to_str_example : move_parse (move_to_str opening) start ≡ opening
move_parse-move_to_str_example =
    move_parse-move_to_str start opening opening-well_formed opening-IsApplicable
      (λ e. absurd (ground arith)) refl

opening-MoveFits : MoveFits opening
opening-MoveFits = record { src_lt = omega arith; dst_lt = omega arith; tag_lt = omega arith }

move_eq_iff_example : (move_eq opening opening ≡ true) ↔ (opening ≡ opening)
move_eq_iff_example = move_eq_iff opening opening opening-MoveFits opening-MoveFits

-- White king on e1, black king on e8, white knight on b1.
abbrev bare_cells : List ℕ
bare_cells = write (write (write (replicate 64 0) 60 2) 4 10) 57 3

abbrev bare : Board
bare = update keys (record blank { cells = bare_cells })

bare-IsSynced : IsSynced keys bare
unfolding write
bare-IsSynced =
    update-IsSynced keys (record blank { cells = bare_cells })
      (refl, read-all_below 15 bare_cells (omega arith) refl)

bare-draw : is_board_draw_insufficient_material bare ≡ true
unfolding is_board_draw_insufficient_material bb_no_kings popcount update update_enpassant
    update_castling_of update_bitboards compute_bitboards add_to_bitboards coord_to_bitboard read
    write for_below make_coord
bare-draw = refl

draw_insufficient_material_lem_example :
    (is_board_draw_insufficient_material bare ≡ true) ↔ IsInsufficient bare.cells
draw_insufficient_material_lem_example = draw_insufficient_material_lem keys bare bare-IsSynced
