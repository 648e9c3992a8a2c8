-- ===== src/Core/MoveGen/Tests.antt =====
-- The moves of the first position.
use sofcheck.Common.{
  ℕ, ◌<◌, ◌≤◌, ◌≡◌, ◌∙◌, ◌⊎◌, inl, inr, refl, sym, true, not, ◌||◌, ◌==◌, read, write, arith, All,
  bit_and, for_below, all_to, all_to_sound, read_above, List, replicate,
}
use sofcheck.Core.Types.{Color, white, black, make_coord, coord_x, coord_to_bitboard, invert}
use sofcheck.Core.Board.{
  update, update_enpassant, update_castling_of, update_bitboards, compute_bitboards,
  add_to_bitboards, Board,
}
use sofcheck.Core.Initial.{initial_cells, set_initial_position, update-IsSynced, read-all_below}
use sofcheck.Core.Tests.{keys, blank, start, opening, start-IsSynced, opening-well_formed}
use sofcheck.Core.Synced.{IsSynced, is_color}
use sofcheck.Core.Validate.Updated.{update-IsCoherent}
use sofcheck.Core.Make.Applicable.{IsApplicable}
use sofcheck.Core.Attacks.{
  MagicTables, rook_attack_masked, rook_attack_bitboard, bishop_attack_masked,
  bishop_attack_bitboard,
}
use sofcheck.Core.Attacks.Masks.{masked_attacks_lem}
use sofcheck.Core.Coherent.{IsCoherent, HomeAt}
use sofcheck.Core.Coherent.Playable.{IsPlayable}
use sofcheck.Core.Coherent.Applicable.{IsPlayable-IsApplicable}
use sofcheck.Core.MoveGen.{is_cell_attacked, cell_attackers}
use sofcheck.Core.MoveGen.Valid.{is_move_valid, is_kind_valid, is_pawn_move_valid, must_be_empty}
use sofcheck.Core.MoveGen.Targets.{is_cell_attacked_lem}
use sofcheck.Core.MoveGen.Playable.{OneKing}
use sofcheck.Core.MoveGen.Gen.{gen_captures, new_move_gen, is_move_capture}
use sofcheck.Core.MoveGen.Captures.{gen_captures-Taking}
use sofcheck.Core.MoveGen.Taken.{taken_at}
use sofcheck.Core.MoveGen.Generated.{Generators, Generators-All}

abbrev pub tables : MagicTables
tables = record {
  rook_magics = λ c. 1;
  rook_shifts = λ c. 58;
  bishop_magics = λ c. 1;
  bishop_shifts = λ c. 58;
  rook_lookup = λ c i. 0xffff_ffff_ffff_ffff;
  bishop_lookup = λ c i. 0xffff_ffff_ffff_ffff;
}

start-home : (c : Color) → HomeAt c start.cells 7 × HomeAt c start.cells 0
unfolding set_initial_position update update_enpassant update_castling_of update_bitboards
    initial_cells read write for_below make_coord
start-home white = ((refl, refl), (refl, refl))
start-home black = ((refl, refl), (refl, refl))

start-passing : start.enpassant_coord ≡ 255
unfolding set_initial_position update update_enpassant update_castling_of update_bitboards
    initial_cells read write for_below make_coord
start-passing = refl

pub start-IsCoherent : IsCoherent start
start-IsCoherent = record {
  kingside = λ c flag. (start-home c).0;
  queenside = λ c flag. (start-home c).1;
  passing = inl start-passing;
}

king_cells : all_to 64 (λ i. not (read start.cells i == 2) || i == 60) ≡ true
unfolding set_initial_position update update_enpassant update_castling_of update_bitboards
    initial_cells read write for_below make_coord all_to
king_cells = refl

start-side : start.side ≡ white
unfolding set_initial_position update update_enpassant update_castling_of update_bitboards
    initial_cells read write for_below make_coord
start-side = refl

king_on_home : (i : ℕ) → read start.cells i ≡ 2 → i ≡ 60
king_on_home i e =
    let inside : (i < 64) ⊎ (64 ≤ i) = omega arith in
    elim inside [
      | inl lt ↦
          ground
            (arith, all_to_sound 64 (λ i. not (read start.cells i == 2) || i == 60) i king_cells lt)
      | inr le ↦
          absurd
            (ground (arith, read_above start.cells i (omega (arith, start-IsSynced.cells_valid.0))))
    ]

pub start-OneKing : OneKing start.side start.cells
start-OneKing = rw start-side (λ i j ei ej. king_on_home i ei ∙ sym (king_on_home j ej))

opening-IsPlayable : IsPlayable tables start opening
unfolding set_initial_position update update_enpassant update_castling_of update_bitboards
    compute_bitboards add_to_bitboards initial_cells read write for_below make_coord is_move_valid
    is_kind_valid is_pawn_move_valid must_be_empty coord_to_bitboard
opening-IsPlayable = record { formed = opening-well_formed; valid = refl }

Generators-All_example : Generators tables start (All (IsPlayable tables start))
Generators-All_example =
    Generators-All keys tables start start-IsSynced start-IsCoherent start-OneKing

IsPlayable-IsApplicable_example : IsApplicable start opening
IsPlayable-IsApplicable_example =
    IsPlayable-IsApplicable keys tables start start-IsSynced opening start-IsCoherent
      opening-IsPlayable

is_cell_attacked_lem_example :
    is_cell_attacked tables black start 40 ≡ not (cell_attackers tables black start 40 == 0)
is_cell_attacked_lem_example = is_cell_attacked_lem tables black start 40

masked_attacks_lem_example :
    (rook_attack_masked tables 5 0 6 ≡ bit_and (rook_attack_bitboard tables 5 0) 6)
    × (bishop_attack_masked tables 5 0 6 ≡ bit_and (bishop_attack_bitboard tables 5 0) 6)
masked_attacks_lem_example = masked_attacks_lem tables 5 0 6

-- White king on e1 and pawn on e5, black king on e8, knight on f6, and a pawn that has just come to
-- d5.
abbrev taking_cells : List ℕ
taking_cells = write (write (write (write (write (replicate 64 0) 60 2) 4 10) 28 1) 27 9) 21 11

abbrev taking : Board
taking = update keys (record blank { cells = taking_cells; side = white; enpassant_coord = 27 })

taking-IsSynced : IsSynced keys taking
unfolding write
taking-IsSynced =
    update-IsSynced keys (record blank { cells = taking_cells; side = white; enpassant_coord = 27 })
      (refl, read-all_below 15 taking_cells (omega arith) refl)

taking-IsCoherent : IsCoherent taking
unfolding coord_x
taking-IsCoherent =
    update-IsCoherent keys
      (record blank { cells = taking_cells; side = white; enpassant_coord = 27 }) (inr refl)

gen_captures-Taking_example :
    All
      (λ m.
        (is_color (invert taking.side) (read taking.cells (taken_at taking.side m.kind m.dst))
          ≡ true)
        × (is_move_capture taking m ≡ true)
        × (m.tag ≡ 0))
      (gen_captures tables (new_move_gen tables taking))
gen_captures-Taking_example =
    gen_captures-Taking keys tables taking taking-IsSynced taking-IsCoherent
