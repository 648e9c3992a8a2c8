-- ===== src/Search/Tests.antt =====
-- Concrete entries, tables and clocks of search/private.
use sofcheck.Common.{
  ◌+◌, ◌^◌, ◌≡◌, ◌↔◌, true, ◌||◌, ◌==◌, some, [], ◌∷◌, arith, length, ◌/◌, ◌-◌, ◌<◌, read, refl,
}
use sofcheck.Core.Move.{Move, simple}
use sofcheck.Core.Equality.{MoveFits}
use sofcheck.Search.Transposition.{Data, Entry, TranspositionTable, clear_entry, data_eq, data_ne}
use sofcheck.Search.Transposition.Packing.{DataFits, data_eq_iff, data_ne_iff}
use sofcheck.Search.Transposition.Resize.{at, shrunk}
use sofcheck.Search.Transposition.Resize.Size.{HasGreatestSize, new_table_size_lem}
use sofcheck.Search.Transposition.Resize.Shrink.{IsHeaviest, shrunk-IsHeaviest}
use sofcheck.Search.Killers.{
  add_all, latest, latest_other, add_all_lem, index_of, index_of_injective, tab_size,
}
use sofcheck.Search.Repetition.{new_repetition_table, has, has_in, find_cell, insert, erase}
use sofcheck.Search.Repetition.Undo.{HasRoom, with_board, insert_lem, erase-insert}
use sofcheck.Search.Limits.{TimeControl, HasSafeTime, calculate_max_time_lem}

abbrev knight_move : Move
knight_move = record { kind = simple; src = 62; dst = 45; tag = 5 }

abbrev entry_data : Data
entry_data = record { move_ = knight_move; score = 40; flags = 8; epoch = 1 }

entry_data-DataFits : DataFits entry_data
entry_data-DataFits = record {
  move_fits = record { src_lt = omega arith; dst_lt = omega arith; tag_lt = omega arith };
  score_lt = omega arith;
  flags_lt = omega arith;
  epoch_lt = omega arith;
}

abbrev full_entry : Entry
full_entry = record { value = entry_data; key = 12345 }

abbrev small_table : TranspositionTable
small_table = record { table = clear_entry ∷ full_entry ∷ clear_entry ∷ full_entry ∷ []; epoch = 2 }

data_eq_iff_example : (data_eq entry_data entry_data ≡ true) ↔ (entry_data ≡ entry_data)
data_eq_iff_example = data_eq_iff entry_data entry_data entry_data-DataFits entry_data-DataFits

data_ne_iff_example : (data_ne entry_data entry_data ≡ true) ↔ (entry_data ≡ entry_data)
data_ne_iff_example = data_ne_iff entry_data entry_data entry_data-DataFits entry_data-DataFits

new_table_size_lem_example : HasGreatestSize (2 ^ 25 + 77)
new_table_size_lem_example = new_table_size_lem (2 ^ 25 + 77) (omega arith)

shrunk-IsHeaviest_example :
    IsHeaviest 2 small_table.table 2
      (length small_table.table / 2 - 1)
      1
      (at (shrunk 2 small_table.table 2) 1)
shrunk-IsHeaviest_example = shrunk-IsHeaviest 2 small_table.table 2 1 (omega arith)

abbrev clock : TimeControl
clock = record { time = some 60_000; inc = 1000; moves_to_go = some 40 }

calculate_max_time_lem_example : HasSafeTime 12 clock
calculate_max_time_lem_example = calculate_max_time_lem 12 clock (omega arith)

knight_move-MoveFits : MoveFits knight_move
knight_move-MoveFits = entry_data-DataFits.move_fits

add_all_lem_example :
    ((add_all (knight_move ∷ [])).first ≡ latest (knight_move ∷ []))
    × ((add_all (knight_move ∷ [])).second
        ≡ latest_other (latest (knight_move ∷ [])) (knight_move ∷ []))
add_all_lem_example = add_all_lem (knight_move ∷ []) (knight_move-MoveFits, tt)

index_of_injective_example :
    (index_of knight_move < tab_size)
    × (index_of knight_move ≡ index_of knight_move
        → (knight_move.src ≡ knight_move.src) × (knight_move.dst ≡ knight_move.dst))
index_of_injective_example =
    index_of_injective knight_move knight_move (omega arith) (omega arith) (omega arith)
      (omega arith)

start_table-HasRoom : HasRoom new_repetition_table 777 8
unfolding has has_in find_cell read
start_table-HasRoom = record { absent = refl; first_empty = refl; inside = omega arith }

insert_lem_example :
    (insert 1 new_repetition_table 777 ≡ some (true, with_board new_repetition_table 777 8))
    × (has (with_board new_repetition_table 777 8) 777
        ≡ (has new_repetition_table 777 || 777 == 777))
insert_lem_example = insert_lem 0 new_repetition_table 777 8 777 start_table-HasRoom (omega arith)

erase-insert_example :
    (insert 1 new_repetition_table 777 ≡ some (true, with_board new_repetition_table 777 8))
    × (erase (with_board new_repetition_table 777 8) 777 ≡ new_repetition_table)
erase-insert_example = erase-insert 0 new_repetition_table 777 8 start_table-HasRoom
