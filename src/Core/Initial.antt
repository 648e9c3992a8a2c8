-- ===== src/Core/Initial.antt =====
-- core/board.cpp: `Board::update` makes any position one in sync, and `setInitialPosition`.
use sofcheck.Common.{
  ℕ, zero, suc, ◌<◌, ◌≡◌, Bool, true, ◌&&◌, ltb, List, [], ◌∷◌, read, write, replicate, for_below,
  arith,
}
use sofcheck.Core.Types.{
  Color, white, black, pawn, king, knight, bishop, rook, queen, make_cell, make_coord, castling_all,
  invalid_coord,
}
use sofcheck.Core.Zobrist.{Zobrist}
use sofcheck.Core.Board.{
  Board, update, update_enpassant, update_castling_of, clear_castling, clear_queenside_castling,
  clear_kingside_castling,
}
use sofcheck.Core.Synced.{CellsValid, IsSynced, refresh, refresh-IsSynced}

-- `clearCastling()` and `setAllCastling()`.
abbrev pub clear_all_castling : Board → Board
clear_all_castling b = record b { castling = 0 }

abbrev pub set_all_castling : Board → Board
set_all_castling b = record b { castling = castling_all }

abbrev put : Color → ℕ → List ℕ → List ℕ
put c x cells =
    write
      (write
        (write
          (write
            (write
              (write
                (write (write cells (make_coord x 0) (make_cell c rook)) (make_coord x 1)
                  (make_cell c knight))
                (make_coord x 2) (make_cell c bishop))
              (make_coord x 3) (make_cell c queen))
            (make_coord x 4) (make_cell c king))
          (make_coord x 5) (make_cell c bishop))
        (make_coord x 6) (make_cell c knight))
      (make_coord x 7) (make_cell c rook)

abbrev put_pawns : Color → ℕ → List ℕ → List ℕ
put_pawns c x = for_below 8 (λ i cells. write cells (make_coord x i) (make_cell c pawn))

-- The cells that `setInitialPosition` writes.
unfoldable pub initial_cells : List ℕ
initial_cells = put white 7 (put_pawns white 6 (put black 0 (put_pawns black 1 (replicate 64 0))))

module _ (z : Zobrist) where
  unfoldable pub set_initial_position : Board → Board
  unfolding initial_cells
  set_initial_position b₀ =
      let b₁ = set_all_castling (record b₀ { cells = initial_cells }) in
      update z (record b₁ {
        side = white;
        enpassant_coord = invalid_coord;
        move_counter = 0;
        move_number = 1;
        unused = 0;
      })

  fixed-fields :
      (b : Board)
      → ((update_castling_of (update_castling_of (update_enpassant b) white) black).cells ≡ b.cells)
  unfolding update_castling_of update_enpassant clear_castling clear_queenside_castling
      clear_kingside_castling
  fixed-fields b = ground arith

  -- Whatever its other fields, a position of 64 valid cells is in sync after `update`.
  pub update-IsSynced : (b : Board) → CellsValid b.cells → IsSynced z (update z b)
  unfolding update refresh
  update-IsSynced b valid =
      refresh-IsSynced z (update_castling_of (update_castling_of (update_enpassant b) white) black)
        (rw (fixed-fields b) valid)

abbrev pub all_below : ℕ → List ℕ → Bool
all_below n [] = true
all_below n (x ∷ xs) = ltb x n && all_below n xs

-- A test of every cell decides that each of them is valid.
pub read-all_below : (n : ℕ) (xs : List ℕ) → 0 < n → all_below n xs ≡ true → (i : ℕ) → read xs i < n
unfolding read
read-all_below n [] pos e i = pos
read-all_below n (x ∷ xs) pos e zero = ground arith
read-all_below n (x ∷ xs) pos e (suc i) = read-all_below n xs pos (ground arith) i
