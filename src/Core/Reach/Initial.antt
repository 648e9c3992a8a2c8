-- ===== src/Core/Reach/Initial.antt =====
-- The first position of a game is one that play may start from.
use sofcheck.Common.{
  ℕ, ◌<◌, ◌≤◌, ◌≡◌, ◌⊎◌, inl, inr, refl, sym, ◌∙◌, Bool, true, not, ◌||◌, ◌==◌, read, write, arith,
  for_below, all_to, all_to_sound, read_above, length, List, [], ◌∷◌, ◌++◌,
}
use sofcheck.Core.Types.{Color, white, black, king, make_cell, make_coord}
use sofcheck.Core.Zobrist.{Zobrist}
use sofcheck.Core.Board.{
  Board, is_any_castling, is_kingside_castling, is_queenside_castling, update, update_enpassant,
  update_castling_of, update_bitboards,
}
use sofcheck.Core.Initial.{initial_cells, set_initial_position, update-IsSynced, read-all_below}
use sofcheck.Core.Synced.{IsSynced}
use sofcheck.Core.Coherent.{HomeAt}
use sofcheck.Core.MoveGen.Playable.{OneKing}
use sofcheck.Util.Strutil.{Charconv}
use sofcheck.Core.Text.{cell_to_char}
use sofcheck.Core.Fen.{
  as_fen, rows_text, row_text, empty_digit, side_text, castling_text, enpassant_text,
}
use sofcheck.Core.Reach.Play.{InPlay}

abbrev king_cell : Color → ℕ
king_cell white = 60
king_cell black = 4

initial_homes : (c : Color) → HomeAt c initial_cells 7 × HomeAt c initial_cells 0
unfolding initial_cells read write for_below make_coord
initial_homes white = ((refl, refl), (refl, refl))
initial_homes black = ((refl, refl), (refl, refl))

abbrev only_king : Color → ℕ → Bool
only_king c i = not (read initial_cells i == make_cell c king) || i == king_cell c

initial_kings : (c : Color) → all_to 64 (only_king c) ≡ true
unfolding initial_cells read write for_below make_coord all_to
initial_kings white = refl
initial_kings black = refl

initial_size : length initial_cells ≡ 64
unfolding initial_cells write for_below make_coord
initial_size = refl

king_found : (c : Color) (i : ℕ) → read initial_cells i ≡ make_cell c king → i ≡ king_cell c
king_found c i e =
    let inside : (i < 64) ⊎ (64 ≤ i) = omega arith in
    elim inside [
      | inl lt ↦ ground (arith, all_to_sound 64 (only_king c) i (initial_kings c) lt)
      | inr le ↦ absurd (omega (arith, e, read_above initial_cells i (omega (arith, initial_size))))
    ]

initial-OneKing : (c : Color) → OneKing c initial_cells
initial-OneKing c i j ei ej = king_found c i ei ∙ sym (king_found c j ej)

-- "rnbqkbnr/pppppppp/8/8/8/8/PPPPPPPP/RNBQKBNR w KQkq - ".
abbrev pub initial_text : List ℕ
initial_text =
    114 ∷ 110 ∷ 98 ∷ 113 ∷ 107 ∷ 98 ∷ 110 ∷ 114 ∷ 47 ∷ 112 ∷ 112 ∷ 112 ∷ 112 ∷ 112 ∷ 112 ∷ 112 ∷ 112
    ∷ 47 ∷ 56 ∷ 47 ∷ 56 ∷ 47 ∷ 56 ∷ 47 ∷ 56 ∷ 47 ∷ 80 ∷ 80 ∷ 80 ∷ 80 ∷ 80 ∷ 80 ∷ 80 ∷ 80 ∷ 47 ∷ 82
    ∷ 78 ∷ 66 ∷ 81 ∷ 75 ∷ 66 ∷ 78 ∷ 82 ∷ 32 ∷ 119 ∷ 32 ∷ 75 ∷ 81 ∷ 107 ∷ 113 ∷ 32 ∷ 45 ∷ 32 ∷ []

module _ (z : Zobrist) (b : Board) where
  initial-fields :
      let t = set_initial_position z b in (t.cells ≡ initial_cells) × (t.enpassant_coord ≡ 255)
  unfolding set_initial_position update update_enpassant update_castling_of update_bitboards
      initial_cells read write for_below make_coord
  initial-fields = (refl, refl)

  initial-IsSynced : IsSynced z (set_initial_position z b)
  unfolding set_initial_position write for_below make_coord
  initial-IsSynced = update-IsSynced z _ (refl, read-all_below 15 initial_cells (omega arith) refl)

  -- The position is one that play may start from.
  pub set_initial_position-InPlay : InPlay z (set_initial_position z b)
  set_initial_position-InPlay =
      let (cells, passing) = initial-fields in
      record {
        synced = initial-IsSynced;
        coherent = record {
          kingside = λ c set. rw cells (initial_homes c).0;
          queenside = λ c set. rw cells (initial_homes c).1;
          passing = inl passing;
        };
        one_king = λ c. rw cells (initial-OneKing c);
      }

  initial-as_fen :
      (d : Charconv)
      → as_fen d (set_initial_position z b) ≡ initial_text ++ (d.to_chars 0 ++ (32 ∷ d.to_chars 1))
  unfolding set_initial_position update update_enpassant update_castling_of update_bitboards
      initial_cells read write for_below make_coord as_fen rows_text row_text empty_digit side_text
      castling_text enpassant_text cell_to_char is_any_castling is_kingside_castling
      is_queenside_castling
  initial-as_fen d = refl

  initial_unused : (set_initial_position z b).unused ≡ 0
  unfolding set_initial_position update update_enpassant update_castling_of update_bitboards
      initial_cells read write for_below make_coord
  initial_unused = refl

  -- Whatever the position was before, the one that `setInitialPosition` makes is printed by `asFen`
  -- as "rnbqkbnr/pppppppp/8/8/8/8/PPPPPPPP/RNBQKBNR w KQkq - 0 1", with the two counters as
  -- `std::to_chars` prints them, its unused field is 0, and it is in sync, coherent and with one king
  -- of each colour at most.
  pub set_initial_position_lem :
      (d : Charconv)
      → (as_fen d (set_initial_position z b)
          ≡ initial_text ++ (d.to_chars 0 ++ (32 ∷ d.to_chars 1)))
        × ((set_initial_position z b).unused ≡ 0)
        × InPlay z (set_initial_position z b)
  set_initial_position_lem d = (initial-as_fen d, initial_unused, set_initial_position-InPlay)
