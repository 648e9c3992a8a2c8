-- ===== src/Core/Fen/Accepted.antt =====
-- Every text that `setFromFen` accepts gives a position that may be played.
use sofcheck.Common.{
  ℕ, ◌<◌, ◌≡◌, ◌∙◌, refl, Bool, true, false, if◌then◌else◌, List, [], ◌∷◌, ◌==◌, read, arith,
}
use sofcheck.Common.Bits.{bit_and_lt}
use sofcheck.Core.Types.{
  Color, white, black, is_cell_valid, make_coord, make_cell, king, rook, castling_not,
  castling_queenside, castling_kingside,
}
use sofcheck.Core.Geometry.{castling_row}
use sofcheck.Core.Zobrist.{Zobrist}
use sofcheck.Core.Board.{
  Board, update, update_enpassant, update_castling_of, update_bitboards, clear_castling,
  clear_queenside_castling, clear_kingside_castling, without_castling,
}
use sofcheck.Core.Synced.{IsSynced}
use sofcheck.Core.Coherent.{IsCoherent}
use sofcheck.Core.Initial.{update-IsSynced}
use sofcheck.Core.Validate.Updated.{update-IsCoherent}
use sofcheck.Core.Fen.Parse.{returns, redundant_data, ok, Scan, parse_end, set_from_fen}
use sofcheck.Core.Fen.Trip.{Printable}
use sofcheck.Core.Fen.Accepts.{GoodCells, ScanFits}
use sofcheck.Core.Fen.Stages.{
  Ends, ended, Goes-bind, Ends-bind, HasCells, HasPassing, HasCounter, HasNumber, parse_cells-Goes,
  parse_side-Goes, consume_space-Goes, parse_castling-Goes, parse_enpassant-Goes, parse_number-Goes,
}
use sofcheck.Util.Strutil.{Charconv, scan_token_start}

if_flags :
    (t : Bool) (a b : Board)
    → a.castling < 16
    → b.castling < 16
    → (if t then a else b).castling < 16
if_flags true a b ha hb = ha
if_flags false a b ha hb = hb

update_castling_of-flags :
    (b : Board) (c : Color) → b.castling < 16 → (update_castling_of b c).castling < 16
unfolding update_castling_of clear_castling clear_queenside_castling clear_kingside_castling
    without_castling
update_castling_of-flags b c lt =
    let x = castling_row c in
    let t₁ = read b.cells (make_coord x 4) == make_cell c king in
    let b₁ = if t₁ then b else clear_castling b c in
    let h₁ = if_flags t₁ b (clear_castling b c) lt (bit_and_lt 4 b.castling _ lt) in
    let t₂ = read b₁.cells (make_coord x 0) == make_cell c rook in
    let c₂ = clear_queenside_castling b₁ c in
    let b₂ = if t₂ then b₁ else c₂ in
    let h₂ =
      if_flags t₂ b₁ c₂ h₁ (bit_and_lt 4 b₁.castling (castling_not (castling_queenside c)) h₁) in
    let t₃ = read b₂.cells (make_coord x 7) == make_cell c rook in
    if_flags t₃ b₂ (clear_kingside_castling b₂ c) h₂
      (bit_and_lt 4 b₂.castling (castling_not (castling_kingside c)) h₂)

update_enpassant-flags : (b : Board) → (update_enpassant b).castling ≡ b.castling
unfolding update_enpassant
update_enpassant-flags b = ground arith

update-flags : (z : Zobrist) (b : Board) → b.castling < 16 → (update z b).castling < 16
unfolding update update_bitboards
update-flags z b lt =
    update_castling_of-flags _ black
      (update_castling_of-flags _ white (omega (arith, update_enpassant-flags b)))

update-fields :
    (z : Zobrist) (b : Board)
    → let u = update z b in
      (u.cells ≡ b.cells)
      × (u.unused ≡ b.unused)
      × (u.move_counter ≡ b.move_counter)
      × (u.move_number ≡ b.move_number)
unfolding update update_bitboards update_castling_of update_enpassant clear_castling
    clear_queenside_castling clear_kingside_castling
update-fields z b = ground arith

valid_lt : (v : ℕ) → is_cell_valid v ≡ true → v < 15
unfolding is_cell_valid
valid_lt v h = ground arith

-- The position is in sync and coherent, and FEN can show it.
pub record Accepted (z : Zobrist) (b : Board) : Type 0 where
  pub synced : IsSynced z b
  pub coherent : IsCoherent b
  pub printable : Printable b

module _ (z : Zobrist) (d : Charconv) where
  update-Accepted : (b : Board) → HasNumber b → Accepted z (update z b)
  update-Accepted b (((((good, none_unused), flags), row), counter), number) =
      let (cells, unused, same_counter, same_number) = update-fields z b in
      record {
        synced = update-IsSynced z b (good.size, λ i. valid_lt _ (good.known i));
        coherent = update-IsCoherent z b row;
        printable = record {
          cells_valid = rw cells good.known;
          no_unused = unused ∙ none_unused;
          flags = update-flags z b flags;
          counter_lt = omega (arith, same_counter, counter);
          number_lt = omega (arith, same_number, number);
        };
      }

  parse_end-Ends : (b : Board) (fen : List ℕ) → HasNumber b → Ends (Accepted z) (parse_end z b fen)
  unfolding parse_end
  parse_end-Ends b fen h = go (scan_token_start fen)
    where
      go :
          (rest : List ℕ)
          → Ends
              (Accepted z)
              (elim rest [ [] ↦ returns ok (update z b) | c ∷ more ↦ returns redundant_data b ])
      go [] = ended λ e. update-Accepted b h
      go (c ∷ more) = ended λ e. absurd (ground arith)

  -- Whatever the text, setFromFen returns and its assertion holds; and if it returns Ok, the position
  -- is in sync and coherent and one that FEN can show.
  pub set_from_fen-Ends :
      (b₀ : Board) (fen : List ℕ) → GoodCells b₀.cells → Ends (Accepted z) (set_from_fen d z b₀ fen)
  unfolding set_from_fen
  set_from_fen-Ends b₀ fen good =
      let b : Board = record b₀ { unused = 0 } in
      let s : Scan = record { x = 0; y = 0; cur = 0; cells = b.cells } in
      let fits : ScanFits s = record {
        next_cell = omega arith;
        in_row = omega arith;
        row_lt = omega arith;
        cells_good = good;
      } in
      let cells = parse_cells-Goes b s fen refl fits in
      let side = Goes-bind cells parse_side-Goes in
      let space₁ = Goes-bind side (consume_space-Goes HasCells) in
      let castling = Goes-bind space₁ parse_castling-Goes in
      let passing = Goes-bind castling parse_enpassant-Goes in
      let space₂ = Goes-bind passing (consume_space-Goes HasPassing) in
      let counter = Goes-bind space₂ λ b fen h.
        parse_number-Goes d HasCounter (λ n. record b { move_counter = n }) b fen λ n lt. (h, lt) in
      let space₃ = Goes-bind counter (consume_space-Goes HasCounter) in
      let number = Goes-bind space₃ λ b fen h.
        parse_number-Goes d HasNumber (λ n. record b { move_number = n }) b fen λ n lt. (h, lt) in
      Ends-bind number parse_end-Ends
