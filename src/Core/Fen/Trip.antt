-- ===== src/Core/Fen/Trip.antt =====
-- `setFromFen` of what `asFen` prints.
use sofcheck.Common.{
  ℕ, ◌^◌, ◌<◌, ◌≡◌, ◌∙◌, sym, ap, refl, true, List, [], ◌∷◌, length, read, inl, inr,
}
use sofcheck.Core.Types.{is_cell_valid}
use sofcheck.Core.Zobrist.{Zobrist}
use sofcheck.Core.Board.{Board, update}
use sofcheck.Core.Fen.{side_text, castling_text, enpassant_text, then_space, as_fen}
use sofcheck.Core.Fen.Parse.{returns, ok, parse_end, set_from_fen}
use sofcheck.Core.Synced.{IsSynced}
use sofcheck.Core.Coherent.{IsCoherent}
use sofcheck.Core.Fen.Update.{bare, update-bare, update-same}
use sofcheck.Core.Fen.Cells.{parse_cells-rows_text}
use sofcheck.Core.Fen.Fields.{
  parse_side-side_text, consume_space-space, parse_castling-castling_text,
  parse_enpassant-enpassant_text, parse_number-to_chars, parse_number-last, OnRow,
}
use sofcheck.Util.Strutil.{Charconv, is_space, scan_token_end, scan_token_start}

-- A position that FEN can show: known cells, the four castling flags, and counters of 16 bits; the
-- unused field is zero.
pub record Printable (b : Board) : Type 0 where
  pub cells_valid : (i : ℕ) → is_cell_valid (read b.cells i) ≡ true
  pub no_unused : b.unused ≡ 0
  pub flags : b.castling < 16
  pub counter_lt : b.move_counter < 2 ^ 16
  pub number_lt : b.move_number < 2 ^ 16

-- The essential fields of one position with the other fields of another.
essence : Board → Board → Board
essence from b = record b {
  cells = from.cells;
  unused = 0;
  side = from.side;
  castling = from.castling;
  enpassant_coord = from.enpassant_coord;
  move_counter = from.move_counter;
  move_number = from.move_number;
}

stop : (rest : List ℕ) → scan_token_end (32 ∷ rest) ≡ ([], 32 ∷ rest)
unfolding scan_token_end is_space
stop rest = refl

module _ (z : Zobrist) (d : Charconv) where
  read_essence :
      (b₀ b : Board)
      → length b₀.cells ≡ 64
      → length b.cells ≡ 64
      → OnRow b.side b.enpassant_coord
      → Printable b
      → set_from_fen d z b₀ (as_fen d b) ≡ returns ok (update z (essence b b₀))
  unfolding set_from_fen as_fen essence parse_end scan_token_start
  read_essence b₀ b old new on_row h =
      let t₅ = d.to_chars b.move_number in
      let t₄ = then_space (d.to_chars b.move_counter) t₅ in
      let t₃ = then_space (enpassant_text b) t₄ in
      let t₂ = then_space (castling_text b) t₃ in
      let t₁ = then_space (side_text b.side) t₂ in
      let b₁ = record b₀ { unused = 0; cells = b.cells } in
      let b₂ = record b₁ { side = b.side } in
      let b₃ = record b₂ { castling = b.castling } in
      let b₄ = record b₃ { enpassant_coord = b.enpassant_coord } in
      let b₅ = record b₄ { move_counter = b.move_counter } in
      rw
        (
          parse_cells-rows_text (record b₀ { unused = 0 }) b.cells h.cells_valid b₀.cells t₁ old
              new,
          parse_side-side_text b₁ b.side (32 ∷ t₂),
          consume_space-space b₂ t₂,
          parse_castling-castling_text b₂ b t₃ h.flags,
          parse_enpassant-enpassant_text b₃ b (32 ∷ t₄) refl on_row,
          consume_space-space b₄ t₄,
          parse_number-to_chars d (λ n. record b₄ { move_counter = n }) b₄ b.move_counter (32 ∷ t₅)
              h.counter_lt (stop t₅),
          consume_space-space b₅ t₅,
          parse_number-last d (λ n. record b₅ { move_number = n }) b₅ b.move_number h.number_lt,
        )
        refl

  essence-update : (b₀ b : Board) → b.unused ≡ 0 → update z (essence b b₀) ≡ update z b
  unfolding essence bare
  essence-update b₀ b none =
      sym (update-bare z (essence b b₀))
      ∙ ap (λ n. update z (bare (record b { unused = n }))) (sym none)
      ∙ update-bare z b

  -- A position in sync and coherent that FEN can show comes back from the text that asFen prints,
  -- whatever 64 cells the board had before; the decimal numbers are those of `to_chars`.
  pub set_from_fen-as_fen :
      (b₀ b : Board)
      → length b₀.cells ≡ 64
      → IsSynced z b
      → IsCoherent b
      → Printable b
      → set_from_fen d z b₀ (as_fen d b) ≡ returns ok b
  set_from_fen-as_fen b₀ b old h c p =
      let on_row : OnRow b.side b.enpassant_coord = elim c.passing [
        | inl none ↦ inl none
        | inr there ↦ inr there.on_row
      ] in
      read_essence b₀ b old h.cells_valid.0 on_row p
      ∙ ap (returns ok) (essence-update b₀ b p.no_unused ∙ update-same z b h c p.flags)
