-- ===== src/Core/MoveGen/Pieces.antt =====
-- core/movegen.cpp: the moves of the other pieces.
use sofcheck.Common.{
  ℕ, Bool, true, false, ◌&&◌, not, ◌==◌, if◌then◌else◌, List, [], ◌∷◌, ◌++◌, bit_and, bit_not,
  ◌<<<◌, read, concat_map,
}
use sofcheck.Core.Types.{Color, king, knight, invert, make_cell, make_coord}
use sofcheck.Core.Geometry.{castling_row, castling_offset}
use sofcheck.Core.Board.{Board, bb_color, is_kingside_castling, is_queenside_castling}
use sofcheck.Core.Move.{Move, simple, castling_kingside, castling_queenside}
use sofcheck.Core.Bitboard.{bb_castling_kingside_pass, bb_castling_queenside_pass}
use sofcheck.Core.Attacks.{
  MagicTables, knight_attacks, king_attacks, bishop_attack_bitboard, rook_attack_bitboard,
}
use sofcheck.Core.MoveGen.{is_cell_attacked}
use sofcheck.Core.MoveGen.Pawns.{GenFilter, simple_gen_filter, filter_dst}
use sofcheck.Util.Bit.{bits_of}

-- `GenSimple` and `GenCaptures`; they are not both false.
unfoldable pub get_allowed_mask : Color → Bool → Bool → Board → ℕ
get_allowed_mask c true true b = bit_not (bb_color b c)
get_allowed_mask c true false b = bit_not b.bb_all
get_allowed_mask c false _ b = bb_color b (invert c)

-- The two loops of a generator of simple moves: over the sources, and over what is attacked.
unfoldable pub gen_steps : (ℕ → ℕ) → ℕ → GenFilter → ℕ → List Move
gen_steps attacks bb_allowed filter bb_src =
    concat_map
      (λ src.
        concat_map (λ dst. record { kind = simple; src = src; dst = dst; tag = 0 } ∷ [])
          (bits_of (filter_dst filter (bit_and (attacks src) bb_allowed))))
      (bits_of bb_src)

unfoldable pub gen_knight : Color → Bool → Bool → GenFilter → Board → List Move
gen_knight c gen_simple gen_captures filter b =
    gen_steps knight_attacks (get_allowed_mask c gen_simple gen_captures b) filter
      (read b.bb_pieces (make_cell c knight))

unfoldable pub gen_king : Color → Bool → Bool → Board → List Move
gen_king c gen_simple gen_captures b =
    gen_steps king_attacks (get_allowed_mask c gen_simple gen_captures b) simple_gen_filter
      (read b.bb_pieces (make_cell c king))

module _ (t : MagicTables) where
  unfoldable pub gen_bishop : Color → Bool → Bool → GenFilter → Board → ℕ → List Move
  gen_bishop c gen_simple gen_captures filter b bb_src =
      gen_steps (bishop_attack_bitboard t b.bb_all) (get_allowed_mask c gen_simple gen_captures b)
        filter bb_src

  unfoldable pub gen_rook : Color → Bool → Bool → GenFilter → Board → ℕ → List Move
  gen_rook c gen_simple gen_captures filter b bb_src =
      gen_steps (rook_attack_bitboard t b.bb_all) (get_allowed_mask c gen_simple gen_captures b)
        filter bb_src

  unfoldable pub gen_castling_kingside : Color → Board → List Move
  gen_castling_kingside c b =
      let x = castling_row c in
      let castling_pass = bb_castling_kingside_pass <<< castling_offset c in
      if is_kingside_castling b c
        && (bit_and castling_pass b.bb_all == 0
            && not (is_cell_attacked t (invert c) b (make_coord x 5)))
      then record { kind = castling_kingside; src = make_coord x 4; dst = make_coord x 6; tag = 0 }
        ∷ []
      else []

  unfoldable pub gen_castling_queenside : Color → Board → List Move
  gen_castling_queenside c b =
      let x = castling_row c in
      let castling_pass = bb_castling_queenside_pass <<< castling_offset c in
      if is_queenside_castling b c
        && (bit_and castling_pass b.bb_all == 0
            && not (is_cell_attacked t (invert c) b (make_coord x 3)))
      then record { kind = castling_queenside; src = make_coord x 4; dst = make_coord x 2; tag = 0 }
        ∷ []
      else []

  unfoldable pub gen_castling : Color → Board → List Move
  gen_castling c b = gen_castling_kingside c b ++ gen_castling_queenside c b
