-- ===== src/Core/Reach.antt =====
-- The fields of the position that `moveMake` leaves, and the positions that play can reach.
pub mod Flags
pub mod Kings
pub mod Homes
pub mod Made
pub mod Play
pub mod Initial
pub mod Tests
use sofcheck.Common.{ℕ, ◌≡◌, ◌∙◌, refl, if◌then◌else◌, ◌==◌, bit_and, bit_or, read, arith}
use sofcheck.Core.Types.{Color, white, black, coord_to_bitboard, invalid_coord, invert}
use sofcheck.Core.Geometry.{bb_castling_all_srcs}
use sofcheck.Core.Zobrist.{Zobrist}
use sofcheck.Core.Board.{Board, without_castling}
use sofcheck.Core.Move.{
  Move, MoveKind, null, simple, pawn_double_move, enpassant, castling_kingside, castling_queenside,
  invalid,
}
use sofcheck.Core.Make.{
  make_kind, make_simple, make_promote, make_enpassant, make_pawn_double_move,
  make_kingside_castling, make_queenside_castling, update_castling, change_castling, castling_mask,
}

-- The castling flags after `updateCastling`.
abbrev pub updated_flags : ℕ → ℕ → ℕ
updated_flags bb_change flags =
    if bit_and bb_change bb_castling_all_srcs == 0
    then flags
    else bit_and flags (castling_mask bb_change)

abbrev pub made_flags : Color → ℕ → MoveKind → ℕ → ℕ → ℕ
made_flags c flags pawn_double_move s d = flags
made_flags c flags enpassant s d = flags
made_flags c flags null s d = flags
made_flags c flags invalid s d = flags
made_flags c flags castling_kingside s d = without_castling flags c
made_flags c flags castling_queenside s d = without_castling flags c
made_flags c flags _ s d = updated_flags (bit_or (coord_to_bitboard s) (coord_to_bitboard d)) flags

abbrev pub made_passing : ℕ → MoveKind → ℕ → ℕ
made_passing e pawn_double_move d = d
made_passing e _ d = e

module _ (z : Zobrist) where
  pub make_kind-flags :
      (c : Color) (m : Move) (k : MoveKind) (s d : ℕ) (b : Board)
      → (make_kind z c m k s d b).castling ≡ made_flags c b.castling k m.src m.dst
  unfolding make_kind make_simple make_promote make_enpassant make_pawn_double_move
      make_kingside_castling make_queenside_castling update_castling change_castling
  make_kind-flags white m simple s d b = ground arith
  make_kind-flags white m _ s d b = ground arith
  make_kind-flags black m simple s d b = ground arith
  make_kind-flags black m _ s d b = ground arith

  pub make_kind-passing :
      (c : Color) (m : Move) (k : MoveKind) (s d : ℕ) (b : Board)
      → (make_kind z c m k s d b).enpassant_coord ≡ made_passing b.enpassant_coord k m.dst
  unfolding make_kind make_simple make_promote make_enpassant make_pawn_double_move
      make_kingside_castling make_queenside_castling update_castling change_castling
  make_kind-passing white m simple s d b = ground arith
  make_kind-passing white m _ s d b = ground arith
  make_kind-passing black m simple s d b = ground arith
  make_kind-passing black m _ s d b = ground arith
