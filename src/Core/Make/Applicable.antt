-- ===== src/Core/Make/Applicable.antt =====
-- When a move may be made: what `moveMake` relies on of the position and the move. The source says
-- "pseudo-legal"; this is the part of it that the making of moves needs.
use sofcheck.Common.{ℕ, ◌+◌, ◌<◌, ◌≡◌, ◌≢◌, true, false, read, List}
use sofcheck.Core.Types.{Color, pawn, king, rook, make_cell, empty_cell, invert}
use sofcheck.Core.Geometry.{castling_offset}
use sofcheck.Core.Board.{Board}
use sofcheck.Core.Move.{
  Move, MoveKind, null, simple, pawn_double_move, enpassant, castling_kingside, castling_queenside,
  invalid, enpassant_pawn_pos,
}
use sofcheck.Core.Synced.{is_color}

-- A piece of colour c goes from one cell of the board to another that its side does not hold.
pub record Travels (c : Color) (cells : List ℕ) (s d : ℕ) : Type 0 where
  pub src_lt : s < 64
  pub dst_lt : d < 64
  pub src_ne_dst : s ≢ d
  pub ours : is_color c (read cells s) ≡ true
  pub free : is_color c (read cells d) ≡ false

-- A pawn goes to an empty cell.
pub record PawnStep (c : Color) (cells : List ℕ) (s d : ℕ) : Type 0 where
  pub src_lt : s < 64
  pub dst_lt : d < 64
  pub src_ne_dst : s ≢ d
  pub our_pawn : read cells s ≡ make_cell c pawn
  pub free : read cells d ≡ empty_cell

pub record Takes (c : Color) (cells : List ℕ) (s d : ℕ) : Type 0 where
  pub step : PawnStep c cells s d
  pub open step use *
  pub taken_lt : enpassant_pawn_pos c d < 64
  pub enemy_pawn : read cells (enpassant_pawn_pos c d) ≡ make_cell (invert c) pawn

pub record Promotes (c : Color) (cells : List ℕ) (s d : ℕ) : Type 0 where
  pub src_lt : s < 64
  pub dst_lt : d < 64
  pub src_ne_dst : s ≢ d
  pub our_pawn : read cells s ≡ make_cell c pawn
  pub free : is_color c (read cells d) ≡ false

pub record CastlesKingside (c : Color) (cells : List ℕ) : Type 0 where
  pub king_home : read cells (castling_offset c + 4) ≡ make_cell c king
  pub free₁ : read cells (castling_offset c + 5) ≡ empty_cell
  pub free₂ : read cells (castling_offset c + 6) ≡ empty_cell
  pub rook_home : read cells (castling_offset c + 7) ≡ make_cell c rook

pub record CastlesQueenside (c : Color) (cells : List ℕ) : Type 0 where
  pub rook_home : read cells (castling_offset c + 0) ≡ make_cell c rook
  pub free₁ : read cells (castling_offset c + 2) ≡ empty_cell
  pub free₂ : read cells (castling_offset c + 3) ≡ empty_cell
  pub king_home : read cells (castling_offset c + 4) ≡ make_cell c king

abbrev pub ApplicableKind : Color → List ℕ → MoveKind → ℕ → ℕ → Type 0
ApplicableKind c cells simple s d = Travels c cells s d
ApplicableKind c cells pawn_double_move s d = PawnStep c cells s d
ApplicableKind c cells enpassant s d = Takes c cells s d
ApplicableKind c cells castling_kingside s d = CastlesKingside c cells
ApplicableKind c cells castling_queenside s d = CastlesQueenside c cells
ApplicableKind c cells null s d = Unit
ApplicableKind c cells invalid s d = ⊥
ApplicableKind c cells _ s d = Promotes c cells s d

abbrev pub IsApplicable : Board → Move → Type 0
IsApplicable b m = ApplicableKind b.side b.cells m.kind m.src m.dst
