-- ===== src/Core/Zobrist.antt =====
-- core/private/zobrist.h and zobrist.cpp: the random keys of which position hashes are made.
use sofcheck.Common.{ℕ, ◌+◌, ◌-◌, ◌*◌, ◌==◌, if◌then◌else◌, bit_xor}
use sofcheck.Core.Types.{Color, rook, king, make_cell}
use sofcheck.Core.Geometry.{castling_offset}

-- The tables `g_zobrist*`.
pub record Zobrist : Type 0 where
  pub pieces : ℕ → ℕ → ℕ
  pub move_side : ℕ
  pub castling : ℕ → ℕ
  pub enpassant : ℕ → ℕ
  pub piece_castling_kingside : Color → ℕ
  pub piece_castling_queenside : Color → ℕ

abbrev pieces_of : (ℕ → ℕ) → ℕ → ℕ → ℕ
pieces_of random i j = if i == 0 then 0 else random ((i - 1) * 64 + j)

-- `random k` is the k-th number that `SoFUtil::random` gives, counted from the call's start.
unfoldable pub init_zobrist : (ℕ → ℕ) → Zobrist
init_zobrist random = record {
  pieces = pieces_of random;
  move_side = random 960;
  castling = λ i. random (961 + i);
  enpassant = λ i. random (977 + i);
  piece_castling_kingside = λ c.
      let offset = castling_offset c in
      let z = pieces_of random in
      bit_xor
        (bit_xor (bit_xor (z (make_cell c king) (offset + 4)) (z (make_cell c rook) (offset + 5)))
          (z (make_cell c king) (offset + 6)))
        (z (make_cell c rook) (offset + 7));
  piece_castling_queenside = λ c.
      let offset = castling_offset c in
      let z = pieces_of random in
      bit_xor
        (bit_xor (bit_xor (z (make_cell c rook) (offset + 0)) (z (make_cell c king) (offset + 2)))
          (z (make_cell c rook) (offset + 3)))
        (z (make_cell c king) (offset + 4));
}
