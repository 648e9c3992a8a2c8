-- ===== src/Core/Hash.antt =====
-- Laws of the position hash of core/board.cpp: what one write to the cells changes in it.
use sofcheck.Common.{
  ℕ, zero, suc, ◌<◌, ◌≡◌, refl, sym, List, ltb, if◌then◌else◌, bit_xor, read, write, read-write,
  length, arith, for_below,
}
use sofcheck.Common.Bits.{bit_xor_assoc, bit_xor-zero, bit_xor_cancel, bit_xor_right_comm}
use sofcheck.Core.Types.{Color}
use sofcheck.Core.Zobrist.{Zobrist, init_zobrist}
use sofcheck.Core.Board.{Board, add_to_hash, side_key, enpassant_key, compute_hash}

-- An empty cell has the key 0, as `initZobrist` leaves it.
abbrev pub EmptyKeys : Zobrist → Type 0
EmptyKeys z = (i : ℕ) → z.pieces 0 i ≡ 0

pub init_zobrist-EmptyKeys : (random : ℕ → ℕ) → EmptyKeys (init_zobrist random)
unfolding init_zobrist
init_zobrist-EmptyKeys random i = refl

module _ (z : Zobrist) where
  -- The keys of the first n cells.
  pub cells_key : ℕ → List ℕ → ℕ
  cells_key n cells = for_below n (add_to_hash z cells) 0

  for_below-add_to_hash :
      (n : ℕ) (cells : List ℕ) (h : ℕ)
      → for_below n (add_to_hash z cells) h ≡ bit_xor h (cells_key n cells)
  unfolding cells_key for_below add_to_hash
  for_below-add_to_hash zero cells h = sym (bit_xor-zero h)
  for_below-add_to_hash (suc n) cells h = ground (
    arith,
    for_below-add_to_hash n cells h,
    bit_xor_assoc h (cells_key n cells) (z.pieces (read cells n) n),
  )

  -- The keys of the essential fields other than the cells.
  unfoldable pub state_key : Color → ℕ → ℕ → ℕ
  state_key side e castling = bit_xor (enpassant_key z (side_key z side) e) (z.castling castling)

  pub compute_hash_lem :
      (b : Board)
      → compute_hash z b
        ≡ bit_xor (state_key b.side b.enpassant_coord b.castling) (cells_key 64 b.cells)
  unfolding compute_hash state_key
  compute_hash_lem b = for_below-add_to_hash 64 b.cells _

module _ (z : Zobrist) (empty_keys : EmptyKeys z) where
  cells_key-suc :
      (n : ℕ) (cells : List ℕ)
      → cells_key z (suc n) cells ≡ bit_xor (cells_key z n cells) (z.pieces (read cells n) n)
  unfolding cells_key for_below add_to_hash
  cells_key-suc n cells =
      ground (arith, empty_keys n, bit_xor-zero (for_below n (add_to_hash z cells) 0))

  cells_key-write_below :
      (n : ℕ) (cells : List ℕ) (s v : ℕ)
      → s < length cells
      → cells_key z n (write cells s v) ≡ (
          if ltb s n
          then bit_xor (bit_xor (cells_key z n cells) (z.pieces (read cells s) s)) (z.pieces v s)
          else cells_key z n cells)
  cells_key-write_below zero cells s v h = unfold cells_key for_below in ground arith
  cells_key-write_below (suc n) cells s v h =
      rw (cells_key-suc n (write cells s v), cells_key-suc n cells, read-write cells s v n)
        (ground (
          arith,
          cells_key-write_below n cells s v,
          bit_xor_cancel (cells_key z n cells) (z.pieces (read cells s) s),
          bit_xor_right_comm (bit_xor (cells_key z n cells) (z.pieces (read cells s) s))
              (z.pieces v s) (z.pieces (read cells n) n),
          bit_xor_right_comm (cells_key z n cells) (z.pieces (read cells s) s)
              (z.pieces (read cells n) n),
        ))

  pub cells_key-write :
      (cells : List ℕ) (s v : ℕ)
      → length cells ≡ 64
      → s < 64
      → cells_key z 64 (write cells s v)
        ≡ bit_xor (bit_xor (cells_key z 64 cells) (z.pieces (read cells s) s)) (z.pieces v s)
  cells_key-write cells s v size h = ground (arith, cells_key-write_below 64 cells s v)
