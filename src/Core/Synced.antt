-- ===== src/Core/Synced.antt =====
-- What the auxiliary fields of a position mean: the bitboards show the cells, and the hash is the
-- one that `update` of core/board.cpp computes. `update` makes them so.
pub mod Change
pub mod Pieces
pub mod Restore
use sofcheck.Common.{
  ℕ, zero, suc, ◌+◌, ◌<◌, ◌≤◌, ◌^◌, ◌≡◌, ◌≢◌, ◌∙◌, refl, sym, ap, Bool, true, false, ◌&&◌, ◌||◌,
  not, xor, List, ltb, leb, ◌==◌, if◌then◌else◌, bit_or, bit_and, bit_xor, bit_not, read, write,
  read-write, length, length-write, arith, for_below_inv, replicate, read-replicate, read_ext,
  length-replicate,
}
use sofcheck.Common.Bits.{
  test_bit, test_bit_ext, test_bit-or, test_bit-pow, test_bit-zero, bit_laws,
}
use sofcheck.Core.Types.{Color, white, black, coord_to_bitboard}
use sofcheck.Core.Zobrist.{Zobrist}
use sofcheck.Core.Board.{
  Board, Bitboards, add_to_bitboards, compute_bitboards, update_bitboards, compute_hash,
}

abbrev pub is_color : Color → ℕ → Bool
is_color white cell = not (cell == 0) && ltb cell 8
is_color black cell = not (cell == 0) && not (ltb cell 8)

-- The bitboard has the bits of the first n cells that satisfy `p`.
abbrev pub ShowsBelow : ℕ → (ℕ → Bool) → List ℕ → ℕ → Type 0
ShowsBelow n p cells bb = (i : ℕ) → test_bit bb i ≡ (ltb i n && p (read cells i))

pub record ShowsCells (n : ℕ) (cells : List ℕ) (w b : ℕ) (pieces : List ℕ) : Type 0 where
  pub pieces_size : length pieces ≡ 15
  pub by_white : ShowsBelow n (is_color white) cells w
  pub by_black : ShowsBelow n (is_color black) cells b
  pub by_piece : (p : ℕ) → 0 < p → p < 15 → ShowsBelow n (λ c. c == p) cells (read pieces p)
  pub no_empty : read pieces 0 ≡ 0

abbrev pub CellsValid : List ℕ → Type 0
CellsValid cells = (length cells ≡ 64) × ((i : ℕ) → read cells i < 15)

pub record IsSynced (z : Zobrist) (b : Board) : Type 0 where
  pub cells_valid : CellsValid b.cells
  pub boards : ShowsCells 64 b.cells b.bb_white b.bb_black b.bb_pieces
  pub all_pieces : b.bb_all ≡ bit_or b.bb_white b.bb_black
  pub hashed : b.hash ≡ compute_hash z b

pub test_bit-coord : (k i : ℕ) → test_bit (coord_to_bitboard k) i ≡ (k == i)
unfolding coord_to_bitboard
test_bit-coord k i = ap (λ t. test_bit t i) (omega arith) ∙ test_bit-pow k i

module _ (cells : List ℕ) (valid : CellsValid cells) where
  add_to_bitboards-ShowsCells :
      (n : ℕ) (s : Bitboards)
      → ShowsCells n cells s.for_white s.for_black s.for_pieces
      → let t = add_to_bitboards cells n s in
        ShowsCells (suc n) cells t.for_white t.for_black t.for_pieces
  unfolding add_to_bitboards
  add_to_bitboards-ShowsCells n s h = record {
    pieces_size = ground (
      arith,
      h.pieces_size,
      length-write s.for_pieces (read cells n)
          (bit_or (read s.for_pieces (read cells n)) (coord_to_bitboard n)),
    );
    by_white = λ i.
        ground (
          arith,
          h.by_white i,
          test_bit-or i s.for_white (coord_to_bitboard n),
          test_bit-coord n i,
        );
    by_black = λ i.
        ground (
          arith,
          h.by_black i,
          test_bit-or i s.for_black (coord_to_bitboard n),
          test_bit-coord n i,
        );
    by_piece = λ p pos lt i. ground (
      arith,
      h.by_piece p pos lt i,
      h.pieces_size,
      test_bit-or i (read s.for_pieces p) (coord_to_bitboard n),
      test_bit-coord n i,
      read-write s.for_pieces (read cells n)
          (bit_or (read s.for_pieces (read cells n)) (coord_to_bitboard n)) p,
    );
    no_empty = ground (
      arith,
      h.no_empty,
      read-write s.for_pieces (read cells n)
          (bit_or (read s.for_pieces (read cells n)) (coord_to_bitboard n)) 0,
    );
  }

  pub compute_bitboards-ShowsCells :
      let s = compute_bitboards cells in ShowsCells 64 cells s.for_white s.for_black s.for_pieces
  unfolding compute_bitboards
  compute_bitboards-ShowsCells =
      for_below_inv (λ n s. ShowsCells n cells s.for_white s.for_black s.for_pieces)
        (add_to_bitboards cells) 64 _ (λ i t lt h. add_to_bitboards-ShowsCells i t h)
        (record {
          pieces_size = length-replicate {A = ℕ} 15 0;
          by_white = λ i. simp bit_laws (ground arith);
          by_black = λ i. simp bit_laws (ground arith);
          by_piece = λ p pos lt i. simp read-replicate (ground (arith, test_bit-zero i));
          no_empty = ground (arith, read-replicate 15 0 0);
        })

-- The bitboards are determined by the cells.
module _ {cells : List ℕ} {w b w' b' : ℕ} {pieces pieces' : List ℕ}
    (h : ShowsCells 64 cells w b pieces) (h' : ShowsCells 64 cells w' b' pieces') where
  pub white_unique : w ≡ w'
  white_unique = test_bit_ext w w' λ i. h.by_white i ∙ sym (h'.by_white i)

  pub black_unique : b ≡ b'
  black_unique = test_bit_ext b b' λ i. h.by_black i ∙ sym (h'.by_black i)

  same_piece : (p : ℕ) → p < 15 → read pieces p ≡ read pieces' p
  same_piece zero lt = h.no_empty ∙ sym h'.no_empty
  same_piece (suc p) lt =
      test_bit_ext _ _
        λ i. h.by_piece (suc p) (omega arith) lt i ∙ sym (h'.by_piece (suc p) (omega arith) lt i)

  pub pieces_unique : pieces ≡ pieces'
  pieces_unique =
      read_ext pieces pieces' (h.pieces_size ∙ sym h'.pieces_size)
        λ i lt. same_piece i (omega (arith, h.pieces_size))

-- The last two parts of `update`: bitboards and hash from the essential fields.
unfoldable pub refresh : Zobrist → Board → Board
refresh z b = let t = update_bitboards b in record t { hash = compute_hash z t }

module _ (z : Zobrist) where
  pub refresh-IsSynced : (b : Board) → CellsValid b.cells → IsSynced z (refresh z b)
  unfolding refresh update_bitboards compute_hash
  refresh-IsSynced b valid = record {
    cells_valid = valid;
    boards = compute_bitboards-ShowsCells b.cells valid;
    all_pieces = refl;
    hashed = refl;
  }

  -- A position in sync is the one that `update` would compute.
  pub refresh-eq_of_IsSynced : (b : Board) → IsSynced z b → refresh z b ≡ b
  unfolding refresh update_bitboards compute_hash
  refresh-eq_of_IsSynced b h = ground (
    arith,
    white_unique (compute_bitboards-ShowsCells b.cells h.cells_valid) h.boards,
    black_unique (compute_bitboards-ShowsCells b.cells h.cells_valid) h.boards,
    pieces_unique (compute_bitboards-ShowsCells b.cells h.cells_valid) h.boards,
    h.all_pieces,
    h.hashed,
  )
