-- ===== src/Core/Reach/Kings.antt =====
-- A move leaves each colour one king at most.
use sofcheck.Common.{
  ℕ, ◌+◌, ◌<◌, ◌≡◌, ◌≢◌, ◌∙◌, sym, inl, inr, Bool-cases, ◌==◌, ==_iff, read, write, read-write,
  length, length-write, List, arith,
}
use sofcheck.Core.Types.{
  Color, white, black, Piece, pawn, king, knight, bishop, rook, queen, make_cell, piece_code,
}
use sofcheck.Core.Geometry.{castling_offset}
use sofcheck.Core.Zobrist.{Zobrist}
use sofcheck.Core.Move.{
  MoveKind, null, simple, pawn_double_move, enpassant, castling_kingside, castling_queenside,
  promote_knight, promote_bishop, promote_rook, promote_queen, invalid,
}
use sofcheck.Core.Make.Applicable.{ApplicableKind}
use sofcheck.Core.Make.Sync.{made_cells}
use sofcheck.Core.MoveGen.Playable.{OneKing}

pub cells_differ :
    (c e : Color) (p q : Piece) → piece_code p ≢ piece_code q → make_cell c p ≢ make_cell e q
cells_differ white white p q n e = omega arith
cells_differ white black p q n e = ground arith
cells_differ black white p q n e = ground arith
cells_differ black black p q n e = omega arith

abbrev NoKing : Color → List ℕ → Type 0
NoKing e cells = (i : ℕ) → read cells i ≢ make_cell e king

module _ (e : Color) where
  one-write_other :
      (cells : List ℕ) (p v : ℕ)
      → v ≢ make_cell e king
      → OneKing e cells
      → OneKing e (write cells p v)
  one-write_other cells p v n one i j ei ej =
      one i j (ground (arith, read-write cells p v i)) (ground (arith, read-write cells p v j))

  none-write_other :
      (cells : List ℕ) (p v : ℕ)
      → v ≢ make_cell e king
      → NoKing e cells
      → NoKing e (write cells p v)
  none-write_other cells p v n bare i ei = bare i (ground (arith, read-write cells p v i))

  none-write :
      (cells : List ℕ) (p : ℕ)
      → p < length cells
      → OneKing e cells
      → read cells p ≡ make_cell e king
      → NoKing e (write cells p 0)
  none-write cells p lt one at i ei =
      let was : read cells i ≡ make_cell e king = ground (arith, read-write cells p 0 i) in
      ground (arith, read-write cells p 0 i, one i p was at)

  one-write_king : (cells : List ℕ) (p v : ℕ) → NoKing e cells → OneKing e (write cells p v)
  one-write_king cells p v bare i j ei ej =
      ground (arith, read-write cells p v i, read-write cells p v j, bare i, bare j)

  -- A piece goes from s to d and may turn into a piece that is no king.
  moved-OneKing :
      (cells : List ℕ) (s d v : ℕ)
      → s < length cells
      → (v ≡ make_cell e king → read cells s ≡ make_cell e king)
      → OneKing e cells
      → OneKing e (write (write cells s 0) d v)
  moved-OneKing cells s d v lt from one = elim (Bool-cases (v == make_cell e king)) [
    | inl is_king ↦
        one-write_king (write cells s 0) d v
          (none-write cells s lt one (from ((==_iff _ _).0 is_king)))
    | inr other ↦
        one-write_other (write cells s 0) d v (λ same. ground arith)
          (one-write_other cells s 0 (λ zero. omega arith) one)
  ]

home_lt : (c : Color) → castling_offset c + 4 < 64
home_lt white = omega arith
home_lt black = omega arith

module _ (z : Zobrist) (e : Color) (cells : List ℕ) (size : length cells ≡ 64)
    (one : OneKing e cells) where
  castled-OneKing :
      (c : Color) (k r i j : ℕ)
      → k < 64
      → read cells k ≡ make_cell c king
      → OneKing e
          (write (write (write (write cells k 0) i (make_cell c rook)) j (make_cell c king)) r 0)
  castled-OneKing c k r i j lt at = elim (Bool-cases (make_cell c king == make_cell e king)) [
    | inl same ↦
        one-write_other e _ r 0 (λ zero. omega arith)
          (one-write_king e _ j (make_cell c king) (
            none-write_other e _ i (make_cell c rook)
              (cells_differ c e rook king (λ n. ground arith))
              (none-write e cells k (omega (arith, size)) one (at ∙ (==_iff _ _).0 same))))
    | inr other ↦
        one-write_other e _ r 0 (λ zero. omega arith)
          (one-write_other e _ j (make_cell c king) (λ same. ground arith)
            (one-write_other e _ i (make_cell c rook)
              (cells_differ c e rook king (λ n. ground arith))
              (one-write_other e cells k 0 (λ zero. omega arith) one)))
  ]

  -- Here the king arrives before it leaves.
  castled_first-OneKing :
      (c : Color) (r j i k : ℕ)
      → k < 64
      → j ≢ k
      → read cells k ≡ make_cell c king
      → OneKing e
          (write (write (write (write cells r 0) j (make_cell c king)) i (make_cell c rook)) k 0)
  castled_first-OneKing c r j i k lt ne at =
      elim (Bool-cases (make_cell c king == make_cell e king)) [
        | inl same ↦
            let same_king = (==_iff _ _).0 same in
            let w₁ = write cells r 0 in
            let w₂ = write w₁ j (make_cell c king) in
            let w₃ = write w₂ i (make_cell c rook) in
            let no_rook = cells_differ c e rook king (λ n. ground arith) in
            let at_j : (x : ℕ) → read (write w₃ k 0) x ≡ make_cell e king → x ≡ j = λ x ex. ground (
              arith,
              read-write w₃ k 0 x,
              read-write w₂ i (make_cell c rook) x,
              read-write w₁ j (make_cell c king) x,
              read-write cells r 0 x,
              one x k,
              at,
              no_rook,
              length-write w₂ i (make_cell c rook),
              length-write w₁ j (make_cell c king),
              length-write cells r 0,
              size,
            ) in
            λ x y ex ey. at_j x ex ∙ sym (at_j y ey)
        | inr other ↦
            one-write_other e _ k 0 (λ zero. omega arith)
              (one-write_other e _ i (make_cell c rook)
                (cells_differ c e rook king (λ n. ground arith))
                (one-write_other e _ j (make_cell c king) (λ same. ground arith)
                  (one-write_other e cells r 0 (λ zero. omega arith) one)))
      ]

  promoted-OneKing :
      (c : Color) (p : Piece) (s d : ℕ)
      → piece_code p ≢ piece_code king
      → s < 64
      → OneKing e (write (write cells s 0) d (make_cell c p))
  promoted-OneKing c p s d n lt =
      moved-OneKing e cells s d (make_cell c p) (omega (arith, size))
        (λ same. absurd (cells_differ c e p king n same)) one

  pub made_cells-OneKing :
      (c : Color) (k : MoveKind) (s d : ℕ)
      → ApplicableKind c cells k s d
      → OneKing e (made_cells z c cells k s d)
  made_cells-OneKing c simple s d t =
      moved-OneKing e cells s d (read cells s) (omega (arith, size, t.src_lt)) (λ same. same) one
  made_cells-OneKing c pawn_double_move s d t =
      promoted-OneKing c pawn s d (λ n. ground arith) t.src_lt
  made_cells-OneKing c enpassant s d t =
      one-write_other e _ _ 0 (λ zero. omega arith)
        (promoted-OneKing c pawn s d (λ n. ground arith) t.step.src_lt)
  made_cells-OneKing c castling_kingside s d t =
      castled-OneKing c (castling_offset c + 4) (castling_offset c + 7) (castling_offset c + 5)
        (castling_offset c + 6) (home_lt c) t.king_home
  made_cells-OneKing c castling_queenside s d t =
      castled_first-OneKing c (castling_offset c + 0) (castling_offset c + 2)
        (castling_offset c + 3) (castling_offset c + 4) (home_lt c) (λ n. omega arith) t.king_home
  made_cells-OneKing c null s d t = one
  made_cells-OneKing c invalid s d t = absurd t
  made_cells-OneKing c promote_knight s d t =
      promoted-OneKing c knight s d (λ n. ground arith) t.src_lt
  made_cells-OneKing c promote_bishop s d t =
      promoted-OneKing c bishop s d (λ n. ground arith) t.src_lt
  made_cells-OneKing c promote_rook s d t = promoted-OneKing c rook s d (λ n. ground arith) t.src_lt
  made_cells-OneKing c promote_queen s d t =
      promoted-OneKing c queen s d (λ n. ground arith) t.src_lt
