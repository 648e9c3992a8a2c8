-- ===== src/Core/Make/Fields.antt =====
-- The cells and bitboards that the simple and promoting cases of making and unmaking leave.
use sofcheck.Common.{
  ℕ, ◌+◌, ◌<◌, ◌≡◌, false, List, ◌==◌, if◌then◌else◌, bit_or, bit_xor, bit_and, bit_not, read,
  write, arith, Bool-cases, inl, inr,
}
use sofcheck.Core.Types.{Color, white, black, invert, color_offset, coord_to_bitboard}
use sofcheck.Core.Zobrist.{Zobrist}
use sofcheck.Core.Board.{Board}
use sofcheck.Core.Move.{Move, promote_code}
use sofcheck.Core.Synced.{ShowsBelow, is_color}
use sofcheck.Core.Synced.Restore.{uncapture, no_capture}
use sofcheck.Core.Synced.Pieces.{moved_pieces, promoted_pieces}
use sofcheck.Core.Make.{make_simple, make_promote, unmake_simple, unmake_promote}
use sofcheck.Core.Make.Simple.{update_castling-boards}

abbrev pub uncapture_color : ℕ → ℕ → ℕ → ℕ
uncapture_color e d bb = if e == 0 then bb else bit_or bb (coord_to_bitboard d)

abbrev pub uncapture_pieces : ℕ → ℕ → List ℕ → List ℕ
uncapture_pieces e d ps =
    if e == 0 then ps else write ps e (bit_or (read ps e) (coord_to_bitboard d))

module _ (z : Zobrist) where
  pub unmake_simple_white :
      (m : Move) (x e : ℕ) (b : Board)
      → let change = bit_or (coord_to_bitboard m.src) (coord_to_bitboard m.dst) in
        let b' = unmake_simple z white m x e b in
        (b'.cells ≡ write (write b.cells m.src x) m.dst e)
        × (b'.bb_white ≡ bit_xor b.bb_white change)
        × (b'.bb_black ≡ uncapture_color e m.dst b.bb_black)
        × (b'.bb_pieces
            ≡ uncapture_pieces e m.dst (write b.bb_pieces x (bit_xor (read b.bb_pieces x) change)))
  unfolding unmake_simple
  unmake_simple_white m x e b = ground arith

  pub unmake_simple_black :
      (m : Move) (x e : ℕ) (b : Board)
      → let change = bit_or (coord_to_bitboard m.src) (coord_to_bitboard m.dst) in
        let b' = unmake_simple z black m x e b in
        (b'.cells ≡ write (write b.cells m.src x) m.dst e)
        × (b'.bb_white ≡ uncapture_color e m.dst b.bb_white)
        × (b'.bb_black ≡ bit_xor b.bb_black change)
        × (b'.bb_pieces
            ≡ uncapture_pieces e m.dst (write b.bb_pieces x (bit_xor (read b.bb_pieces x) change)))
  unfolding unmake_simple
  unmake_simple_black m x e b = ground arith

-- The bitboard of the other side after a capture and its undoing.
pub theirs_back :
    (c : Color) (cells : List ℕ) (bb d : ℕ)
    → ShowsBelow 64 (is_color c) cells bb
    → d < 64
    → is_color (invert c) (read cells d) ≡ false
    → uncapture_color (read cells d) d (bit_and bb (bit_not (coord_to_bitboard d))) ≡ bb
theirs_back white cells bb d h hd free = elim (Bool-cases (read cells d == 0)) [
  | inl none ↦ rw none (no_capture (is_color white) cells bb h d (ground arith))
  | inr some ↦ rw some (uncapture (is_color white) cells bb h d hd (ground arith))
]
theirs_back black cells bb d h hd free = elim (Bool-cases (read cells d == 0)) [
  | inl none ↦ rw none (no_capture (is_color black) cells bb h d (ground arith))
  | inr some ↦ rw some (uncapture (is_color black) cells bb h d hd (ground arith))
]

module _ (z : Zobrist) where
  pub make_simple_white :
      (m : Move) (x e : ℕ) (b : Board)
      → let change = bit_or (coord_to_bitboard m.src) (coord_to_bitboard m.dst) in
        let b' = make_simple z white m x e b in
        (b'.cells ≡ write (write b.cells m.src 0) m.dst x)
        × (b'.bb_white ≡ bit_xor b.bb_white change)
        × (b'.bb_black ≡ bit_and b.bb_black (bit_not (coord_to_bitboard m.dst)))
        × (b'.bb_pieces ≡ moved_pieces m.src m.dst x e b.bb_pieces)
  unfolding make_simple
  make_simple_white m x e b = update_castling-boards z _ _

  pub make_promote_white :
      (m : Move) (x e : ℕ) (b : Board)
      → let change = bit_or (coord_to_bitboard m.src) (coord_to_bitboard m.dst) in
        let q = color_offset white + promote_code m.kind in
        let b' = make_promote z white m x e b in
        (b'.cells ≡ write (write b.cells m.src 0) m.dst q)
        × (b'.bb_white ≡ bit_xor b.bb_white change)
        × (b'.bb_black ≡ bit_and b.bb_black (bit_not (coord_to_bitboard m.dst)))
        × (b'.bb_pieces ≡ promoted_pieces m.src m.dst 1 q e b.bb_pieces)
  unfolding make_promote
  make_promote_white m x e b = update_castling-boards z _ _

  pub unmake_promote_white :
      (m : Move) (e : ℕ) (b : Board)
      → let change = bit_or (coord_to_bitboard m.src) (coord_to_bitboard m.dst) in
        let q = color_offset white + promote_code m.kind in
        let p₄ = write b.bb_pieces 1 (bit_xor (read b.bb_pieces 1) (coord_to_bitboard m.src)) in
        let b' = unmake_promote z white m e b in
        (b'.cells ≡ write (write b.cells m.src 1) m.dst e)
        × (b'.bb_white ≡ bit_xor b.bb_white change)
        × (b'.bb_black ≡ uncapture_color e m.dst b.bb_black)
        × (b'.bb_pieces
            ≡ uncapture_pieces e m.dst (write p₄ q (bit_xor (read p₄ q) (coord_to_bitboard m.dst))))
  unfolding unmake_promote
  unmake_promote_white m e b = ground arith

  pub make_simple_black :
      (m : Move) (x e : ℕ) (b : Board)
      → let change = bit_or (coord_to_bitboard m.src) (coord_to_bitboard m.dst) in
        let b' = make_simple z black m x e b in
        (b'.cells ≡ write (write b.cells m.src 0) m.dst x)
        × (b'.bb_white ≡ bit_and b.bb_white (bit_not (coord_to_bitboard m.dst)))
        × (b'.bb_black ≡ bit_xor b.bb_black change)
        × (b'.bb_pieces ≡ moved_pieces m.src m.dst x e b.bb_pieces)
  unfolding make_simple
  make_simple_black m x e b = update_castling-boards z _ _

  pub make_promote_black :
      (m : Move) (x e : ℕ) (b : Board)
      → let change = bit_or (coord_to_bitboard m.src) (coord_to_bitboard m.dst) in
        let q = color_offset black + promote_code m.kind in
        let b' = make_promote z black m x e b in
        (b'.cells ≡ write (write b.cells m.src 0) m.dst q)
        × (b'.bb_white ≡ bit_and b.bb_white (bit_not (coord_to_bitboard m.dst)))
        × (b'.bb_black ≡ bit_xor b.bb_black change)
        × (b'.bb_pieces ≡ promoted_pieces m.src m.dst 9 q e b.bb_pieces)
  unfolding make_promote
  make_promote_black m x e b = update_castling-boards z _ _

  pub unmake_promote_black :
      (m : Move) (e : ℕ) (b : Board)
      → let change = bit_or (coord_to_bitboard m.src) (coord_to_bitboard m.dst) in
        let q = color_offset black + promote_code m.kind in
        let p₄ = write b.bb_pieces 9 (bit_xor (read b.bb_pieces 9) (coord_to_bitboard m.src)) in
        let b' = unmake_promote z black m e b in
        (b'.cells ≡ write (write b.cells m.src 9) m.dst e)
        × (b'.bb_white ≡ uncapture_color e m.dst b.bb_white)
        × (b'.bb_black ≡ bit_xor b.bb_black change)
        × (b'.bb_pieces
            ≡ uncapture_pieces e m.dst (write p₄ q (bit_xor (read p₄ q) (coord_to_bitboard m.dst))))
  unfolding unmake_promote
  unmake_promote_black m e b = ground arith
