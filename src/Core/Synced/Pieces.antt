-- ===== src/Core/Synced/Pieces.antt =====
-- How a move of a piece changes the bitboards of the piece kinds.
use sofcheck.Common.{
  ℕ, ◌<◌, ◌≡◌, ◌≢◌, List, ◌==◌, bit_or, bit_and, bit_xor, bit_not, read, write, read-write, length,
  length-write, arith,
}
use sofcheck.Common.Bits.{test_bit-and, test_bit-or, test_bit-xor, test_bit-not, zero-bit_and}
use sofcheck.Core.Types.{coord_to_bitboard}
use sofcheck.Core.Synced.{ShowsBelow, test_bit-coord}

abbrev pub ShowsPieces : List ℕ → List ℕ → Type 0
ShowsPieces cells pieces =
    (length pieces ≡ 15)
    × ((p : ℕ) → 0 < p → p < 15 → ShowsBelow 64 (λ c. c == p) cells (read pieces p))
    × (read pieces 0 ≡ 0)

-- The writes of the case `Simple`, with the piece a at s and the content e of d.
abbrev pub moved_pieces : ℕ → ℕ → ℕ → ℕ → List ℕ → List ℕ
moved_pieces s d a e pieces =
    let change = bit_or (coord_to_bitboard s) (coord_to_bitboard d) in
    let lifted = write pieces a (bit_xor (read pieces a) change) in
    write lifted e (bit_and (read lifted e) (bit_not (coord_to_bitboard d)))

abbrev pub promoted_pieces : ℕ → ℕ → ℕ → ℕ → ℕ → List ℕ → List ℕ
promoted_pieces s d a q e pieces =
    let lifted = write pieces a (bit_xor (read pieces a) (coord_to_bitboard s)) in
    let placed = write lifted q (bit_xor (read lifted q) (coord_to_bitboard d)) in
    write placed e (bit_and (read placed e) (bit_not (coord_to_bitboard d)))

abbrev pub taken_pieces : ℕ → ℕ → ℕ → ℕ → ℕ → List ℕ → List ℕ
taken_pieces s d t a e pieces =
    let change = bit_or (coord_to_bitboard s) (coord_to_bitboard d) in
    let lifted = write pieces a (bit_xor (read pieces a) change) in
    write lifted e (bit_xor (read lifted e) (coord_to_bitboard t))

module _ (cells pieces : List ℕ) (h : ShowsPieces cells pieces) (size : length cells ≡ 64) (s d : ℕ)
    (hs : s < 64) (hd : d < 64) (ne : s ≢ d) where
  pub moved_pieces-ShowsPieces :
      (a e : ℕ)
      → read cells s ≡ a
      → read cells d ≡ e
      → a ≢ e
      → 0 < a
      → a < 15
      → e < 15
      → ShowsPieces (write (write cells s 0) d a) (moved_pieces s d a e pieces)
  moved_pieces-ShowsPieces a e ha he nae pa la le =
      let change = bit_or (coord_to_bitboard s) (coord_to_bitboard d) in
      let x = bit_xor (read pieces a) change in
      let lifted = write pieces a x in
      let y = bit_and (read lifted e) (bit_not (coord_to_bitboard d)) in
      (
        ground (arith, length-write lifted e y, length-write pieces a x, h.0),
        (λ p pos lt i. ground (
          arith,
          h.0,
          h.1 p pos lt i,
          read-write lifted e y p,
          read-write pieces a x p,
          length-write pieces a x,
          test_bit-and i (read lifted e) (bit_not (coord_to_bitboard d)),
          test_bit-not i (coord_to_bitboard d),
          test_bit-xor i (read pieces a) change,
          test_bit-or i (coord_to_bitboard s) (coord_to_bitboard d),
          test_bit-coord s i,
          test_bit-coord d i,
          read-write (write cells s 0) d a i,
          read-write cells s 0 i,
          length-write cells s 0,
        )),
        ground (
          arith,
          h.2,
          read-write lifted e y 0,
          read-write pieces a x 0,
          zero-bit_and (bit_not (coord_to_bitboard d)),
        ),
      )

  -- The write of `makePawnDoubleMove`.
  pub stepped_pieces-ShowsPieces :
      (a : ℕ)
      → read cells s ≡ a
      → read cells d ≡ 0
      → 0 < a
      → a < 15
      → ShowsPieces (write (write cells s 0) d a) (
          write pieces a
            (bit_xor (read pieces a) (bit_or (coord_to_bitboard s) (coord_to_bitboard d))))
  stepped_pieces-ShowsPieces a ha he pa la =
      let change = bit_or (coord_to_bitboard s) (coord_to_bitboard d) in
      let x = bit_xor (read pieces a) change in
      (
        ground (arith, length-write pieces a x, h.0),
        (λ p pos lt i. ground (
          arith,
          h.0,
          h.1 p pos lt i,
          read-write pieces a x p,
          test_bit-xor i (read pieces a) change,
          test_bit-or i (coord_to_bitboard s) (coord_to_bitboard d),
          test_bit-coord s i,
          test_bit-coord d i,
          read-write (write cells s 0) d a i,
          read-write cells s 0 i,
          length-write cells s 0,
        )),
        ground (arith, h.2, read-write pieces a x 0),
      )

  -- The writes of the cases `Promote*`: the pawn a goes, the piece q comes, e is captured.
  pub promoted_pieces-ShowsPieces :
      (a q e : ℕ)
      → read cells s ≡ a
      → read cells d ≡ e
      → a ≢ e
      → q ≢ e
      → a ≢ q
      → 0 < a
      → 0 < q
      → a < 15
      → q < 15
      → e < 15
      → ShowsPieces (write (write cells s 0) d q) (promoted_pieces s d a q e pieces)
  promoted_pieces-ShowsPieces a q e ha he nae nqe naq pa pq la lq le =
      let x = bit_xor (read pieces a) (coord_to_bitboard s) in
      let lifted = write pieces a x in
      let w = bit_xor (read lifted q) (coord_to_bitboard d) in
      let placed = write lifted q w in
      let y = bit_and (read placed e) (bit_not (coord_to_bitboard d)) in
      (
        ground
            (arith, length-write placed e y, length-write lifted q w, length-write pieces a x, h.0),
        (λ p pos lt i. ground (
          arith,
          h.0,
          h.1 p pos lt i,
          read-write placed e y p,
          read-write lifted q w p,
          read-write lifted q w e,
          read-write pieces a x p,
          read-write pieces a x q,
          read-write pieces a x e,
          length-write lifted q w,
          length-write pieces a x,
          test_bit-and i (read placed e) (bit_not (coord_to_bitboard d)),
          test_bit-not i (coord_to_bitboard d),
          test_bit-xor i (read pieces a) (coord_to_bitboard s),
          test_bit-xor i (read lifted q) (coord_to_bitboard d),
          test_bit-coord s i,
          test_bit-coord d i,
          read-write (write cells s 0) d q i,
          read-write cells s 0 i,
          length-write cells s 0,
        )),
        ground (
          arith,
          h.2,
          read-write placed e y 0,
          read-write lifted q w 0,
          read-write pieces a x 0,
          zero-bit_and (bit_not (coord_to_bitboard d)),
        ),
      )

  -- The writes of `makeEnpassant`: the pawn a goes from s to d and the pawn e on t goes.
  pub taken_pieces-ShowsPieces :
      (t a e : ℕ)
      → t < 64
      → t ≢ s
      → t ≢ d
      → read cells s ≡ a
      → read cells d ≡ 0
      → read cells t ≡ e
      → a ≢ e
      → 0 < a
      → 0 < e
      → a < 15
      → e < 15
      → ShowsPieces (write (write (write cells s 0) d a) t 0) (taken_pieces s d t a e pieces)
  taken_pieces-ShowsPieces t a e ht nts ntd ha hd0 he nae pa pe la le =
      let change = bit_or (coord_to_bitboard s) (coord_to_bitboard d) in
      let x = bit_xor (read pieces a) change in
      let lifted = write pieces a x in
      let y = bit_xor (read lifted e) (coord_to_bitboard t) in
      (
        ground (arith, length-write lifted e y, length-write pieces a x, h.0),
        (λ p pos lt i. ground (
          arith,
          h.0,
          h.1 p pos lt i,
          read-write lifted e y p,
          read-write pieces a x p,
          read-write pieces a x e,
          length-write pieces a x,
          test_bit-xor i (read lifted e) (coord_to_bitboard t),
          test_bit-xor i (read pieces a) change,
          test_bit-or i (coord_to_bitboard s) (coord_to_bitboard d),
          test_bit-coord s i,
          test_bit-coord d i,
          test_bit-coord t i,
          read-write (write (write cells s 0) d a) t 0 i,
          read-write (write cells s 0) d a i,
          read-write cells s 0 i,
          length-write (write cells s 0) d a,
          length-write cells s 0,
        )),
        ground (arith, h.2, read-write lifted e y 0, read-write pieces a x 0),
      )
