-- ===== src/Core/Synced/Change.antt =====
-- How one change of the cells, a piece that goes from s to d, shows in a bitboard.
use sofcheck.Common.{
  ℕ, ◌<◌, ◌≡◌, ◌≢◌, Bool, true, false, List, bit_or, bit_and, bit_xor, bit_not, read, write,
  read-write, length, length-write, arith,
}
use sofcheck.Common.Bits.{bit_laws}
use sofcheck.Core.Types.{coord_to_bitboard}
use sofcheck.Core.Synced.{ShowsBelow, test_bit-coord}

module _ (p : ℕ → Bool) (cells : List ℕ) (bb : ℕ) (shown : ShowsBelow 64 p cells bb)
    (size : length cells ≡ 64) (empty : p 0 ≡ false) where
  pub ShowsBelow-moved :
      (s d v : ℕ)
      → s < 64
      → d < 64
      → s ≢ d
      → p (read cells s) ≡ true
      → p (read cells d) ≡ false
      → p v ≡ true
      → ShowsBelow 64 p
          (write (write cells s 0) d v)
          (bit_xor bb (bit_or (coord_to_bitboard s) (coord_to_bitboard d)))
  ShowsBelow-moved s d v hs hd ne ps pd pv i =
      simp (bit_laws, test_bit-coord)
        (ground (
          arith,
          shown i,
          read-write (write cells s 0) d v i,
          read-write cells s 0 i,
          length-write cells s 0,
        ))

  pub ShowsBelow-captured :
      (s d v : ℕ)
      → s < 64
      → d < 64
      → p (read cells s) ≡ false
      → p v ≡ false
      → ShowsBelow 64 p (write (write cells s 0) d v) (bit_and bb (bit_not (coord_to_bitboard d)))
  ShowsBelow-captured s d v hs hd ps pv i =
      simp (bit_laws, test_bit-coord)
        (ground (
          arith,
          shown i,
          read-write (write cells s 0) d v i,
          read-write cells s 0 i,
          length-write cells s 0,
        ))

  -- A bitboard of which neither cell is part stays.
  pub ShowsBelow-kept :
      (s d v : ℕ)
      → p (read cells s) ≡ false
      → p (read cells d) ≡ false
      → p v ≡ false
      → ShowsBelow 64 p (write (write cells s 0) d v) bb
  ShowsBelow-kept s d v ps pd pv i = ground (
    arith,
    shown i,
    read-write (write cells s 0) d v i,
    read-write cells s 0 i,
    length-write cells s 0,
  )

  -- En passant, for the side that moves and for the side that loses the pawn on t.
  pub ShowsBelow-taking :
      (s d t v : ℕ)
      → s < 64
      → d < 64
      → s ≢ d
      → t ≢ d
      → p (read cells s) ≡ true
      → p (read cells d) ≡ false
      → p (read cells t) ≡ false
      → p v ≡ true
      → ShowsBelow 64 p
          (write (write (write cells s 0) d v) t 0)
          (bit_xor bb (bit_or (coord_to_bitboard s) (coord_to_bitboard d)))
  ShowsBelow-taking s d t v hs hd ne ntd ps pd pt pv i =
      simp (bit_laws, test_bit-coord)
        (ground (
          arith,
          shown i,
          read-write (write (write cells s 0) d v) t 0 i,
          read-write (write cells s 0) d v i,
          read-write cells s 0 i,
          length-write (write cells s 0) d v,
          length-write cells s 0,
        ))

  pub ShowsBelow-taken :
      (s d t v : ℕ)
      → t < 64
      → t ≢ d
      → p (read cells s) ≡ false
      → p (read cells d) ≡ false
      → p (read cells t) ≡ true
      → p v ≡ false
      → ShowsBelow 64 p (write (write (write cells s 0) d v) t 0) (bit_xor bb (coord_to_bitboard t))
  ShowsBelow-taken s d t v ht ntd ps pd pt pv i =
      simp (bit_laws, test_bit-coord)
        (ground (
          arith,
          shown i,
          read-write (write (write cells s 0) d v) t 0 i,
          read-write (write cells s 0) d v i,
          read-write cells s 0 i,
          length-write (write cells s 0) d v,
          length-write cells s 0,
        ))
