-- ===== src/Core/Draw/Shades.antt =====
-- What may stand on the board in a draw by insufficient material, and the two shades of its cells.
use sofcheck.Common.{
  ℕ, if◌then◌else◌, ◌+◌, ◌^◌, ◌%◌, ◌<◌, ◌≡◌, ◌≢◌, ◌⊎◌, refl, Bool, true, false, ◌&&◌, ◌||◌, not,
  ◌==◌, List, bit_and, read, arith, all_to, all_to_sound,
}
use sofcheck.Common.Bits.{test_bit}
use sofcheck.Util.Bit.{popcount}
use sofcheck.Core.Types.{
  Piece, white, black, king, knight, bishop, empty_cell, make_cell, coord_x, coord_y,
}
use sofcheck.Core.Draw.{bb_cells_white, bb_cells_black}

-- The cell holds a piece of this kind, of either colour.
abbrev pub is_of : Piece → ℕ → Bool
is_of p cell = cell == make_cell white p || cell == make_cell black p

-- The cell is empty or holds a king.
abbrev pub is_bare : ℕ → Bool
is_bare cell = cell == empty_cell || is_of king cell

-- Whether a cell of the board is light or dark: 0 for a8 and h1.
abbrev pub shade : ℕ → ℕ
shade i = (coord_x i + coord_y i) % 2

-- Besides kings one knight, or bishops that all stand on cells of one shade, of which there may be
-- none.
abbrev pub IsInsufficient : List ℕ → Type 0
IsInsufficient cells =
    ((k : ℕ) × (k < 64)
      × (is_of knight (read cells k) ≡ true)
      × ((i : ℕ) → i < 64 → i ≢ k → is_bare (read cells i) ≡ true))
    ⊎ (((i : ℕ) → i < 64 → (is_bare (read cells i) || is_of bishop (read cells i)) ≡ true)
        × ((i j : ℕ)
            → i < 64
            → j < 64
            → is_of bishop (read cells i) ≡ true
            → is_of bishop (read cells j) ≡ true
            → shade i ≡ shade j))

-- The two constants have the cells of one shade each.
abbrev pub shaded : ℕ → Bool
shaded i =
    (if shade i == 0
      then test_bit bb_cells_white i && not (test_bit bb_cells_black i)
      else test_bit bb_cells_black i && not (test_bit bb_cells_white i))

shaded_cells : all_to 64 shaded ≡ true
unfolding all_to test_bit coord_x coord_y
shaded_cells = refl

pub shaded_lem : (i : ℕ) → i < 64 → shaded i ≡ true
shaded_lem i lt = all_to_sound 64 shaded i shaded_cells lt

pub dark : (i : ℕ) → i < 64 → test_bit bb_cells_white i ≡ false → shade i ≡ 1
dark i lt e = ground (arith, shaded_lem i lt, e)

pub light : (i : ℕ) → i < 64 → test_bit bb_cells_black i ≡ false → shade i ≡ 0
light i lt e = ground (arith, shaded_lem i lt, e)

-- A single cell is of one shade, and counts as one.
abbrev pub single : ℕ → Bool
single k =
    (bit_and (2 ^ k) bb_cells_white == 0 || bit_and (2 ^ k) bb_cells_black == 0)
    && popcount (2 ^ k) == 1

pub single_cells : all_to 64 single ≡ true
unfolding all_to popcount
single_cells = refl
