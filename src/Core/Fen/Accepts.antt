-- ===== src/Core/Fen/Accepts.antt =====
-- What `setFromFen` makes of any text.
use sofcheck.Common.{
  ℕ, suc, zero, ◌+◌, ◌-◌, ◌*◌, ◌<◌, ◌≤◌, ◌≡◌, ◌≢◌, ◌∙◌, refl, Bool, true, false, not, ◌&&◌, leb,
  ltb, ◌==◌, if◌then◌else◌, some, List, length, length-write, read, write, read-write, arith,
  Bool-cases, inl, inr, Option-cases, subst,
}
use sofcheck.Core.Types.{Color, white, black, Piece, make_cell, empty_cell, is_cell_valid}
use sofcheck.Core.Fen.Parse.{
  Turn, again, leave, fails, Scan, write_empty, cell_turn, cell_of_char, put_piece, piece_of_char,
  FenParseResult, ok,
}
use sofcheck.Util.Strutil.{ascii_to_lower}

-- 64 known cells.
pub record GoodCells (cells : List ℕ) : Type 0 where
  pub size : length cells ≡ 64
  pub known : (i : ℕ) → is_cell_valid (read cells i) ≡ true

write-GoodCells :
    (cells : List ℕ) (i v : ℕ)
    → is_cell_valid v ≡ true
    → GoodCells cells
    → GoodCells (write cells i v)
write-GoodCells cells i v valid h = record {
  size = length-write cells i v ∙ h.size;
  known = λ j. elim (Bool-cases (i == j && ltb i (length cells))) [
    | inl hit ↦ rw (read-write cells i v j, hit) valid
    | inr miss ↦ rw (read-write cells i v j, miss) (h.known j)
  ];
}

write_empty-GoodCells :
    (n i : ℕ) (cells : List ℕ) → GoodCells cells → GoodCells (write_empty n i cells)
unfolding write_empty is_cell_valid
write_empty-GoodCells zero i cells h = h
write_empty-GoodCells (suc n) i cells h =
    write_empty-GoodCells n (suc i) (write cells i empty_cell)
      (write-GoodCells cells i empty_cell refl h)

make_cell-valid : (c : Color) (p : Piece) → is_cell_valid (make_cell c p) ≡ true
unfolding is_cell_valid
make_cell-valid white p = ground arith
make_cell-valid black p = ground arith

cell_of_char-valid : (c v : ℕ) → cell_of_char c ≡ some v → is_cell_valid v ≡ true
unfolding cell_of_char
cell_of_char-valid c v e = elim (Option-cases (piece_of_char (ascii_to_lower c))) [
  | inl nothing ↦ absurd (ground (arith, e))
  | inr (p, found) ↦
      let color = if c == ascii_to_lower c then black else white in
      let same : make_cell color p ≡ v = ground (arith, e) in
      subst (λ w. is_cell_valid w ≡ true) same (make_cell-valid color p)
]

-- The next cell to write follows from the row and the column.
pub record ScanFits (s : Scan) : Type 0 where
  pub next_cell : s.cur ≡ 8 * s.x + s.y
  pub in_row : s.y ≤ 8
  pub row_lt : s.x < 8
  pub cells_good : GoodCells s.cells

-- A round leads to a state of this kind, leaves the loop, or returns an error.
pub data Keeps {S : Type 0} (P : S → Type 0) : Turn S → Type 0 where
  next : {s : S} → P s → Keeps P (again s)
  left : Keeps P leave
  failed : {r : FenParseResult} → r ≢ ok → Keeps P (fails r)

pub Keeps-if :
    {S : Type 0} {P : S → Type 0} (t : Bool) {a b : Turn S}
    → (t ≡ true → Keeps P a)
    → (t ≡ false → Keeps P b)
    → Keeps P (if t then a else b)
Keeps-if true h k = h refl
Keeps-if false h k = k refl

put_piece-Keeps :
    (s : Scan) (c : ℕ) → ScanFits s → s.y < 8 → Keeps ScanFits (put_piece s (cell_of_char c))
unfolding put_piece
put_piece-Keeps s c h lt = elim (Option-cases (cell_of_char c)) [
  | inl nothing ↦ rw nothing (failed (ground arith))
  | inr (v, found) ↦ rw found (
      next (record {
        next_cell = omega (arith, h.next_cell);
        in_row = omega arith;
        row_lt = h.row_lt;
        cells_good = write-GoodCells s.cells s.cur v (cell_of_char-valid c v found) h.cells_good;
      }))
]

-- A round keeps that, and the assertion after the last row holds.
pub cell_turn-Keeps : (s : Scan) (c : ℕ) → ScanFits s → Keeps ScanFits (cell_turn s c)
unfolding cell_turn
cell_turn-Keeps s c h =
    Keeps-if (leb 49 c && leb c 56)
      (λ digit.
        Keeps-if (leb (s.y + (c - 48)) 8)
          (λ fits. next (record {
            next_cell = omega (arith, h.next_cell);
            in_row = ground arith;
            row_lt = h.row_lt;
            cells_good = write_empty-GoodCells (c - 48) s.cur s.cells h.cells_good;
          }))
          λ over. failed (ground arith))
      λ no_digit.
        Keeps-if (c == 47)
          (λ slash.
            Keeps-if (not (s.y == 8)) (λ short. failed (ground arith))
              λ full.
                Keeps-if (ltb (s.x + 1) 8)
                  (λ more. next (record {
                    next_cell = ground (arith, h.next_cell);
                    in_row = omega arith;
                    row_lt = ground arith;
                    cells_good = h.cells_good;
                  }))
                  λ many. failed (ground arith))
          λ no_slash.
            Keeps-if (c == 32)
              (λ space.
                Keeps-if (not (s.y == 8)) (λ short. failed (ground arith))
                  λ full.
                    Keeps-if (not (s.x == 7)) (λ few. failed (ground arith))
                      λ last.
                        Keeps-if (s.cur == 64) (λ all. left)
                          λ wrong. absurd (ground (arith, h.next_cell)))
              λ letter.
                Keeps-if (not (ltb s.y 8)) (λ over. failed (ground arith))
                  λ room. put_piece-Keeps s c h (ground arith)
