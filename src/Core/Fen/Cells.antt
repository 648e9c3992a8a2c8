-- ===== src/Core/Fen/Cells.antt =====
-- Reading back all the cells that `asFen` prints.
use mathlib.Core.List.{append_assoc}
use sofcheck.Common.{
  ℕ, suc, zero, ◌+◌, ◌<◌, ◌≤◌, ◌≡◌, ◌∙◌, sym, ap, refl, true, false, ◌==◌, ltb, List, [], ◌∷◌, ◌++◌,
  length, length-append, read, write, arith, All, concat_map,
}
use sofcheck.Core.Types.{is_cell_valid, make_coord}
use sofcheck.Core.Board.{Board}
use sofcheck.Core.Fen.{eight, row_text, row_cells, rows_text}
use sofcheck.Core.Fen.Parse.{goes_on, again, Scan, cell_turn, parse_cells}
use sofcheck.Core.Fen.Rows.{put, put-append, after_cells, parse_cells-row, parse_cells-again}

write_at : (us ws : List ℕ) (w v : ℕ) → write (us ++ (w ∷ ws)) (length us) v ≡ us ++ (v ∷ ws)
unfolding write
write_at [] ws w v = refl
write_at (u ∷ us) ws w v = ap (◌∷◌ u) (write_at us ws w v)

put_all : (us vs ws : List ℕ) → length vs ≡ length ws → put (length us) vs (us ++ ws) ≡ us ++ vs
unfolding put
put_all us [] [] e = refl
put_all us [] (w ∷ ws) e = absurd (omega arith)
put_all us (v ∷ vs) [] e = absurd (omega arith)
put_all us (v ∷ vs) (w ∷ ws) e =
    let next : suc (length us) ≡ length (us ++ (v ∷ [])) =
      omega (arith, length-append us (v ∷ [])) in
    ap (put (suc (length us)) vs) (write_at us ws w v ∙ sym (append_assoc us (v ∷ []) ws))
    ∙ ap (λ k. put k vs (us ++ (v ∷ []) ++ ws)) next
    ∙ put_all (us ++ (v ∷ [])) vs ws (omega (arith, e))
    ∙ append_assoc us (v ∷ []) vs

reads : ℕ → ℕ → List ℕ → List ℕ
reads zero i xs = []
reads (suc n) i xs = read xs i ∷ reads n (suc i) xs

reads-suc : (n i x : ℕ) (xs : List ℕ) → reads n (suc i) (x ∷ xs) ≡ reads n i xs
unfolding reads read
reads-suc zero i x xs = refl
reads-suc (suc n) i x xs = ap (◌∷◌ (read xs i)) (reads-suc n (suc i) x xs)

reads_all : (xs : List ℕ) → reads (length xs) 0 xs ≡ xs
unfolding reads read
reads_all [] = refl
reads_all (x ∷ xs) = ap (◌∷◌ x) (reads-suc (length xs) 0 x xs ∙ reads_all xs)

-- The eight rows are all the cells.
rows_cells : (cells : List ℕ) → length cells ≡ 64 → concat_map (row_cells cells) eight ≡ cells
unfolding make_coord reads
rows_cells cells e =
    let in_order : concat_map (row_cells cells) eight ≡ reads 64 0 cells = refl in
    in_order ∙ ap (λ n. reads n 0 cells) (sym e) ∙ reads_all cells

abbrev later_rows : List ℕ
later_rows = 1 ∷ 2 ∷ 3 ∷ 4 ∷ 5 ∷ 6 ∷ 7 ∷ []

module _ (b : Board) (cells : List ℕ) (valid : (i : ℕ) → is_cell_valid (read cells i) ≡ true) where
  row-valid : (i : ℕ) → All (λ v. is_cell_valid v ≡ true) (row_cells cells i)
  row-valid i =
      (valid _, (valid _, (valid _, (valid _, (valid _, (valid _, (valid _, (valid _, tt))))))))

  -- The state after these cells, some rows further down.
  abbrev below : ℕ → Scan → List ℕ → Scan
  below k s vs = record {
    x = s.x + k;
    y = s.y;
    cur = s.cur + length vs;
    cells = put s.cur vs s.cells;
  }

  slash_turn :
      (s : Scan) → s.y ≡ 8 → s.x < 7 → cell_turn s 47 ≡ again (record s { x = s.x + 1; y = 0 })
  unfolding cell_turn
  slash_turn s full lt = let more : ltb (s.x + 1) 8 ≡ true = ground arith in rw (full, more) refl

  below-nil : (s : Scan) → s ≡ below 0 s []
  unfolding put
  below-nil s =
      let x_same : s.x ≡ s.x + 0 = omega arith in
      let cur_same : s.cur ≡ s.cur + 0 = omega arith in
      λ i. record { x = x_same i; y = s.y; cur = cur_same i; cells = s.cells }

  -- A slash and a row, and what comes below.
  below-append :
      (k : ℕ) (s : Scan) (us vs : List ℕ)
      → s.y ≡ length us
      → below k (after_cells (record s { x = s.x + 1; y = 0 }) us) vs ≡ below (suc k) s (us ++ vs)
  below-append k s us vs full =
      let x_same : s.x + 1 + k ≡ s.x + suc k = omega arith in
      let y_same : 0 + length us ≡ s.y = omega (arith, full) in
      let cur_same : s.cur + length us + length vs ≡ s.cur + length (us ++ vs) =
        omega (arith, length-append us vs) in
      let cells_same = sym (put-append s.cur us vs s.cells) in
      λ i. record { x = x_same i; y = y_same i; cur = cur_same i; cells = cells_same i }

  parse_cells-rows :
      (rows : List ℕ) (s : Scan) (rest : List ℕ)
      → All (λ i. (i == 0) ≡ false) rows
      → s.y ≡ 8
      → s.x + length rows ≤ 7
      → parse_cells b s (rows_text cells rows ++ rest)
        ≡ parse_cells b (below (length rows) s (concat_map (row_cells cells) rows)) rest
  unfolding rows_text
  parse_cells-rows [] s rest h full le = ap (λ t. parse_cells b t rest) (below-nil s)
  parse_cells-rows (i ∷ rows) s rest (later, h) full le =
      let row = row_cells cells i in
      let s₁ = record s { x = s.x + 1; y = 0 } in
      let text = row_text 0 row in
      let more = rows_text cells rows in
      rw later (
        parse_cells-again b s s₁ 47 (text ++ more ++ rest) (slash_turn s full (omega arith))
        ∙ ap (parse_cells b s₁) (append_assoc text more rest)
        ∙ parse_cells-row b row 0 s₁ (more ++ rest) (row-valid i) (omega arith)
        ∙ parse_cells-rows rows (after_cells s₁ row) rest h refl (omega arith)
        ∙ ap (λ t. parse_cells b t rest)
            (below-append (length rows) s row (concat_map (row_cells cells) rows) full))

  parse_cells-space :
      (s : Scan) (rest : List ℕ)
      → s.x ≡ 7
      → s.y ≡ 8
      → s.cur ≡ 64
      → parse_cells b s (32 ∷ rest) ≡ goes_on (record b { cells = s.cells }) rest
  unfolding parse_cells cell_turn
  parse_cells-space s rest ex ey ec = rw (parse_cells, ex, ey, ec) refl

  first_row : rows_text cells eight ≡ row_text 0 (row_cells cells 0) ++ rows_text cells later_rows
  unfolding rows_text
  first_row = refl

  -- The cells that `asFen` prints are read back, over any cells that were there.
  pub parse_cells-rows_text :
      (old rest : List ℕ)
      → length old ≡ 64
      → length cells ≡ 64
      → parse_cells b
          (record { x = 0; y = 0; cur = 0; cells = old })
          (rows_text cells eight ++ (32 ∷ rest))
        ≡ goes_on (record b { cells = cells }) rest
  parse_cells-rows_text old rest old_length new_length =
      let row = row_cells cells 0 in
      let below_it = concat_map (row_cells cells) later_rows in
      let s : Scan = record { x = 0; y = 0; cur = 0; cells = old } in
      let s₁ = after_cells s row in
      let same_cells : put 8 below_it (put 0 row old) ≡ cells =
        sym (put-append 0 row below_it old)
        ∙ put_all [] (row ++ below_it) old (sym old_length)
        ∙ rows_cells cells new_length in
      ap (λ t. parse_cells b s (t ++ (32 ∷ rest))) first_row
      ∙ ap (parse_cells b s)
          (append_assoc (row_text 0 row) (rows_text cells later_rows) (32 ∷ rest))
      ∙ parse_cells-row b row 0 s _ (row-valid 0) (omega arith)
      ∙ parse_cells-rows later_rows s₁ (32 ∷ rest)
          (refl, (refl, (refl, (refl, (refl, (refl, (refl, tt))))))) refl (omega arith)
      ∙ parse_cells-space (below 7 s₁ below_it) rest refl refl refl
      ∙ ap (λ cs. goes_on (record b { cells = cs }) rest) same_cells
