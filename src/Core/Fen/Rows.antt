-- ===== src/Core/Fen/Rows.antt =====
-- Reading back the rows of cells that `asFen` prints.
use mathlib.Core.List.{append-nil, append_assoc}
use sofcheck.Common.{
  ℕ, suc, zero, ◌+◌, ◌-◌, ◌<◌, ◌≤◌, ◌≡◌, ◌∙◌, sym, ap, refl, Bool, true, false, ◌&&◌, ◌||◌, not,
  leb, ltb, ◌==◌, ==_iff, none, some, List, [], ◌∷◌, ◌++◌, length, replicate, write, read, arith,
  all_to, all_to_sound, Bool-cases, inl, inr, Option-cases, All, length-append, length-replicate,
}
use sofcheck.Core.Types.{empty_cell, is_cell_valid}
use sofcheck.Core.Board.{Board}
use sofcheck.Core.Text.{cell_to_char}
use sofcheck.Core.Fen.{empty_digit, row_text}
use sofcheck.Core.Fen.Parse.{
  again, Scan, cell_turn, cell_of_char, put_piece, parse_cells, write_empty, piece_of_char,
}
use sofcheck.Util.Strutil.{ascii_to_lower}

-- Values written one after the other.
unfoldable pub put : ℕ → List ℕ → List ℕ → List ℕ
put i [] cells = cells
put i (v ∷ vs) cells = put (suc i) vs (write cells i v)

pub put-append :
    (i : ℕ) (us vs cells : List ℕ)
    → put i (us ++ vs) cells ≡ put (i + length us) vs (put i us cells)
unfolding put
put-append i [] vs cells = ap (λ k. put k vs cells) (omega arith)
put-append i (u ∷ us) vs cells =
    put-append (suc i) us vs (write cells i u)
    ∙ ap (λ k. put k vs (put (suc i) us (write cells i u))) (omega arith)

write_empty-put :
    (n i : ℕ) (cells : List ℕ) → write_empty n i cells ≡ put i (replicate n empty_cell) cells
unfolding write_empty put
write_empty-put zero i cells = refl
write_empty-put (suc n) i cells = write_empty-put n (suc i) (write cells i empty_cell)

-- The letter of a cell stands for it, and is no digit, slash or space.
decodes : ℕ → ℕ → Bool
decodes v c = elim (cell_of_char c) [ none ↦ false | some w ↦ w == v ]

letter_ok : ℕ → Bool
letter_ok v =
    let c = cell_to_char v in
    not (is_cell_valid v)
    || v == empty_cell
    || (not (leb 49 c && leb c 56) && not (c == 47) && not (c == 32) && decodes v c)

letters_ok : all_to 16 letter_ok ≡ true
unfolding all_to letter_ok cell_to_char is_cell_valid decodes cell_of_char ascii_to_lower
    piece_of_char read
letters_ok = refl

valid_lt : (v : ℕ) → is_cell_valid v ≡ true → v < 16
unfolding is_cell_valid
valid_lt v h = ground arith

decodes_lem : (v c : ℕ) → decodes v c ≡ true → cell_of_char c ≡ some v
unfolding decodes
decodes_lem v c h = elim (Option-cases (cell_of_char c)) [
  | inl nothing ↦ absurd (ground arith)
  | inr (w, e) ↦ let same : w ≡ v = ground arith in e ∙ ap some same
]

letter_turn :
    (s : Scan) (v : ℕ)
    → is_cell_valid v ≡ true
    → (v == empty_cell) ≡ false
    → s.y < 8
    → cell_turn s (cell_to_char v)
      ≡ again (record s { y = s.y + 1; cur = s.cur + 1; cells = write s.cells s.cur v })
unfolding cell_turn put_piece letter_ok
letter_turn s v valid some_piece lt =
    let ok = all_to_sound 16 letter_ok v letters_ok (valid_lt v valid) in
    let c = cell_to_char v in
    let no_digit : (leb 49 c && leb c 56) ≡ false = ground arith in
    let no_slash : (c == 47) ≡ false = ground arith in
    let no_space : (c == 32) ≡ false = ground arith in
    let in_row : ltb s.y 8 ≡ true = ground arith in
    let cell = decodes_lem v c (ground arith) in
    rw (no_digit, no_slash, no_space, in_row, cell) refl

digit_turn :
    (s : Scan) (n : ℕ)
    → s.y + suc n ≤ 8
    → cell_turn s (48 + suc n)
      ≡ again (record s {
        y = s.y + suc n;
        cur = s.cur + suc n;
        cells = put s.cur (replicate (suc n) empty_cell) s.cells;
      })
unfolding cell_turn
digit_turn s n le =
    let digit : (leb 49 (48 + suc n) && leb (48 + suc n) 56) ≡ true = ground arith in
    let value : 48 + suc n - 48 ≡ suc n = omega arith in
    let fits : leb (s.y + suc n) 8 ≡ true = ground arith in
    rw (digit, value, fits, write_empty-put (suc n) s.cur s.cells) refl

-- The state after a row's cells.
abbrev pub after_cells : Scan → List ℕ → Scan
after_cells s vs = record s {
  y = s.y + length vs;
  cur = s.cur + length vs;
  cells = put s.cur vs s.cells;
}

after_cells-nil : (s : Scan) → after_cells s [] ≡ s
unfolding put
after_cells-nil s =
    let y_same : s.y + 0 ≡ s.y = omega arith in
    let cur_same : s.cur + 0 ≡ s.cur = omega arith in
    λ i. record { x = s.x; y = y_same i; cur = cur_same i; cells = s.cells }

after_cells-append :
    (s : Scan) (us vs : List ℕ) → after_cells (after_cells s us) vs ≡ after_cells s (us ++ vs)
after_cells-append s us vs =
    let y_same : s.y + length us + length vs ≡ s.y + length (us ++ vs) =
      omega (arith, length-append us vs) in
    let cur_same : s.cur + length us + length vs ≡ s.cur + length (us ++ vs) =
      omega (arith, length-append us vs) in
    let cells_same = sym (put-append s.cur us vs s.cells) in
    λ i. record { x = s.x; y = y_same i; cur = cur_same i; cells = cells_same i }

module _ (b : Board) where
  pub parse_cells-again :
      (s s' : Scan) (c : ℕ) (rest : List ℕ)
      → cell_turn s c ≡ again s'
      → parse_cells b s (c ∷ rest) ≡ parse_cells b s' rest
  unfolding parse_cells
  parse_cells-again s s' c rest e = rw (parse_cells, e) refl

  parse_cells-digit :
      (n : ℕ) (s : Scan) (rest : List ℕ)
      → s.y + n ≤ 8
      → parse_cells b s (empty_digit n ++ rest)
        ≡ parse_cells b (after_cells s (replicate n empty_cell)) rest
  unfolding empty_digit
  parse_cells-digit zero s rest le = ap (λ t. parse_cells b t rest) (sym (after_cells-nil s))
  parse_cells-digit (suc n) s rest le =
      let one : length (replicate (suc n) empty_cell) ≡ suc n =
        length-replicate (suc n) empty_cell in
      parse_cells-again s (after_cells s (replicate (suc n) empty_cell)) (48 + suc n) rest (
        digit_turn s n le
        ∙ ap
            (λ k. again (record s {
              y = s.y + k;
              cur = s.cur + k;
              cells = put s.cur (replicate (suc n) empty_cell) s.cells;
            }))
            (sym one))

  parse_cells-letter :
      (v : ℕ) (s : Scan) (rest : List ℕ)
      → is_cell_valid v ≡ true
      → (v == empty_cell) ≡ false
      → s.y < 8
      → parse_cells b s (cell_to_char v ∷ rest) ≡ parse_cells b (after_cells s (v ∷ [])) rest
  unfolding put
  parse_cells-letter v s rest valid piece lt =
      parse_cells-again s (after_cells s (v ∷ [])) (cell_to_char v) rest
        (letter_turn s v valid piece lt)

replicate_cons : (n a : ℕ) (vs : List ℕ) → replicate n a ++ (a ∷ vs) ≡ a ∷ (replicate n a ++ vs)
replicate_cons zero a vs = refl
replicate_cons (suc n) a vs = ap (◌∷◌ a) (replicate_cons n a vs)

-- Reading a row writes its cells, the empty ones that wait before them.
pub parse_cells-row :
    (b : Board) (vs : List ℕ) (n : ℕ) (s : Scan) (rest : List ℕ)
    → All (λ v. is_cell_valid v ≡ true) vs
    → s.y + (n + length vs) ≤ 8
    → parse_cells b s (row_text n vs ++ rest)
      ≡ parse_cells b (after_cells s (replicate n empty_cell ++ vs)) rest
unfolding row_text
parse_cells-row b [] n s rest h le =
    parse_cells-digit b n s rest (omega arith)
    ∙ ap (λ us. parse_cells b (after_cells s us) rest) (sym (append-nil _))
parse_cells-row b (v ∷ vs) n s rest (hv, h) le =
    let empties = replicate n empty_cell in
    let count : length empties ≡ n = length-replicate n empty_cell in
    elim (Bool-cases (v == empty_cell)) [
      | inl empty ↦
          let same : v ≡ empty_cell = (==_iff v empty_cell).0 empty in
          rw empty (
            parse_cells-row b vs (suc n) s rest h (omega arith)
            ∙ ap (λ us. parse_cells b (after_cells s us) rest)
                (sym (replicate_cons n empty_cell vs) ∙ ap (λ a. empties ++ (a ∷ vs)) (sym same)))
      | inr piece ↦
          let s' = after_cells s empties in
          rw piece (
            ap (parse_cells b s)
              (append_assoc (empty_digit n) (cell_to_char v ∷ row_text 0 vs) rest)
            ∙ parse_cells-digit b n s _ (omega arith)
            ∙ parse_cells-letter b v s' _ hv piece (omega (arith, count))
            ∙ parse_cells-row b vs 0 (after_cells s' (v ∷ [])) rest h (omega (arith, count))
            ∙ ap (λ t. parse_cells b t rest)
                (after_cells-append s' (v ∷ []) vs ∙ after_cells-append s empties (v ∷ vs)))
    ]
