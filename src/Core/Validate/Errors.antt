-- ===== src/Core/Validate/Errors.antt =====
-- When `validate` reports bad data.
use sofcheck.Common.{
  ℕ, zero, suc, ◌+◌, ◌-◌, ◌/◌, ◌^◌, subst, ltb, List, [], ◌∷◌, All, ◌%◌, ◌<◌, ◌≤◌, ◌≡◌, ◌≢◌, ◌∙◌,
  ◌↔◌, ◌⊎◌, inl, inr, refl, sym, ap, Bool-cases, true, false, ◌&&◌, ◌==◌, ==_iff, bit_and, arith,
}
use sofcheck.Common.Bits.{
  test_bit, test_bit_ext, test_bit-and, test_bit_mask, test_bit_above, lt-pow_of_bits,
}
use sofcheck.Core.Bitboard.Shift.{test_bit-mod}
use sofcheck.Core.Types.{
  Color, white, black, Piece, pawn, king, knight, bishop, rook, queen, color_offset, piece_code,
  make_cell, make_coord, is_cell_valid, invalid_coord, castling_all,
}
use sofcheck.Core.Text.Trip.{make_coord_sum}
use sofcheck.Core.Zobrist.{Zobrist}
use sofcheck.Core.Board.{Board, update}
use sofcheck.Core.Attacks.{MagicTables}
use sofcheck.Core.Validate.{
  ValidateResult, ok, bad_data, all_cells_valid, check_data, check_updated, validate, validate_rest,
}

-- What a cell may hold: nothing, or a piece of a colour.
pub data KnownCell : ℕ → Type 0 where
  nothing : KnownCell 0
  piece : (c : Color) (p : Piece) → KnownCell (make_cell c p)

-- The data that `validate` accepts as such: known cells, no flags but the four of castling, and no
-- passing pawn or one on the board.
pub record GoodData (b : Board) : Type 0 where
  pub cells : All KnownCell b.cells
  pub flags : (i : ℕ) → test_bit b.castling i ≡ true → i < 4
  pub passing :
      (b.enpassant_coord ≡ invalid_coord)
      ⊎ ((x : ℕ) × (y : ℕ) × (x < 8) × (y < 8) × (b.enpassant_coord ≡ make_coord x y))

KnownCell-valid : (c : ℕ) → KnownCell c → is_cell_valid c ≡ true
unfolding is_cell_valid
KnownCell-valid c nothing = refl
KnownCell-valid c (piece white pawn) = refl
KnownCell-valid c (piece white king) = refl
KnownCell-valid c (piece white knight) = refl
KnownCell-valid c (piece white bishop) = refl
KnownCell-valid c (piece white rook) = refl
KnownCell-valid c (piece white queen) = refl
KnownCell-valid c (piece black pawn) = refl
KnownCell-valid c (piece black king) = refl
KnownCell-valid c (piece black knight) = refl
KnownCell-valid c (piece black bishop) = refl
KnownCell-valid c (piece black rook) = refl
KnownCell-valid c (piece black queen) = refl

-- The piece with a number below 6.
piece_of : (n : ℕ) → n < 6 → (p : Piece) × (piece_code p ≡ n)
piece_of zero lt = (pawn, refl)
piece_of (suc zero) lt = (king, refl)
piece_of (suc (suc zero)) lt = (knight, refl)
piece_of (suc (suc (suc zero))) lt = (bishop, refl)
piece_of (suc (suc (suc (suc zero)))) lt = (rook, refl)
piece_of (suc (suc (suc (suc (suc zero))))) lt = (queen, refl)
piece_of (suc (suc (suc (suc (suc (suc n)))))) lt = absurd (omega arith)

known_at : (c : ℕ) (a : Color) → color_offset a ≤ c → c < color_offset a + 6 → KnownCell c
known_at c a low high =
    let (p, e) = piece_of (c - color_offset a) (omega arith) in
    subst KnownCell (omega (arith, e)) (piece a p)

valid-KnownCell : (c : ℕ) → is_cell_valid c ≡ true → KnownCell c
unfolding is_cell_valid
valid-KnownCell c e =
    let kinds : (c ≡ 0) ⊎ ((1 ≤ c) × (c < 7)) ⊎ ((9 ≤ c) × (c < 15)) = ground (arith, e) in
    elim kinds [
      | inl none ↦ subst KnownCell (sym none) nothing
      | inr some ↦ elim some [ inl w ↦ known_at c white w.0 w.1 | inr k ↦ known_at c black k.0 k.1 ]
    ]

cells_known : (cells : List ℕ) → (all_cells_valid cells ≡ true) ↔ All KnownCell cells
cells_known [] = (λ e. tt, λ h. refl)
cells_known (c ∷ cells) =
    let (there, back) = cells_known cells in
    (
      λ e. (valid-KnownCell c (ground (arith, e)), there (ground (arith, e))),
      λ h. ground (arith, KnownCell-valid c h.0, back h.1),
    )

low_bits : (c : ℕ) → bit_and c 15 ≡ c % 16
low_bits c = test_bit_ext _ _ λ i.
    test_bit-and i c 15
    ∙ ap (λ e. test_bit c i && e) (test_bit_mask 4 i)
    ∙ (ground arith)
    ∙ sym (test_bit-mod 4 c i)

known_flags :
    (c : ℕ) → ((bit_and c castling_all == c) ≡ true) ↔ ((i : ℕ) → test_bit c i ≡ true → i < 4)
known_flags c = (
  λ e i set. elim (Bool-cases (ltb i 4)) [
    | inl lt ↦ ground (arith, lt)
    | inr far ↦ absurd (
        ground
          (arith, far, set, test_bit_above 4 i c (omega (arith, low_bits c, (==_iff _ c).0 e))))
  ],
  λ four.
      let lt : c < 2 ^ 4 = lt-pow_of_bits 4 c (λ i le. elim (Bool-cases (test_bit c i)) [
        | inl set ↦ absurd (omega (arith, four i set))
        | inr clear ↦ clear
      ]) in
      (==_iff _ c).1 (omega (arith, low_bits c)),
)

-- The coordinates of a cell on the board.
on_board : (e : ℕ) → (e < 64) ↔ ((x : ℕ) × (y : ℕ) × (x < 8) × (y < 8) × (e ≡ make_coord x y))
on_board e = (
  λ lt. (
    e / 8,
    e % 8,
    omega arith,
    omega arith,
    omega (arith, make_coord_sum (e / 8) (e % 8) (omega arith)),
  ),
  λ p. let (x, y, lx, ly, q) = p in omega (arith, q, make_coord_sum x y ly),
)

module _ (b : Board) where
  good_passes : GoodData b → check_data b ≢ bad_data
  unfolding check_data
  good_passes g e =
      let near : (b.enpassant_coord ≡ invalid_coord) ⊎ (b.enpassant_coord < 64) = elim g.passing [
        | inl absent ↦ inl absent
        | inr there ↦ inr ((on_board b.enpassant_coord).1 there)
      ] in
      ground (arith, e, (cells_known b.cells).1 g.cells, (known_flags b.castling).1 g.flags, near)

  bad_fails : (¬ GoodData b) → check_data b ≡ bad_data
  unfolding check_data
  bad_fails n = elim (Bool-cases (all_cells_valid b.cells)) [
    | inr cells ↦ rw cells refl
    | inl cells ↦ elim (Bool-cases (bit_and b.castling castling_all == b.castling)) [
      | inr flags ↦ rw (cells, flags) refl
      | inl flags ↦
          let known = (cells_known b.cells).0 cells in
          let lt = (known_flags b.castling).0 flags in
          let far : 64 ≤ b.enpassant_coord =
            let where_is : (b.enpassant_coord < 64) ⊎ (64 ≤ b.enpassant_coord) = omega arith in
            elim where_is [
              | inl near ↦ absurd (
                  n (record {
                    cells = known;
                    flags = lt;
                    passing = inr ((on_board b.enpassant_coord).0 near);
                  }))
              | inr out ↦ out
            ] in
          let some_pawn : (b.enpassant_coord == invalid_coord) ≡ false =
            elim (Bool-cases (b.enpassant_coord == invalid_coord)) [
              | inl absent ↦
                  absurd (
                    n (record { cells = known; flags = lt; passing = inl ((==_iff _ _).0 absent) }))
              | inr there ↦ there
            ] in
          ground arith
    ]
  ]

module _ (z : Zobrist) (t : MagicTables) where
  check_updated-data : (b : Board) → check_updated t b ≢ bad_data
  unfolding check_updated
  check_updated-data b e = ground (arith, e)

  rest_bad_data :
      (b : Board) (r : ValidateResult) → (validate_rest t z b r).1 ≡ bad_data → r ≡ bad_data
  unfolding validate_rest
  rest_bad_data b ok e = absurd (check_updated-data (update z b) e)
  rest_bad_data b _ e = e

  bad_data_rest :
      (b : Board) (r : ValidateResult) → r ≡ bad_data → (validate_rest t z b r).1 ≡ bad_data
  unfolding validate_rest
  bad_data_rest b ok e = absurd (ground arith)
  bad_data_rest b _ e = e

  -- `validate` reports bad data exactly if a cell is not empty and holds no piece of a colour, a bit is
  -- set that is none of the four castling flags, or there is a passing pawn without a row and a column
  -- on the board.
  pub validate-bad_data : (b : Board) → ((validate t z b).1 ≡ bad_data) ↔ (¬ GoodData b)
  unfolding validate
  validate-bad_data b = (
    λ e g. good_passes b g (rest_bad_data b (check_data b) e),
    λ n. bad_data_rest b (check_data b) (bad_fails b n),
  )
