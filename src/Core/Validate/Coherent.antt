-- ===== src/Core/Validate/Coherent.antt =====
-- What `validate` accepts it leaves in sync and coherent.
use sofcheck.Common.{
  ℕ, zero, suc, ◌<◌, ◌≡◌, ◌≢◌, ◌∙◌, ◌⊎◌, inl, inr, refl, sym, true, List, [], ◌∷◌, read, arith,
  length,
}
use sofcheck.Core.Types.{is_cell_valid}
use sofcheck.Core.Zobrist.{Zobrist}
use sofcheck.Core.Board.{Board, update}
use sofcheck.Core.Synced.{IsSynced}
use sofcheck.Core.Initial.{update-IsSynced}
use sofcheck.Core.Attacks.{MagicTables}
use sofcheck.Core.Coherent.{IsCoherent}
use sofcheck.Core.Validate.{
  ValidateResult, ok, all_cells_valid, check_data, check_updated, validate, validate_rest,
}
use sofcheck.Core.Validate.Updated.{RowKept, update-IsCoherent}

cell_valid_lt : (c : ℕ) → is_cell_valid c ≡ true → c < 15
unfolding is_cell_valid
cell_valid_lt c e = ground (arith, e)

read_valid : (cells : List ℕ) (i : ℕ) → all_cells_valid cells ≡ true → read cells i < 15
unfolding read
read_valid [] i e = omega arith
read_valid (c ∷ cells) zero e = cell_valid_lt c (ground arith)
read_valid (c ∷ cells) (suc i) e = read_valid cells i (ground arith)

check_data_lem : (b : Board) → check_data b ≡ ok → (all_cells_valid b.cells ≡ true) × RowKept b
unfolding check_data
check_data_lem b e = ground (arith, e)

ValidateResult-cases : (r : ValidateResult) → (r ≡ ok) ⊎ (r ≢ ok)
ValidateResult-cases ok = inl refl
ValidateResult-cases _ = inr (λ e. ground arith)

module _ (z : Zobrist) (t : MagicTables) where
  rest_result : (b : Board) (r : ValidateResult) → r ≢ ok → (validate_rest t z b r).1 ≡ r
  unfolding validate_rest
  rest_result b ok n = absurd (n refl)
  rest_result b _ n = refl

  rest_board : (b : Board) (r : ValidateResult) → r ≡ ok → (validate_rest t z b r).0 ≡ update z b
  unfolding validate_rest
  rest_board b ok e = refl
  rest_board b _ e = absurd (ground arith)

  rest_check :
      (b : Board) (r : ValidateResult)
      → r ≡ ok
      → (validate_rest t z b r).1 ≡ ok
      → check_updated t (validate_rest t z b r).0 ≡ ok
  unfolding validate_rest
  rest_check b ok e accepted = accepted
  rest_check b _ e accepted = absurd (ground arith)

  -- What `validate` accepts has passed the checks after `update`.
  pub validate-check_updated :
      (b : Board) → (validate t z b).1 ≡ ok → check_updated t (validate t z b).0 ≡ ok
  unfolding validate
  validate-check_updated b accepted = elim (ValidateResult-cases (check_data b)) [
    | inl fine ↦ rest_check b (check_data b) fine accepted
    | inr wrong ↦ absurd (wrong (sym (rest_result b (check_data b) wrong) ∙ accepted))
  ]

  -- A board of 64 cells that `validate` accepts is left in sync and coherent, whatever its derived
  -- fields, its castling flags and its passing pawn were.
  pub validate-IsCoherent :
      (b : Board)
      → length b.cells ≡ 64
      → (validate t z b).1 ≡ ok
      → IsSynced z (validate t z b).0 × IsCoherent (validate t z b).0
  unfolding validate
  validate-IsCoherent b size accepted = elim (ValidateResult-cases (check_data b)) [
    | inl fine ↦
        let (cells, row) = check_data_lem b fine in
        rw (rest_board b (check_data b) fine)
          (update-IsSynced z b (size, λ i. read_valid b.cells i cells), update-IsCoherent z b row)
    | inr wrong ↦ absurd (wrong (sym (rest_result b (check_data b) wrong) ∙ accepted))
  ]
