-- ===== src/Core/Draw/Exact.antt =====
-- The positions that `isBoardDrawInsufficientMaterial` accepts.
use sofcheck.Common.{
  ℕ, ◌^◌, ◌<◌, ◌≡◌, ◌≢◌, ◌∙◌, ◌↔◌, ◌⊎◌, inl, inr, sym, ap, Bool-cases, true, false, ◌&&◌, ◌||◌, not,
  ltb, ◌==◌, bit_and, read, arith, all_to_sound,
}
use sofcheck.Common.Bits.{
  test_bit, test_bit-zero, test_bit-pow, test_bit_ext, lt-pow_of_bits, disjoint_bit, and_bit_left,
  and_bit_right, bit_and_lt,
}
use sofcheck.Util.Bit.{popcount}
use sofcheck.Util.Bit.Count.{popcount-one}
use sofcheck.Util.Bit.Lowest.{some-IsLowest}
use sofcheck.Core.Types.{knight, bishop}
use sofcheck.Core.Zobrist.{Zobrist}
use sofcheck.Core.Board.{Board}
use sofcheck.Core.Synced.{IsSynced}
use sofcheck.Core.Draw.{
  both, bb_no_kings, bb_cells_white, bb_cells_black, is_board_draw_insufficient_material,
  no_kings-bit, both-bit,
}
use sofcheck.Core.Draw.Shades.{
  is_of, is_bare, shade, IsInsufficient, shaded_lem, dark, light, single, single_cells,
}

module _ (z : Zobrist) (b : Board) (h : IsSynced z b) where
  abbrev rest : ℕ
  rest = bb_no_kings b

  abbrev knights : ℕ
  knights = both b 3 11

  abbrev bishops : ℕ
  bishops = both b 4 12

  knights-bit : (i : ℕ) → test_bit knights i ≡ (ltb i 64 && is_of knight (read b.cells i))
  knights-bit i = both-bit z b h i 3 11 (omega arith) (omega arith) (omega arith) (omega arith)

  bishops-bit : (i : ℕ) → test_bit bishops i ≡ (ltb i 64 && is_of bishop (read b.cells i))
  bishops-bit i = both-bit z b h i 4 12 (omega arith) (omega arith) (omega arith) (omega arith)

  rest-bit : (i : ℕ) → test_bit rest i ≡ (ltb i 64 && not (is_bare (read b.cells i)))
  rest-bit i = no_kings-bit z b h i ∙ ground arith

  rest_lt : rest < 2 ^ 64
  rest_lt = lt-pow_of_bits 64 rest (λ i le. rest-bit i ∙ ground arith)

  knights_lt : knights < 2 ^ 64
  knights_lt = lt-pow_of_bits 64 knights (λ i le. knights-bit i ∙ ground arith)

  -- What the code asks, in this order.
  accepted :
      is_board_draw_insufficient_material b ≡ true
      → (rest ≡ 0)
        ⊎ ((rest ≡ knights) × (popcount knights ≡ 1))
        ⊎ ((rest ≡ bishops)
            × (((bit_and rest bb_cells_white == 0) ≡ true)
                ⊎ ((bit_and rest bb_cells_black == 0) ≡ true)))
  unfolding is_board_draw_insufficient_material
  accepted e = ground (arith, e)

  bishop_rest : (i : ℕ) → i < 64 → is_of bishop (read b.cells i) ≡ true → test_bit rest i ≡ true
  bishop_rest i lt e = rest-bit i ∙ ground (arith, e)

  nothing_left : rest ≡ 0 → IsInsufficient b.cells
  nothing_left e =
      let clear : (i : ℕ) → test_bit rest i ≡ false =
        λ i. ap (λ x. test_bit x i) e ∙ test_bit-zero i in
      inr (
        λ i lt. ground (arith, rest-bit i, clear i),
        λ i j li lj bi bj. absurd (ground (arith, bishop_rest i li bi, clear i)),
      )

  one_knight : rest ≡ knights → popcount knights ≡ 1 → IsInsufficient b.cells
  one_knight e one =
      let (k, p) = popcount-one knights knights_lt one in
      let bits : (i : ℕ) → test_bit knights i ≡ (k == i) =
        λ i. ap (λ x. test_bit x i) p ∙ test_bit-pow k i in
      inl (
        k,
        ground (arith, bits k, knights-bit k),
        ground (arith, bits k, knights-bit k),
        λ i lt ne. ground (arith, rest-bit i, ap (λ x. test_bit x i) e, bits i),
      )

  all_bishops :
      rest ≡ bishops
      → ((bit_and rest bb_cells_white == 0) ≡ true) ⊎ ((bit_and rest bb_cells_black == 0) ≡ true)
      → IsInsufficient b.cells
  all_bishops e guard = inr (
    λ i lt. ground (arith, rest-bit i, ap (λ x. test_bit x i) e, bishops-bit i),
    λ i j li lj bi bj. elim guard [
      | inl none ↦
          let ei = disjoint_bit rest bb_cells_white i none in
          let ej = disjoint_bit rest bb_cells_white j none in
          dark i li (ground (arith, ei, bishop_rest i li bi))
          ∙ sym (dark j lj (ground (arith, ej, bishop_rest j lj bj)))
      | inr none ↦
          let ei = disjoint_bit rest bb_cells_black i none in
          let ej = disjoint_bit rest bb_cells_black j none in
          light i li (ground (arith, ei, bishop_rest i li bi))
          ∙ sym (light j lj (ground (arith, ej, bishop_rest j lj bj)))
    ],
  )

  accepts :
      ((bit_and rest bb_cells_white == 0) ≡ true) ⊎ ((bit_and rest bb_cells_black == 0) ≡ true)
      → ((rest ≡ knights) × (popcount knights ≡ 1)) ⊎ (rest ≡ bishops)
      → is_board_draw_insufficient_material b ≡ true
  unfolding is_board_draw_insufficient_material
  accepts guard kind = ground (arith, guard, kind)

  one_knight-accepts :
      (k : ℕ)
      → k < 64
      → is_of knight (read b.cells k) ≡ true
      → ((i : ℕ) → i < 64 → i ≢ k → is_bare (read b.cells i) ≡ true)
      → is_board_draw_insufficient_material b ≡ true
  one_knight-accepts k lt at others =
      let one : rest ≡ 2 ^ k =
        test_bit_ext _ _
          λ i. rest-bit i ∙ (ground (arith, at, others i)) ∙ sym (test_bit-pow k i) in
      let same : knights ≡ 2 ^ k =
        test_bit_ext _ _
          λ i. knights-bit i ∙ (ground (arith, at, others i)) ∙ sym (test_bit-pow k i) in
      let facts = all_to_sound 64 single k single_cells lt in
      accepts (rw one (ground (arith, facts)))
        (inl (one ∙ sym same, rw same (ground (arith, facts))))

  bishops-accepts :
      ((i : ℕ) → i < 64 → (is_bare (read b.cells i) || is_of bishop (read b.cells i)) ≡ true)
      → ((i j : ℕ)
          → i < 64
          → j < 64
          → is_of bishop (read b.cells i) ≡ true
          → is_of bishop (read b.cells j) ≡ true
          → shade i ≡ shade j)
      → is_board_draw_insufficient_material b ≡ true
  bishops-accepts only same =
      let e : rest ≡ bishops =
        test_bit_ext _ _ λ i. rest-bit i ∙ (ground (arith, only i)) ∙ sym (bishops-bit i) in
      let bishop_at : (m i : ℕ)
          → test_bit (bit_and rest m) i ≡ true
          → is_of bishop (read b.cells i) ≡ true =
        λ m i set.
          ground (arith, and_bit_left rest m i set, ap (λ x. test_bit x i) e, bishops-bit i) in
      elim (Bool-cases (bit_and rest bb_cells_white == 0)) [
        | inl no_light ↦ accepts (inl no_light) (inr e)
        | inr some_light ↦ elim (Bool-cases (bit_and rest bb_cells_black == 0)) [
          | inl no_dark ↦ accepts (inr no_dark) (inr e)
          | inr some_dark ↦
              let (i, li, hi) =
                some-IsLowest 64 (bit_and rest bb_cells_white) (ground (arith, some_light))
                  (bit_and_lt 64 rest bb_cells_white rest_lt) in
              let (j, lj, hj) =
                some-IsLowest 64 (bit_and rest bb_cells_black) (ground (arith, some_dark))
                  (bit_and_lt 64 rest bb_cells_black rest_lt) in
              let together = same i j li lj (bishop_at _ i hi.is_set) (bishop_at _ j hj.is_set) in
              absurd (
                ground (
                  arith,
                  together,
                  shaded_lem i li,
                  shaded_lem j lj,
                  and_bit_right rest bb_cells_white i hi.is_set,
                  and_bit_right rest bb_cells_black j hj.is_set,
                ))
        ]
      ]

  -- A position in sync counts as a draw by insufficient material exactly if, besides empty cells and
  -- kings, it has one knight and nothing else, or nothing but bishops that all stand on cells of one
  -- shade, of which there may be none.
  pub draw_insufficient_material_lem :
      (is_board_draw_insufficient_material b ≡ true) ↔ IsInsufficient b.cells
  draw_insufficient_material_lem = (
    λ draw. elim (accepted draw) [
      | inl empty ↦ nothing_left empty
      | inr some ↦ elim some [
        | inl one ↦ one_knight one.0 one.1
        | inr alike ↦ all_bishops alike.0 alike.1
      ]
    ],
    λ few. elim few [
      | inl one ↦ one_knight-accepts one.0 one.1 one.2 one.3
      | inr alike ↦ bishops-accepts alike.0 alike.1
    ],
  )
