-- ===== src/Search/MovePicker/Tests.antt =====
-- The picker of the first position, with an insertion sort for `std::sort`.
use sofcheck.Common.{
  ℕ, zero, suc, ◌+◌, ◌≤◌, ◌≡◌, refl, Bool, Bool-cases, inl, inr, ltb, if◌then◌else◌, List, [], ◌∷◌,
  ◌++◌, length, replicate, arith, All, All-map, for_below, read, write,
}
use sofcheck.Common.Bits.{test_bit}
use sofcheck.Common.{bit_not}
use sofcheck.Core.Types.{
  make_coord, coord_x, coord_y, coord_diag1, coord_diag2, coord_to_bitboard, bitboard_has_bit,
}
use sofcheck.Core.Board.{
  is_kingside_castling, is_queenside_castling, update_enpassant, update_castling_of,
  add_to_bitboards, compute_bitboards, update_bitboards, update,
}
use sofcheck.Core.Bitboard.{
  advance_pawn_forward, advance_pawn_left, advance_pawn_right, build_magic_rook_mask,
  build_magic_rook_post_mask, build_magic_bishop_mask, build_magic_bishop_post_mask,
}
use sofcheck.Core.Attacks.{
  directed, generate_directed, knight_attacks, king_attacks, pawn_attacks, lt_mask, gt_mask,
  between_ordered, between, do_attack_bitboard, masked_attack_bitboard, magic_rook, magic_bishop,
  rook_attack_bitboard, rook_attack_masked, bishop_attack_bitboard, bishop_attack_masked,
}
use sofcheck.Core.MoveGen.{
  bb_diag_pieces, bb_line_pieces, king_pos, is_cell_attacked, cell_attackers,
}
use sofcheck.Core.MoveGen.Pawns.{
  filter_dst, add_pawn_with_promote, do_gen_pawn_single, do_gen_pawn_double, do_gen_pawn_capture,
  gen_pawn_simple, gen_pawn_capture, gen_pawn_enpassant,
}
use sofcheck.Core.MoveGen.Pieces.{
  get_allowed_mask, gen_steps, gen_knight, gen_king, gen_bishop, gen_rook, gen_castling_kingside,
  gen_castling_queenside, gen_castling,
}
use sofcheck.Core.MoveGen.Gen.{
  new_move_gen, gen_impl_inner, gen_checked, gen_impl, gen_promotes_checked, gen_captures,
  gen_simple_moves_no_promote, gen_simple_promotes,
}
use sofcheck.Util.Bit.{
  has_zero_or_one_bit, clear_lowest, lowest_index, de_bruijn, get_lowest, extract_all, bits_of,
}
use sofcheck.Core.Initial.{initial_cells, set_initial_position}
use sofcheck.Core.Move.{as_uint, move_eq}
use sofcheck.Core.Tests.{keys, start, opening, start-IsSynced}
use sofcheck.Core.Attacks.{MagicTables}
use sofcheck.Core.Move.{Move}
use sofcheck.Core.MoveGen.Tests.{start-IsCoherent, start-OneKing}
use sofcheck.Core.Move.{null_move, invalid_move}
use sofcheck.Search.MovePicker.{
  Memory, at_end, new_move_picker, next, after_calls, given, sort_mvv_lva, sort_promotes,
}
use sofcheck.Search.MovePicker.Complete.{HasAll, HasHash}
use sofcheck.Search.MovePicker.Covers.{KillersFit}
use sofcheck.Search.MovePicker.Given.{given-HasAll}
use sofcheck.Search.MovePicker.Ends.{calls-AtEnd}
use sofcheck.Search.MovePicker.Sound.{MayCome, given-MayCome}
use sofcheck.Search.Quiescence.{given_quiet, new_quiescense_move_picker, given_quiet_lem}
use sofcheck.Search.Sort.{
  StdSort, Rearranged, nil, cons, swap, trans, greater, Descends, Rearranged-All,
}

module _ (lt : Move → Move → Bool) where
  insert_before : Move → List Move → List Move
  insert_before m [] = m ∷ []
  insert_before m (n ∷ ns) =
      let rest = insert_before m ns in if lt n m then n ∷ rest else m ∷ n ∷ ns

  insertion_sort : List Move → List Move
  insertion_sort [] = []
  insertion_sort (m ∷ ms) = insert_before m (insertion_sort ms)

  unchanged : (ms : List Move) → Rearranged ms ms
  unchanged [] = nil
  unchanged (m ∷ ms) = cons (unchanged ms)

  insert-Rearranged : (m : Move) (ms : List Move) → Rearranged (m ∷ ms) (insert_before m ms)
  unfolding insert_before
  insert-Rearranged m [] = cons nil
  insert-Rearranged m (n ∷ ns) = elim (Bool-cases (lt n m)) [
    | inl e ↦ rw e (trans swap (cons (insert-Rearranged m ns)))
    | inr e ↦ rw e (unchanged (m ∷ n ∷ ns))
  ]

  sorts-Rearranged : (ms : List Move) → Rearranged ms (insertion_sort ms)
  unfolding insertion_sort
  sorts-Rearranged [] = nil
  sorts-Rearranged (m ∷ ms) =
      trans (cons (sorts-Rearranged ms)) (insert-Rearranged m (insertion_sort ms))

module _ (key : Move → ℕ) where
  insert-Descends :
      (m : Move) (ms : List Move)
      → Descends key ms
      → Descends key (insert_before (greater key) m ms)
  unfolding insert_before
  insert-Descends m [] h = (tt, tt)
  insert-Descends m (n ∷ ns) (hn, h) = elim (Bool-cases (ltb (key m) (key n))) [
    | inl e ↦ rw e (
      Rearranged-All (λ k. key k ≤ key n) (insert-Rearranged (greater key) m ns) (ground arith, hn),
      insert-Descends m ns h,
    )
    | inr e ↦
        let le : key n ≤ key m = ground arith in
        rw e ((le, All-map (λ k below. omega (arith, le, below)) ns hn), (hn, h))
  ]

  sorts-Descends : (ms : List Move) → Descends key (insertion_sort (greater key) ms)
  unfolding insertion_sort
  sorts-Descends [] = tt
  sorts-Descends (m ∷ ms) = insert-Descends m _ (sorts-Descends ms)

abbrev insertion : StdSort
insertion = record {
  sort = insertion_sort;
  sort-Rearranged = λ key ms. sorts-Rearranged (greater key) ms;
  sort-Descends = λ key ms. sorts-Descends key ms;
}

-- In the first position no bishop, rook or queen can move.
abbrev shut : MagicTables
shut = record {
  rook_magics = λ c. 1;
  rook_shifts = λ c. 58;
  bishop_magics = λ c. 1;
  bishop_shifts = λ c. 58;
  rook_lookup = λ c i. 0;
  bishop_lookup = λ c i. 0;
}

-- Twenty quiet moves, and three for the hash move and the killers.
start_count :
    let g = new_move_gen shut start in
    3
      + length (gen_captures shut g)
      + length (gen_simple_promotes shut g)
      + length (gen_simple_moves_no_promote shut g)
    ≡ 23
unfolding test_bit read write bit_not for_below make_coord coord_x coord_y coord_diag1 coord_diag2
    coord_to_bitboard bitboard_has_bit is_kingside_castling is_queenside_castling update_enpassant
    update_castling_of add_to_bitboards compute_bitboards update_bitboards update
    advance_pawn_forward advance_pawn_left advance_pawn_right build_magic_rook_mask
    build_magic_rook_post_mask build_magic_bishop_mask build_magic_bishop_post_mask directed
    generate_directed knight_attacks king_attacks pawn_attacks lt_mask gt_mask between_ordered
    between do_attack_bitboard masked_attack_bitboard magic_rook magic_bishop rook_attack_bitboard
    rook_attack_masked bishop_attack_bitboard bishop_attack_masked bb_diag_pieces bb_line_pieces
    king_pos is_cell_attacked cell_attackers filter_dst add_pawn_with_promote do_gen_pawn_single
    do_gen_pawn_double do_gen_pawn_capture gen_pawn_simple gen_pawn_capture gen_pawn_enpassant
    get_allowed_mask gen_steps gen_knight gen_king gen_bishop gen_rook gen_castling_kingside
    gen_castling_queenside gen_castling new_move_gen gen_impl_inner gen_checked gen_impl
    gen_promotes_checked gen_captures gen_simple_moves_no_promote gen_simple_promotes
    has_zero_or_one_bit clear_lowest lowest_index de_bruijn get_lowest extract_all bits_of
    initial_cells set_initial_position as_uint move_eq
start_count = refl

-- The first pawn move is the hash move and the first killer.
abbrev memory : Memory
memory = record { killers = record { first = opening; second = null_move }; history = 3 ∷ 5 ∷ [] }

abbrev calls : List Memory
calls = replicate 24 memory

calls_fit : (n : ℕ) → All KillersFit (replicate n memory)
calls_fit zero = tt
calls_fit (suc n) = (
  (
    record { src_lt = omega arith; dst_lt = omega arith; tag_lt = omega arith },
    record { src_lt = omega arith; dst_lt = omega arith; tag_lt = omega arith },
  ),
  calls_fit n,
)

calls-AtEnd_example :
    ((after_calls insertion shut calls (new_move_picker insertion shut start opening)).stage
      ≡ at_end)
    × ((next insertion shut memory
          (after_calls insertion shut calls (new_move_picker insertion shut start opening))).0
        ≡ invalid_move)
unfolding move_eq as_uint
calls-AtEnd_example =
    calls-AtEnd insertion shut start opening calls memory refl (omega (arith, start_count))

given-HasAll_example :
    let out = given insertion shut calls (new_move_picker insertion shut start opening) in
    let g = new_move_gen shut start in
    HasAll (gen_captures shut g) out
    × HasAll (gen_simple_promotes shut g) out
    × HasAll (gen_simple_moves_no_promote shut g) out
    × HasHash opening out
given-HasAll_example =
    given-HasAll insertion keys shut start opening calls start-IsSynced start-IsCoherent
      start-OneKing (calls_fit 24) calls-AtEnd_example.0

given-MayCome_example :
    All
      (MayCome insertion shut start opening
        (after_calls insertion shut calls (new_move_picker insertion shut start opening)).stage)
      (given insertion shut calls (new_move_picker insertion shut start opening))
given-MayCome_example =
    given-MayCome insertion keys shut start opening calls start-IsSynced start-IsCoherent
      start-OneKing

given_quiet_lem_example :
    let g = new_move_gen shut start in
    let tried =
      sort_mvv_lva insertion start (gen_captures shut g)
      ++ sort_promotes insertion (gen_simple_promotes shut g) in
    given_quiet insertion shut (length tried + 2) (new_quiescense_move_picker insertion shut start)
    ≡ tried ++ replicate 2 invalid_move
given_quiet_lem_example = given_quiet_lem insertion shut start 2
