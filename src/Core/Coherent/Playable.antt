-- ===== src/Core/Coherent/Playable.antt =====
-- A move that passes `isWellFormed` and `isMoveValid` may be made.
use sofcheck.Common.{
  ℕ, ◌%◌, ◌<◌, ◌≡◌, ◌≢◌, ◌∙◌, sym, ap, refl, inl, inr, Bool, true, false, ◌&&◌, ◌||◌, not, ltb,
  ◌==◌, if◌then◌else◌, Bool-cases, ==_iff, read, arith, add8, bit_and, all_to, all_to_sound,
}
use sofcheck.Common.Bits.{test_bit, disjoint_bit}
use sofcheck.Core.Types.{Color, white, black, pawn, make_cell, coord_x, empty_cell}
use sofcheck.Core.Geometry.{pawn_forward_delta, double_move_src_row, double_move_dst_row}
use sofcheck.Core.Zobrist.{Zobrist}
use sofcheck.Core.Board.{Board, bb_color}
use sofcheck.Core.Move.{
  Move, MoveKind, simple, pawn_double_move, is_well_formed, kind_well_formed, is_move_kind_promote,
  kind_code,
}
use sofcheck.Core.Synced.{is_color, IsSynced}
use sofcheck.Core.Make.Applicable.{Travels, Promotes}
use sofcheck.Core.Attacks.{MagicTables}
use sofcheck.Core.MoveGen.Valid.{
  is_move_valid, is_pawn_move_valid, is_piece_move_valid, must_be_empty,
}
use sofcheck.Core.Text.Trip.{coord_y-mod}
use sofcheck.Core.Coherent.{color_bit, free_cell, color_of_cell, zero_of_coord}

-- A move of the side to move that the two tests accept.
pub record IsPlayable (t : MagicTables) (b : Board) (m : Move) : Type 0 where
  pub formed : is_well_formed m b.side ≡ true
  pub valid : is_move_valid t b m ≡ true

-- The last case of `isMoveValidImpl`.
abbrev pub valid_step : MagicTables → Board → ℕ → ℕ → Color → MoveKind → Bool
valid_step t b s d c k =
    if read b.cells s == make_cell c pawn
    then is_pawn_move_valid c b k s d
    else is_piece_move_valid t c b k s d

-- The squares of a double step.
pub record DoubleStep (c : Color) (s d : ℕ) : Type 0 where
  pub from : coord_x s ≡ double_move_src_row c
  pub to : coord_x d ≡ double_move_dst_row c
  pub column : s % 8 ≡ d % 8

pub DoubleStep-formed :
    (c : Color) (s d : ℕ) → kind_well_formed c pawn_double_move s d ≡ true → DoubleStep c s d
unfolding kind_well_formed
DoubleStep-formed white s d h = record {
  from = ground arith;
  to = ground arith;
  column = sym (coord_y-mod s) ∙ ground arith ∙ coord_y-mod d;
}
DoubleStep-formed black s d h = record {
  from = ground arith;
  to = ground arith;
  column = sym (coord_y-mod s) ∙ ground arith ∙ coord_y-mod d;
}

-- The cells that a double step passes and reaches are the ones that `isMoveValid` looks at.
pub step_squares :
    (c : Color) (s d : ℕ)
    → DoubleStep c s d
    → (s < 64)
      × (d < 64)
      × (s ≢ d)
      × (d ≡ add8 (add8 s (pawn_forward_delta c)) (pawn_forward_delta c))
unfolding coord_x
step_squares white s d h = (
  omega (arith, h.from),
  omega (arith, h.to),
  omega (arith, h.from, h.to, h.column),
  omega (arith, h.from, h.to, h.column),
)
step_squares black s d h = (
  omega (arith, h.from),
  omega (arith, h.to),
  omega (arith, h.from, h.to, h.column),
  omega (arith, h.from, h.to, h.column),
)

abbrev looks_at : Color → ℕ → Bool
looks_at c s =
    let one = add8 s (pawn_forward_delta c) in
    let two = add8 one (pawn_forward_delta c) in
    not (coord_x s == double_move_src_row c)
    || (ltb one 64
        && ltb two 64
        && test_bit (must_be_empty c s) one
        && test_bit (must_be_empty c s) two)

looks : (c : Color) → all_to 64 (looks_at c) ≡ true
unfolding all_to coord_x must_be_empty test_bit
looks white = refl
looks black = refl

module _ (z : Zobrist) (t : MagicTables) (b : Board) (h : IsSynced z b) where
  -- A double step passes and reaches empty cells.
  pub step_free :
      (c : Color) (s d : ℕ)
      → DoubleStep c s d
      → (bit_and b.bb_all (must_be_empty c s) == 0) ≡ true
      → (read b.cells (add8 s (pawn_forward_delta c)) ≡ empty_cell) × (read b.cells d ≡ empty_cell)
  step_free c s d step e =
      let (s_lt, d_lt, ne, same) = step_squares c s d step in
      let seen = all_to_sound 64 (looks_at c) s (looks c) s_lt in
      let one = add8 s (pawn_forward_delta c) in
      let two = add8 one (pawn_forward_delta c) in
      let from = (==_iff (coord_x s) (double_move_src_row c)).1 step.from in
      let free : (i : ℕ)
          → i < 64
          → test_bit (must_be_empty c s) i ≡ true
          → read b.cells i ≡ empty_cell =
        λ i lt set.
          free_cell z b h i lt (ground (arith, disjoint_bit b.bb_all (must_be_empty c s) i e)) in
      (
        free one (ground arith) (ground arith),
        ap (read b.cells) same ∙ free two (ground arith) (ground arith),
      )

  module _ (s d : ℕ) (s_lt : s < 64) (d_lt : d < 64) (ne : s ≢ d) where
    pub piece_valid-Travels :
        (c : Color) (k : MoveKind)
        → is_piece_move_valid t c b k s d ≡ true
        → (kind_code k ≡ 1) × Travels c b.cells s d
    unfolding is_piece_move_valid
    piece_valid-Travels white k v =
        let mine = zero_of_coord (bb_color b white) d in
        (
          ground (arith, v),
          record {
            src_lt = s_lt;
            dst_lt = d_lt;
            src_ne_dst = ne;
            ours = ground (arith, v);
            free = ground (arith, v, mine, color_bit z b h white d);
          },
        )
    piece_valid-Travels black k v =
        let mine = zero_of_coord (bb_color b black) d in
        (
          ground (arith, v),
          record {
            src_lt = s_lt;
            dst_lt = d_lt;
            src_ne_dst = ne;
            ours = ground (arith, v);
            free = ground (arith, v, mine, color_bit z b h black d);
          },
        )

    -- A pawn goes to a cell that its side does not hold.
    pawn_valid-free :
        (c : Color) (k : MoveKind)
        → (kind_code k == 2) ≡ false
        → (kind_code k == 3) ≡ false
        → is_pawn_move_valid c b k s d ≡ true
        → is_color c (read b.cells d) ≡ false
    unfolding is_pawn_move_valid
    pawn_valid-free white k n₁ n₂ v = ground (arith, v)
    pawn_valid-free black k n₁ n₂ v = ground (arith, v)

    pub simple-Travels : (c : Color) → valid_step t b s d c simple ≡ true → Travels c b.cells s d
    simple-Travels c v = elim (Bool-cases (read b.cells s == make_cell c pawn)) [
      | inl is_pawn ↦ record {
        src_lt = s_lt;
        dst_lt = d_lt;
        src_ne_dst = ne;
        ours = rw ((==_iff _ _).0 is_pawn) (color_of_cell c pawn);
        free = pawn_valid-free c simple refl refl (ground (arith, v));
      }
      | inr other ↦ (piece_valid-Travels c simple (ground (arith, v))).1
    ]

    pub promote-Promotes :
        (c : Color) (k : MoveKind)
        → is_move_kind_promote k ≡ true
        → valid_step t b s d c k ≡ true
        → Promotes c b.cells s d
    unfolding is_move_kind_promote
    promote-Promotes c k p v = elim (Bool-cases (read b.cells s == make_cell c pawn)) [
      | inl is_pawn ↦ record {
        src_lt = s_lt;
        dst_lt = d_lt;
        src_ne_dst = ne;
        our_pawn = (==_iff _ _).0 is_pawn;
        free = pawn_valid-free c k (ground arith) (ground arith) (ground (arith, v));
      }
      | inr other ↦
          absurd (let (e, _) = piece_valid-Travels c k (ground (arith, v)) in ground arith)
    ]
