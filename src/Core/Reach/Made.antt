-- ===== src/Core/Reach/Made.antt =====
-- The fields that `moveMake` leaves, and the pawn that may be taken after it.
use sofcheck.Common.{
  ℕ, ◌<◌, ◌≡◌, ◌≢◌, ◌∙◌, ◌⊎◌, inl, inr, refl, ap, subst, read, write, read-write, length,
  length-write, List, arith, add8,
}
use sofcheck.Core.Types.{
  Color, white, black, pawn, make_cell, invert, coord_x, empty_cell, invalid_coord,
}
use sofcheck.Core.Geometry.{pawn_forward_delta, enpassant_src_row}
use sofcheck.Core.Zobrist.{Zobrist}
use sofcheck.Core.Board.{Board}
use sofcheck.Core.Move.{Move, MoveKind, pawn_double_move}
use sofcheck.Core.Make.{move_make, move_make_impl, finish_move, make_kind, clear_enpassant}
use sofcheck.Core.Make.Sync.{made_cells, make_kind-cells, clear_enpassant-fields}
use sofcheck.Core.Coherent.{PassingPawn}
use sofcheck.Core.Coherent.Playable.{DoubleStep}
use sofcheck.Core.Reach.{made_flags, made_passing, make_kind-flags, make_kind-passing}

module _ (z : Zobrist) where
  clear_enpassant-castling : (b : Board) → (clear_enpassant z b).castling ≡ b.castling
  unfolding clear_enpassant
  clear_enpassant-castling b = ground arith

  pub move_make-cells :
      (b : Board) (m : Move)
      → (move_make z b m).0.cells ≡ made_cells z b.side b.cells m.kind m.src m.dst
  unfolding move_make move_make_impl finish_move
  move_make-cells b m =
      subst
        (λ (l : List ℕ).
          (make_kind z b.side m m.kind (read l m.src) (read l m.dst) (clear_enpassant z b)).cells
          ≡ made_cells z b.side l m.kind m.src m.dst)
        (clear_enpassant-fields z b).1
        (make_kind-cells z b.side m m.kind (clear_enpassant z b) refl)

  pub move_make-flags :
      (b : Board) (m : Move)
      → (move_make z b m).0.castling ≡ made_flags b.side b.castling m.kind m.src m.dst
  unfolding move_make move_make_impl finish_move
  move_make-flags b m =
      make_kind-flags z b.side m m.kind (read b.cells m.src) (read b.cells m.dst)
        (clear_enpassant z b)
      ∙ ap (λ f. made_flags b.side f m.kind m.src m.dst) (clear_enpassant-castling b)

  pub move_make-passing :
      (b : Board) (m : Move)
      → (move_make z b m).0.enpassant_coord ≡ made_passing invalid_coord m.kind m.dst
  unfolding move_make move_make_impl finish_move
  move_make-passing b m =
      make_kind-passing z b.side m m.kind (read b.cells m.src) (read b.cells m.dst)
        (clear_enpassant z b)
      ∙ ap (λ e. made_passing e m.kind m.dst) (clear_enpassant-fields z b).0

  pub move_make-side : (b : Board) (m : Move) → (move_make z b m).0.side ≡ invert b.side
  unfolding move_make move_make_impl finish_move
  move_make-side b m = refl

-- The cell that a double step passes, seen from either end.
passed_cell :
    (c : Color) (s d : ℕ)
    → DoubleStep c s d
    → let mid = add8 s (pawn_forward_delta c) in
      (add8 d (pawn_forward_delta (invert c)) ≡ mid)
      × (mid ≢ s)
      × (mid ≢ d)
      × (d < 64)
      × (coord_x d ≡ enpassant_src_row (invert c))
unfolding coord_x
passed_cell white s d h = (
  omega (arith, h.from, h.to, h.column),
  λ e. omega (arith, h.from, h.to, h.column),
  λ e. omega (arith, h.from, h.to, h.column),
  omega (arith, h.to),
  h.to,
)
passed_cell black s d h = (
  omega (arith, h.from, h.to, h.column),
  λ e. omega (arith, h.from, h.to, h.column),
  λ e. omega (arith, h.from, h.to, h.column),
  omega (arith, h.to),
  h.to,
)

-- A double step over an empty cell.
abbrev pub StepsOver : Color → List ℕ → ℕ → ℕ → Type 0
StepsOver c cells s d = DoubleStep c s d × (read cells (add8 s (pawn_forward_delta c)) ≡ empty_cell)

invert-invert : (c : Color) → invert (invert c) ≡ c
invert-invert white = refl
invert-invert black = refl

module _ (z : Zobrist) (c : Color) (cells : List ℕ) (size : length cells ≡ 64) (s d : ℕ) where
  stepped-PassingPawn :
      StepsOver c cells s d
      → PassingPawn (invert c) (write (write cells s 0) d (make_cell c pawn)) d
  stepped-PassingPawn (step, free) =
      let (same, not_s, not_d, d_lt, row) = passed_cell c s d step in
      let w₁ = write cells s 0 in
      let mid = add8 s (pawn_forward_delta c) in
      record {
        on_row = row;
        enemy_pawn =
            rw (invert-invert c)
              (ground (arith, read-write w₁ d (make_cell c pawn) d, length-write cells s 0, size));
        passed_empty = rw same (
            ground (arith, read-write w₁ d (make_cell c pawn) mid, read-write cells s 0 mid, free));
      }

  pub made_cells-PassingPawn :
      (k : MoveKind)
      → (k ≡ pawn_double_move → StepsOver c cells s d)
      → let e = made_passing invalid_coord k d in
        (e ≡ invalid_coord) ⊎ PassingPawn (invert c) (made_cells z c cells k s d) e
  made_cells-PassingPawn pawn_double_move h = inr (stepped-PassingPawn (h refl))
  made_cells-PassingPawn _ h = inl refl
