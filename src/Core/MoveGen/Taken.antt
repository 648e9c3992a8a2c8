-- ===== src/Core/MoveGen/Taken.antt =====
-- Where the piece stands that a capture takes.
use sofcheck.Common.{
  ℕ, ◌<◌, ◌≡◌, inl, inr, true, false, ◌==◌, read, arith, ap, ◌∙◌, ◌⊎◌, sub8, add8,
}
use sofcheck.Core.Types.{Color, white, black, pawn, invert, coord_x, invalid_coord}
use sofcheck.Core.Geometry.{enpassant_src_row, pawn_forward_delta}
use sofcheck.Core.Board.{Board}
use sofcheck.Core.Move.{Move, MoveKind, enpassant}
use sofcheck.Core.Synced.{is_color}
use sofcheck.Core.Coherent.{color_of_cell, PassingPawn}

-- Where the piece stands that a move takes: in passing, behind the target.
abbrev pub taken_at : Color → MoveKind → ℕ → ℕ
taken_at c enpassant d = sub8 d (pawn_forward_delta c)
taken_at c _ d = d

small : (c : Color) (e : ℕ) → coord_x e ≡ enpassant_src_row c → e < 256
unfolding coord_x
small white e on = omega (arith, on)
small black e on = omega (arith, on)

-- One row forward and back.
back :
    (c : Color) (e : ℕ) → e < 256 → sub8 (add8 e (pawn_forward_delta c)) (pawn_forward_delta c) ≡ e
back white e lt = omega arith
back black e lt = omega arith

module _ (b : Board) (c : Color) where
  abbrev pub Takes : Move → Type 0
  Takes m = is_color (invert c) (read b.cells (taken_at c m.kind m.dst)) ≡ true

  abbrev pub KnownPassing : Type 0
  KnownPassing = (b.enpassant_coord ≡ invalid_coord) ⊎ PassingPawn c b.cells b.enpassant_coord

  abbrev pub behind : ℕ
  behind = add8 b.enpassant_coord (pawn_forward_delta c)

  pub passing-Takes :
      (b.enpassant_coord == invalid_coord) ≡ false
      → KnownPassing
      → is_color (invert c) (read b.cells (sub8 behind (pawn_forward_delta c))) ≡ true
  unfolding coord_x
  passing-Takes present (inl absent) = absurd (ground (arith, present, absent))
  passing-Takes present (inr p) =
      let low : b.enpassant_coord < 256 = small c b.enpassant_coord p.on_row in
      ap (λ i. is_color (invert c) (read b.cells i)) (back c b.enpassant_coord low)
      ∙ ap (is_color (invert c)) p.enemy_pawn
      ∙ color_of_cell (invert c) pawn
