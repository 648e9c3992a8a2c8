-- ===== src/Core/Reach/Homes.antt =====
-- The flags that a move leaves set still have their king and rook at home.
use sofcheck.Common.{
  ℕ, ◌+◌, ◌<◌, ◌≡◌, ◌≢◌, ◌∙◌, sym, ap, true, false, read, write, read-write, List, arith, bit_and,
}
use sofcheck.Core.Types.{
  Color, white, black, pawn, king, rook, make_cell, color_eq, empty_cell, has, invert,
}
use sofcheck.Core.Geometry.{castling_offset}
use sofcheck.Core.Zobrist.{Zobrist}
use sofcheck.Core.Move.{
  MoveKind, null, simple, pawn_double_move, enpassant, castling_kingside, castling_queenside,
  promote_knight, promote_bishop, promote_rook, promote_queen, invalid, enpassant_pawn_pos,
}
use sofcheck.Core.Make.Applicable.{ApplicableKind, PawnStep, Takes}
use sofcheck.Core.Make.Sync.{made_cells}
use sofcheck.Core.Coherent.{HomeAt}
use sofcheck.Core.Reach.{made_flags}
use sofcheck.Core.Reach.Flags.{
  Wing, wing_flag, rook_column, updated_flags-kept, without_castling-kept,
}
use sofcheck.Core.Reach.Kings.{cells_differ}

two_writes-kept :
    (cells : List ℕ) (s v d w p : ℕ)
    → s ≢ p
    → d ≢ p
    → read (write (write cells s v) d w) p ≡ read cells p
two_writes-kept cells s v d w p ns nd =
    ground (arith, read-write (write cells s v) d w p, read-write cells s v p)

-- Castling of one colour does not touch the home of the other.
homes_apart :
    (c e : Color) (w : Wing) (y : ℕ)
    → color_eq c e ≡ false
    → y < 8
    → (castling_offset c + y ≢ castling_offset e + 4)
      × (castling_offset c + y ≢ castling_offset e + rook_column w)
homes_apart white black w y n lt = ground arith
homes_apart black white w y n lt = ground arith
homes_apart white white w y n lt = absurd (ground arith)
homes_apart black black w y n lt = absurd (ground arith)

module _ (z : Zobrist) (e : Color) (w : Wing) (cells : List ℕ) (flags : ℕ)
    (home : has (bit_and flags (wing_flag e w)) ≡ true → HomeAt e cells (rook_column w)) where
  abbrev HomeKept : List ℕ → Type 0
  HomeKept now = HomeAt e now (rook_column w)

  -- Two cells change, neither of them on the home.
  two-HomeKept :
      (s v d u : ℕ) (now : List ℕ)
      → (s ≢ castling_offset e + 4) × (d ≢ castling_offset e + 4)
      → (s ≢ castling_offset e + rook_column w) × (d ≢ castling_offset e + rook_column w)
      → HomeKept now
      → HomeKept (write (write now s v) d u)
  two-HomeKept s v d u now at_k at_r h = (
    two_writes-kept now s v d u _ at_k.0 at_k.1 ∙ h.0,
    two_writes-kept now s v d u _ at_r.0 at_r.1 ∙ h.1,
  )

  updated-HomeKept :
      (s d v u : ℕ)
      → has (bit_and (made_flags e flags simple s d) (wing_flag e w)) ≡ true
      → HomeKept (write (write cells s v) d u)
  updated-HomeKept s d v u set =
      let (was, at_k, at_r) = updated_flags-kept e w s d flags set in
      two-HomeKept s v d u cells at_k at_r (home was)

  -- A cell with a pawn, or none, is not on the home.
  not_home :
      (p : ℕ) (x : ℕ)
      → HomeKept cells
      → read cells p ≡ x
      → x ≢ make_cell e king
      → x ≢ make_cell e rook
      → (p ≢ castling_offset e + 4) × (p ≢ castling_offset e + rook_column w)
  not_home p x h at nk nr = (
    λ same. nk (sym at ∙ ap (read cells) same ∙ h.0),
    λ same. nr (sym at ∙ ap (read cells) same ∙ h.1),
  )

  pawn_not_home :
      (c : Color) (p : ℕ)
      → HomeKept cells
      → read cells p ≡ make_cell c pawn
      → (p ≢ castling_offset e + 4) × (p ≢ castling_offset e + rook_column w)
  pawn_not_home c p h at =
      not_home p _ h at (cells_differ c e pawn king (λ n. ground arith))
        (cells_differ c e pawn rook (λ n. ground arith))

  empty_not_home :
      (p : ℕ)
      → HomeKept cells
      → read cells p ≡ empty_cell
      → (p ≢ castling_offset e + 4) × (p ≢ castling_offset e + rook_column w)
  empty_not_home p h at = not_home p 0 h at (λ n. omega arith) (λ n. omega arith)

  step-HomeKept :
      (c : Color) (s d v : ℕ)
      → PawnStep c cells s d
      → HomeKept cells
      → HomeKept (write (write cells s 0) d v)
  step-HomeKept c s d v t h =
      let at_s = pawn_not_home c s h t.our_pawn in
      let at_d = empty_not_home d h t.free in
      two-HomeKept s 0 d v cells (at_s.0, at_d.0) (at_s.1, at_d.1) h

  take-HomeKept :
      (c : Color) (s d v : ℕ)
      → Takes c cells s d
      → HomeKept cells
      → HomeKept (write (write (write cells s 0) d v) (enpassant_pawn_pos c d) 0)
  take-HomeKept c s d v t h =
      let h₁ = step-HomeKept c s d v t.step h in
      let at = pawn_not_home (invert c) (enpassant_pawn_pos c d) h t.enemy_pawn in
      let w₂ = write (write cells s 0) d v in
      (
        ground
            (arith, read-write w₂ (enpassant_pawn_pos c d) 0 (castling_offset e + 4), at.0, h₁.0),
        ground (
          arith,
          read-write w₂ (enpassant_pawn_pos c d) 0 (castling_offset e + rook_column w),
          at.1,
          h₁.1,
        ),
      )

  castled-HomeKept :
      (c : Color) (y₁ y₂ y₃ y₄ v₁ v₂ v₃ v₄ : ℕ)
      → y₁ < 8
      → y₂ < 8
      → y₃ < 8
      → y₄ < 8
      → has (bit_and (made_flags c flags castling_kingside 0 0) (wing_flag e w)) ≡ true
      → let o = castling_offset c in
        HomeKept
          (write (write (write (write cells (o + y₁) v₁) (o + y₂) v₂) (o + y₃) v₃) (o + y₄) v₄)
  castled-HomeKept c y₁ y₂ y₃ y₄ v₁ v₂ v₃ v₄ l₁ l₂ l₃ l₄ set =
      let (other, was) = without_castling-kept c e w flags set in
      let o = castling_offset c in
      let a₁ = homes_apart c e w y₁ other l₁ in
      let a₂ = homes_apart c e w y₂ other l₂ in
      let a₃ = homes_apart c e w y₃ other l₃ in
      let a₄ = homes_apart c e w y₄ other l₄ in
      two-HomeKept (o + y₃) v₃ (o + y₄) v₄ (write (write cells (o + y₁) v₁) (o + y₂) v₂)
        (a₃.0, a₄.0) (a₃.1, a₄.1)
        (two-HomeKept (o + y₁) v₁ (o + y₂) v₂ cells (a₁.0, a₂.0) (a₁.1, a₂.1) (home was))

  pub made_cells-HomeAt :
      (c : Color) (k : MoveKind) (s d : ℕ)
      → ApplicableKind c cells k s d
      → has (bit_and (made_flags c flags k s d) (wing_flag e w)) ≡ true
      → HomeKept (made_cells z c cells k s d)
  made_cells-HomeAt c simple s d t set = updated-HomeKept s d _ _ set
  made_cells-HomeAt c pawn_double_move s d t set = step-HomeKept c s d _ t (home set)
  made_cells-HomeAt c enpassant s d t set = take-HomeKept c s d _ t (home set)
  made_cells-HomeAt c castling_kingside s d t set =
      castled-HomeKept c 4 5 6 7 _ _ _ _ (omega arith) (omega arith) (omega arith) (omega arith) set
  made_cells-HomeAt c castling_queenside s d t set =
      castled-HomeKept c 0 2 3 4 _ _ _ _ (omega arith) (omega arith) (omega arith) (omega arith) set
  made_cells-HomeAt c null s d t set = home set
  made_cells-HomeAt c invalid s d t set = absurd t
  made_cells-HomeAt c promote_knight s d t set = updated-HomeKept s d _ _ set
  made_cells-HomeAt c promote_bishop s d t set = updated-HomeKept s d _ _ set
  made_cells-HomeAt c promote_rook s d t set = updated-HomeKept s d _ _ set
  made_cells-HomeAt c promote_queen s d t set = updated-HomeKept s d _ _ set
