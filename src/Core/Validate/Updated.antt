-- ===== src/Core/Validate/Updated.antt =====
-- What `update` makes of the castling flags and the passing pawn.
use sofcheck.Common.{
  ℕ, ◌+◌, ◌≡◌, ◌∙◌, ◌⊎◌, inl, inr, refl, sym, ap, Bool, Bool-cases, true, false, ◌&&◌, ◌||◌, not,
  ◌==◌, ==_iff, if◌then◌else◌, List, bit_and, read, add8, arith,
}
use sofcheck.Core.Types.{
  Color, white, black, pawn, king, rook, make_cell, make_coord, coord_x, invalid_coord, has,
  color_eq, invert, empty_cell,
}
use sofcheck.Core.Geometry.{enpassant_src_row, castling_offset, castling_row, pawn_forward_delta}
use sofcheck.Core.Zobrist.{Zobrist}
use sofcheck.Core.Board.{
  Board, update, update_enpassant, update_castling_of, update_bitboards, clear_castling,
  clear_queenside_castling, clear_kingside_castling, is_kingside_castling, is_queenside_castling,
}
use sofcheck.Core.Coherent.{IsCoherent, PassingPawn, HomeAt}
use sofcheck.Core.Reach.Flags.{
  Wing, kingside, queenside, same_wing, wing_flag, rook_column, clear_flag-kept,
  without_castling-kept,
}

-- A passing pawn that is not on its row, if there is one, would not be kept.
abbrev pub RowKept : Board → Type 0
RowKept b =
    (b.enpassant_coord ≡ invalid_coord) ⊎ (coord_x b.enpassant_coord ≡ enpassant_src_row b.side)

update_enpassant-passing :
    (b : Board)
    → RowKept b
    → let e = (update_enpassant b).enpassant_coord in
      (e ≡ invalid_coord) ⊎ PassingPawn b.side b.cells e
unfolding update_enpassant
update_enpassant-passing b row = elim (Bool-cases (b.enpassant_coord == invalid_coord)) [
  | inl absent ↦ rw absent (inl ((==_iff _ _).0 absent))
  | inr present ↦
      let pre = add8 b.enpassant_coord (pawn_forward_delta b.side) in
      let bad =
        not (read b.cells b.enpassant_coord == make_cell (invert b.side) pawn)
        || not (read b.cells pre == empty_cell) in
      elim (Bool-cases bad) [
        | inl dropped ↦ rw (present, dropped) (inl refl)
        | inr kept ↦
            rw (present, kept)
              (inr (record {
                on_row = ground (arith, row);
                enemy_pawn = ground arith;
                passed_empty = ground arith;
              }))
      ]
]

abbrev flag_set : Board → Color → Wing → Bool
flag_set b c w = has (bit_and b.castling (wing_flag c w))

king_step :
    (b : Board) (o c : Color) (w : Wing) (test : Bool)
    → flag_set (if test then b else clear_castling b o) c w ≡ true
    → (flag_set b c w ≡ true) × (color_eq o c ≡ true → test ≡ true)
unfolding clear_castling
king_step b o c w true set = (set, λ e. refl)
king_step b o c w false set =
    let (other, was) = without_castling-kept o c w b.castling set in
    (was, λ e. absurd (ground arith))

queen_rook_step :
    (b : Board) (o c : Color) (w : Wing) (test : Bool)
    → flag_set (if test then b else clear_queenside_castling b o) c w ≡ true
    → (flag_set b c w ≡ true) × ((color_eq o c && same_wing queenside w) ≡ true → test ≡ true)
unfolding clear_queenside_castling
queen_rook_step b o c w true set = (set, λ e. refl)
queen_rook_step b o c w false set =
    let (other, was) = clear_flag-kept o c queenside w b.castling set in
    (was, λ e. absurd (ground arith))

king_rook_step :
    (b : Board) (o c : Color) (w : Wing) (test : Bool)
    → flag_set (if test then b else clear_kingside_castling b o) c w ≡ true
    → (flag_set b c w ≡ true) × ((color_eq o c && same_wing kingside w) ≡ true → test ≡ true)
unfolding clear_kingside_castling
king_rook_step b o c w true set = (set, λ e. refl)
king_rook_step b o c w false set =
    let (other, was) = clear_flag-kept o c kingside w b.castling set in
    (was, λ e. absurd (ground arith))

pub home_cells :
    (c : Color)
    → (make_coord (castling_row c) 4 ≡ castling_offset c + 4)
      × (make_coord (castling_row c) 0 ≡ castling_offset c + 0)
      × (make_coord (castling_row c) 7 ≡ castling_offset c + 7)
unfolding make_coord
home_cells white = (refl, refl, refl)
home_cells black = (refl, refl, refl)

update_castling_of-fields :
    (b : Board) (o : Color)
    → let t = update_castling_of b o in
      (t.cells ≡ b.cells) × (t.side ≡ b.side) × (t.enpassant_coord ≡ b.enpassant_coord)
unfolding update_castling_of clear_castling clear_queenside_castling clear_kingside_castling
update_castling_of-fields b o = ground arith

king_step-cells :
    (b : Board) (o : Color) (test : Bool) → (if test then b else clear_castling b o).cells ≡ b.cells
unfolding clear_castling
king_step-cells b o test = ground arith

queen_rook_step-cells :
    (b : Board) (o : Color) (test : Bool)
    → (if test then b else clear_queenside_castling b o).cells ≡ b.cells
unfolding clear_queenside_castling
queen_rook_step-cells b o test = ground arith

home_of :
    (o : Color) (w : Wing) (cells : List ℕ)
    → read cells (castling_offset o + 4) ≡ make_cell o king
    → (same_wing queenside w ≡ true → read cells (castling_offset o + 0) ≡ make_cell o rook)
    → (same_wing kingside w ≡ true → read cells (castling_offset o + 7) ≡ make_cell o rook)
    → HomeAt o cells (rook_column w)
home_of o kingside cells k q r = (k, r refl)
home_of o queenside cells k q r = (k, q refl)

-- A flag that one round leaves set was set, and if it is of the round's colour, its king and rook
-- stand at home.
update_castling_of-kept :
    (b : Board) (c o : Color) (w : Wing)
    → flag_set (update_castling_of b o) c w ≡ true
    → (flag_set b c w ≡ true) × (color_eq o c ≡ true → HomeAt o b.cells (rook_column w))
unfolding update_castling_of
update_castling_of-kept b c o w set =
    let x = castling_row o in
    let king_here = read b.cells (make_coord x 4) == make_cell o king in
    let b₁ = if king_here then b else clear_castling b o in
    let left_here = read b₁.cells (make_coord x 0) == make_cell o rook in
    let b₂ = if left_here then b₁ else clear_queenside_castling b₁ o in
    let right_here = read b₂.cells (make_coord x 7) == make_cell o rook in
    let (set₂, right_rook) = king_rook_step b₂ o c w right_here set in
    let (set₁, left_rook) = queen_rook_step b₁ o c w left_here set₂ in
    let (set₀, at_king) = king_step b o c w king_here set₁ in
    let cells₁ = king_step-cells b o king_here in
    let cells₂ = queen_rook_step-cells b₁ o left_here ∙ cells₁ in
    let (at_4, at_0, at_7) = home_cells o in
    (
      set₀,
      λ same.
          home_of o w b.cells (sym (ap (read b.cells) at_4) ∙ (==_iff _ _).0 (at_king same))
            (λ here.
              sym (ap (read b.cells) at_0)
              ∙ ap (λ l. read l (make_coord x 0)) (sym cells₁)
              ∙ (==_iff _ _).0 (left_rook (rw (same, here) refl)))
            (λ here.
              sym (ap (read b.cells) at_7)
              ∙ ap (λ l. read l (make_coord x 7)) (sym cells₂)
              ∙ (==_iff _ _).0 (right_rook (rw (same, here) refl))),
    )

of_color :
    (c : Color) (cells : List ℕ) (y : ℕ)
    → (color_eq white c ≡ true → HomeAt white cells y)
    → (color_eq black c ≡ true → HomeAt black cells y)
    → HomeAt c cells y
of_color white cells y hw hb = hw refl
of_color black cells y hw hb = hb refl

module _ (z : Zobrist) (b : Board) (row : RowKept b) where
  update-fields :
      let t = update z b in
      let u = update_castling_of (update_castling_of (update_enpassant b) white) black in
      (t.cells ≡ u.cells)
      × (t.side ≡ u.side)
      × (t.enpassant_coord ≡ u.enpassant_coord)
      × (t.castling ≡ u.castling)
  unfolding update update_bitboards
  update-fields = (refl, refl, refl, refl)

  update_enpassant-kept :
      ((update_enpassant b).cells ≡ b.cells) × ((update_enpassant b).side ≡ b.side)
  unfolding update_enpassant
  update_enpassant-kept = ground arith

  updated-cells :
      ((update z b).cells ≡ b.cells)
      × ((update z b).side ≡ b.side)
      × ((update z b).enpassant_coord ≡ (update_enpassant b).enpassant_coord)
  updated-cells =
      let (c, s, e, _) = update-fields in
      let b₁ = update_enpassant b in
      let (c₁, s₁) = update_enpassant-kept in
      let (c₂, s₂, e₂) = update_castling_of-fields b₁ white in
      let (c₃, s₃, e₃) = update_castling_of-fields (update_castling_of b₁ white) black in
      (c ∙ c₃ ∙ c₂ ∙ c₁, s ∙ s₃ ∙ s₂ ∙ s₁, e ∙ e₃ ∙ e₂)

  updated-HomeAt :
      (c : Color) (w : Wing)
      → flag_set (update z b) c w ≡ true
      → HomeAt c (update z b).cells (rook_column w)
  updated-HomeAt c w set =
      let b₁ = update_enpassant b in
      let b₂ = update_castling_of b₁ white in
      let set₃ = sym (ap (λ f. has (bit_and f (wing_flag c w))) update-fields.3) ∙ set in
      let (set₂, black_home) = update_castling_of-kept b₂ c black w set₃ in
      let (set₁, white_home) = update_castling_of-kept b₁ c white w set₂ in
      let (cells, _, _) = updated-cells in
      let from₁ : (update z b).cells ≡ b₁.cells = cells ∙ sym update_enpassant-kept.0 in
      let from₂ : (update z b).cells ≡ b₂.cells =
        from₁ ∙ sym (update_castling_of-fields b₁ white).0 in
      of_color c (update z b).cells (rook_column w) (λ e. rw from₁ (white_home e))
        (λ e. rw from₂ (black_home e))

  -- If the passing pawn, where there is one, is on its row, the flags and the passing pawn are
  -- coherent after `update`.
  pub update-IsCoherent : IsCoherent (update z b)
  unfolding is_kingside_castling is_queenside_castling
  update-IsCoherent =
      let (cells, side, passing) = updated-cells in
      record {
        kingside = λ c set. updated-HomeAt c kingside set;
        queenside = λ c set. updated-HomeAt c queenside set;
        passing = rw (cells, side, passing) (update_enpassant-passing b row);
      }
