-- ===== src/Core/Coherent/Applicable.antt =====
-- A move that passes both tests may be made, whatever its kind.
use sofcheck.Common.{
  ℕ, ◌<◌, ◌≡◌, ◌≢◌, ◌∙◌, ◌⊎◌, ap, refl, inl, inr, true, false, ◌==◌, Bool-cases, ==_iff, read,
  arith, add8, bit_and, ◌<<<◌,
}
use sofcheck.Common.Bits.{test_bit}
use sofcheck.Core.Types.{Color, white, black, pawn, make_cell, coord_x, invalid_coord}
use sofcheck.Core.Geometry.{castling_offset, enpassant_src_row, pawn_forward_delta}
use sofcheck.Core.Zobrist.{Zobrist}
use sofcheck.Core.Board.{Board}
use sofcheck.Core.Move.{
  Move, MoveKind, null, simple, pawn_double_move, enpassant, castling_kingside, castling_queenside,
  promote_knight, promote_bishop, promote_rook, promote_queen, invalid, is_well_formed,
  kind_well_formed, enpassant_pawn_pos, is_move_kind_promote, kind_code,
}
use sofcheck.Core.Synced.{IsSynced}
use sofcheck.Core.Make.Applicable.{
  IsApplicable, ApplicableKind, PawnStep, Takes, CastlesKingside, CastlesQueenside,
}
use sofcheck.Core.Attacks.{MagicTables}
use sofcheck.Core.MoveGen.Valid.{is_move_valid, is_kind_valid, is_pawn_move_valid}
use sofcheck.Core.Coherent.{IsCoherent, PassingPawn, free_of_mask}
use sofcheck.Core.Coherent.Playable.{
  IsPlayable, DoubleStep-formed, step_free, piece_valid-Travels, simple-Travels, promote-Promotes,
  valid_step,
}

-- The rows and the taken pawn of a capture in passing.
taken_squares :
    (c : Color) (e s d : ℕ)
    → coord_x e ≡ enpassant_src_row c
    → d ≡ add8 e (pawn_forward_delta c)
    → (enpassant_pawn_pos c d ≡ e) × (e < 64)
unfolding coord_x
taken_squares white e s d row at = (omega (arith, row, at), omega (arith, row))
taken_squares black e s d row at = (omega (arith, row, at), omega (arith, row))

enpassant_inner : (c : Color) (s d : ℕ) → kind_well_formed c enpassant s d ≡ true → coord_x s ≢ 0
unfolding kind_well_formed
enpassant_inner white s d f = ground arith
enpassant_inner black s d f = ground arith

module _ (z : Zobrist) (t : MagicTables) (b : Board) (h : IsSynced z b) where
  module _ (s d : ℕ) (s_lt : s < 64) (d_lt : d < 64) (ne : s ≢ d) (c : Color) where
    pawn_only :
        (k : MoveKind)
        → (kind_code k == 1) ≡ false
        → valid_step t b s d c k ≡ true
        → (read b.cells s ≡ make_cell c pawn) × (is_pawn_move_valid c b k s d ≡ true)
    pawn_only k n v = elim (Bool-cases (read b.cells s == make_cell c pawn)) [
      | inl is_pawn ↦ ((==_iff _ _).0 is_pawn, ground (arith, v))
      | inr other ↦
          let (e, _) = piece_valid-Travels z t b h s d s_lt d_lt ne c k (ground (arith, v)) in
          absurd (ground arith)
    ]

    enpassant-Takes :
        (b.enpassant_coord ≡ invalid_coord) ⊎ PassingPawn c b.cells b.enpassant_coord
        → coord_x s ≢ 0
        → valid_step t b s d c enpassant ≡ true
        → Takes c b.cells s d
    unfolding is_pawn_move_valid coord_x
    enpassant-Takes (inl absent) inner v =
        let (is_pawn, w) = pawn_only enpassant refl v in absurd (ground (arith, w, absent))
    enpassant-Takes (inr p) inner v =
        let (is_pawn, w) = pawn_only enpassant refl v in
        let at : d ≡ add8 b.enpassant_coord (pawn_forward_delta c) = ground arith in
        let (taken, lt) = taken_squares c b.enpassant_coord s d p.on_row at in
        record {
          step = record {
            src_lt = s_lt;
            dst_lt = d_lt;
            src_ne_dst = ne;
            our_pawn = is_pawn;
            free = ap (read b.cells) at ∙ p.passed_empty;
          };
          taken_lt = rw taken lt;
          enemy_pawn = rw taken p.enemy_pawn;
        }

    double-PawnStep :
        kind_well_formed c pawn_double_move s d ≡ true
        → valid_step t b s d c pawn_double_move ≡ true
        → PawnStep c b.cells s d
    unfolding is_pawn_move_valid
    double-PawnStep f v =
        let (is_pawn, w) = pawn_only pawn_double_move refl v in
        let step = DoubleStep-formed c s d f in
        record {
          src_lt = s_lt;
          dst_lt = d_lt;
          src_ne_dst = ne;
          our_pawn = is_pawn;
          free = (step_free z t b h c s d step w).1;
        }

  kingside-CastlesKingside :
      (c : Color) (s d : ℕ)
      → IsCoherent b
      → is_kind_valid t c b castling_kingside s d ≡ true
      → CastlesKingside c b.cells
  unfolding is_kind_valid test_bit
  kingside-CastlesKingside white s d k v =
      let (king_home, rook_home) = k.kingside white (ground (arith, v)) in
      let free = free_of_mask z b h (0x60 <<< castling_offset white) in
      let pass : (bit_and (0x60 <<< castling_offset white) b.bb_all == 0) ≡ true =
        ground (arith, v) in
      record {
        king_home = king_home;
        rook_home = rook_home;
        free₁ = free 61 pass refl (omega arith);
        free₂ = free 62 pass refl (omega arith);
      }
  kingside-CastlesKingside black s d k v =
      let (king_home, rook_home) = k.kingside black (ground (arith, v)) in
      let free = free_of_mask z b h (0x60 <<< castling_offset black) in
      let pass : (bit_and (0x60 <<< castling_offset black) b.bb_all == 0) ≡ true =
        ground (arith, v) in
      record {
        king_home = king_home;
        rook_home = rook_home;
        free₁ = free 5 pass refl (omega arith);
        free₂ = free 6 pass refl (omega arith);
      }

  queenside-CastlesQueenside :
      (c : Color) (s d : ℕ)
      → IsCoherent b
      → is_kind_valid t c b castling_queenside s d ≡ true
      → CastlesQueenside c b.cells
  unfolding is_kind_valid test_bit
  queenside-CastlesQueenside white s d k v =
      let (king_home, rook_home) = k.queenside white (ground (arith, v)) in
      let free = free_of_mask z b h (0x0e <<< castling_offset white) in
      let pass : (bit_and (0x0e <<< castling_offset white) b.bb_all == 0) ≡ true =
        ground (arith, v) in
      record {
        rook_home = rook_home;
        free₁ = free 58 pass refl (omega arith);
        free₂ = free 59 pass refl (omega arith);
        king_home = king_home;
      }
  queenside-CastlesQueenside black s d k v =
      let (king_home, rook_home) = k.queenside black (ground (arith, v)) in
      let free = free_of_mask z b h (0x0e <<< castling_offset black) in
      let pass : (bit_and (0x0e <<< castling_offset black) b.bb_all == 0) ≡ true =
        ground (arith, v) in
      record {
        rook_home = rook_home;
        free₁ = free 2 pass refl (omega arith);
        free₂ = free 3 pass refl (omega arith);
        king_home = king_home;
      }

  playable_kind :
      (k : MoveKind) (s d : ℕ)
      → IsCoherent b
      → s < 64
      → d < 64
      → ((kind_code k == 0) ≡ false → s ≢ d)
      → kind_well_formed b.side k s d ≡ true
      → is_kind_valid t b.side b k s d ≡ true
      → ApplicableKind b.side b.cells k s d
  unfolding is_kind_valid kind_well_formed is_move_kind_promote
  playable_kind null s d c s_lt d_lt ne f v = tt
  playable_kind simple s d c s_lt d_lt ne f v =
      simple-Travels z t b h s d s_lt d_lt (ne refl) b.side v
  playable_kind pawn_double_move s d c s_lt d_lt ne f v =
      double-PawnStep s d s_lt d_lt (ne refl) b.side f v
  playable_kind enpassant s d c s_lt d_lt ne f v =
      enpassant-Takes s d s_lt d_lt (ne refl) b.side c.passing (enpassant_inner b.side s d f) v
  playable_kind castling_kingside s d c s_lt d_lt ne f v = kingside-CastlesKingside b.side s d c v
  playable_kind castling_queenside s d c s_lt d_lt ne f v =
      queenside-CastlesQueenside b.side s d c v
  playable_kind invalid s d c s_lt d_lt ne f v = absurd (ground arith)
  playable_kind promote_knight s d c s_lt d_lt ne f v =
      promote-Promotes z t b h s d s_lt d_lt (ne refl) b.side promote_knight refl v
  playable_kind promote_bishop s d c s_lt d_lt ne f v =
      promote-Promotes z t b h s d s_lt d_lt (ne refl) b.side promote_bishop refl v
  playable_kind promote_rook s d c s_lt d_lt ne f v =
      promote-Promotes z t b h s d s_lt d_lt (ne refl) b.side promote_rook refl v
  playable_kind promote_queen s d c s_lt d_lt ne f v =
      promote-Promotes z t b h s d s_lt d_lt (ne refl) b.side promote_queen refl v

  -- In a position in sync whose flags and passing pawn are coherent, a move that is well-formed and
  -- valid may be made.
  pub IsPlayable-IsApplicable : (m : Move) → IsCoherent b → IsPlayable t b m → IsApplicable b m
  unfolding is_well_formed is_move_valid
  IsPlayable-IsApplicable m c p =
      playable_kind m.kind m.src m.dst c (ground (arith, p.formed)) (ground (arith, p.formed))
        (λ moves same. ground (arith, p.formed)) (ground (arith, p.formed)) p.valid
