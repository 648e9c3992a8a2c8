-- ===== src/Core/MoveGen/PieceSteps.antt =====
-- The moves of kings, knights, bishops, rooks and queens that the generators make may be played.
use sofcheck.Common.{
  ℕ, ◌+◌, ◌<◌, ◌≡◌, ◌≢◌, ◌∙◌, ◌⊎◌, refl, sym, subst, inl, inr, Bool, true, false, not, ◌==◌, read,
  arith, bit_and, all_to, all_to_sound,
}
use sofcheck.Common.Bits.{test_bit, test_bit_ext, bit_laws}
use sofcheck.Core.Types.{
  Piece, pawn, king, knight, bishop, rook, queen, make_cell, coord_x, coord_y, coord_diag1,
  coord_diag2, coord_to_bitboard, make_coord, color_offset, piece_code,
}
use sofcheck.Core.Bitboard.{build_magic_rook_post_mask, build_magic_bishop_post_mask}
use sofcheck.Core.Zobrist.{Zobrist}
use sofcheck.Core.Board.{Board, bb_color}
use sofcheck.Core.Move.{simple, kind_well_formed}
use sofcheck.Core.Synced.{is_color, IsSynced, test_bit-coord}
use sofcheck.Core.Attacks.{
  MagicTables, king_attacks, knight_attacks, generate_directed, directed, bishop_attack_bitboard,
  rook_attack_bitboard,
}
use sofcheck.Core.Attacks.Masks.{rook_attack_masked_lem, bishop_attack_masked_lem}
use sofcheck.Core.Coherent.{color_bit}
use sofcheck.Core.Coherent.Playable.{IsPlayable}
use sofcheck.Core.MoveGen.Valid.{is_kind_valid, is_piece_move_valid}
use sofcheck.Core.MoveGen.PawnSteps.{IsPlayable-intro, meets}

-- No cell attacks itself.
abbrev pub not_itself : (ℕ → ℕ) → ℕ → Bool
not_itself attacks i = not (test_bit (attacks i) i)

pub king_table : all_to 64 (not_itself king_attacks) ≡ true
unfolding all_to king_attacks generate_directed directed coord_x coord_y coord_to_bitboard
    make_coord test_bit
king_table = refl

pub knight_table : all_to 64 (not_itself knight_attacks) ≡ true
unfolding all_to knight_attacks generate_directed directed coord_x coord_y coord_to_bitboard
    make_coord test_bit
knight_table = refl

pub rook_table : all_to 64 (not_itself build_magic_rook_post_mask) ≡ true
unfolding all_to build_magic_rook_post_mask coord_x coord_y read test_bit
rook_table = refl

pub bishop_table : all_to 64 (not_itself build_magic_bishop_post_mask) ≡ true
unfolding all_to build_magic_bishop_post_mask coord_diag1 coord_diag2 coord_x coord_y read test_bit
bishop_table = refl

pub moves_away :
    (attacks : ℕ → ℕ)
    → all_to 64 (not_itself attacks) ≡ true
    → (s d : ℕ) → s < 64
    → test_bit (attacks s) d ≡ true
    → s ≢ d
moves_away attacks table s d lt hit e =
    let itself = subst (λ d. test_bit (attacks s) d ≡ true) (sym e) hit in
    ground (arith, all_to_sound 64 (not_itself attacks) s table lt)

misses : (m d : ℕ) → test_bit m d ≡ false → bit_and (coord_to_bitboard d) m ≡ 0
misses m d e = test_bit_ext _ 0 λ i. simp bit_laws (ground (arith, test_bit-coord d i))

module _ (z : Zobrist) (t : MagicTables) (b : Board) (h : IsSynced z b) (s d : ℕ) where
  -- What the two loops of a generator know.
  pub record Step (attacks : ℕ → ℕ) : Type 0 where
    pub src_lt : s < 64
    pub dst_lt : d < 64
    pub moves : s ≢ d
    pub hit : test_bit (attacks s) d ≡ true
    pub free : is_color b.side (read b.cells d) ≡ false

  not_ours :
      {attacks : ℕ → ℕ} → Step attacks → bit_and (coord_to_bitboard d) (bb_color b b.side) ≡ 0
  not_ours k = misses _ d (color_bit z b h b.side d ∙ ground (arith, k.free))

  abbrev pub PlayableStep : Type 0
  PlayableStep = IsPlayable t b (record { kind = simple; src = s; dst = d; tag = 0 })

  step_intro :
      {attacks : ℕ → ℕ} (p : Piece)
      → (color_offset b.side + piece_code p == make_cell b.side pawn) ≡ false
      → Step attacks
      → read b.cells s ≡ make_cell b.side p
      → is_piece_move_valid t b.side b simple s d ≡ true
      → PlayableStep
  unfolding is_kind_valid kind_well_formed
  step_intro p n k at v =
      IsPlayable-intro t b simple s d k.src_lt k.dst_lt k.moves refl (ground (arith, at, v, n))

  pub king_step : Step king_attacks → read b.cells s ≡ make_cell b.side king → PlayableStep
  unfolding is_piece_move_valid
  king_step k at =
      let v : is_piece_move_valid t b.side b simple s d ≡ true =
        ground (arith, at, not_ours k, meets (king_attacks s) d k.hit) in
      step_intro king (ground arith) k at v

  pub knight_step : Step knight_attacks → read b.cells s ≡ make_cell b.side knight → PlayableStep
  unfolding is_piece_move_valid
  knight_step k at =
      let v : is_piece_move_valid t b.side b simple s d ≡ true =
        ground (arith, at, not_ours k, meets (knight_attacks s) d k.hit) in
      step_intro knight (ground arith) k at v

  pub diag_step :
      Step (bishop_attack_bitboard t b.bb_all)
      → (read b.cells s ≡ make_cell b.side bishop) ⊎ (read b.cells s ≡ make_cell b.side queen)
      → PlayableStep
  unfolding is_piece_move_valid
  diag_step k at =
      let v : is_piece_move_valid t b.side b simple s d ≡ true = ground (
        arith,
        at,
        not_ours k,
        bishop_attack_masked_lem t b.bb_all s (coord_to_bitboard d),
        meets (bishop_attack_bitboard t b.bb_all s) d k.hit,
      ) in
      elim at [
        | inl e ↦ step_intro bishop (ground arith) k e v
        | inr e ↦ step_intro queen (ground arith) k e v
      ]

  pub line_step :
      Step (rook_attack_bitboard t b.bb_all)
      → (read b.cells s ≡ make_cell b.side rook) ⊎ (read b.cells s ≡ make_cell b.side queen)
      → PlayableStep
  unfolding is_piece_move_valid
  line_step k at =
      let v : is_piece_move_valid t b.side b simple s d ≡ true = ground (
        arith,
        at,
        not_ours k,
        rook_attack_masked_lem t b.bb_all s (coord_to_bitboard d),
        meets (rook_attack_bitboard t b.bb_all s) d k.hit,
      ) in
      elim at [
        | inl e ↦ step_intro rook (ground arith) k e v
        | inr e ↦ step_intro queen (ground arith) k e v
      ]
