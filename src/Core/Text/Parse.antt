-- ===== src/Core/Text/Parse.antt =====
-- A move read from its text in the position where it is made.
use sofcheck.Common.{
  ℕ, ◌<◌, ◌≡◌, ◌≢◌, refl, ap, sym, true, false, ◌==◌, read, arith, List, ◌⊎◌, subst,
}
use sofcheck.Common.Pack.{packed}
use sofcheck.Core.Types.{
  Color, white, black, make_coord, coord_x, coord_y, make_cell, pawn, king, empty_cell,
}
use sofcheck.Core.Geometry.{double_move_src_row, double_move_dst_row, castling_row}
use sofcheck.Core.Board.{Board}
use sofcheck.Core.Move.{
  Move, MoveKind, null, simple, pawn_double_move, enpassant, castling_kingside, castling_queenside,
  promote_knight, promote_bishop, promote_rook, promote_queen, invalid, null_move, is_well_formed,
  kind_well_formed,
}
use sofcheck.Core.Make.Applicable.{IsApplicable, ApplicableKind}
use sofcheck.Core.Text.{
  ParsedMove, PromotePiece, promote_piece_code, parsed_as_uint, parsed_eq, invalid_parsed_move,
  null_parsed_move, from_str, move_to_str, move_from_parsed, pawn_or_king_kind, move_parse,
  promote_kind,
}
use sofcheck.Core.Text.Trip.{parsed_of, promote_of, from_str-printed}

-- A move that its text alone shows to be simple: not a double step, not the capture of a passing
-- pawn, and not castling.
pub record IsPlain (c : Color) (cells : List ℕ) (s d : ℕ) : Type 0 where
  pub single_step :
      read cells s ≡ make_cell c pawn
      → (coord_x s ≢ double_move_src_row c) ⊎ (coord_x d ≢ double_move_dst_row c)
  pub on_target :
      read cells s ≡ make_cell c pawn → (coord_y s ≡ coord_y d) ⊎ (read cells d ≢ empty_cell)
  pub no_castling :
      read cells s ≡ make_cell c king
      → s ≡ make_coord (castling_row c) 4
      → (d ≢ make_coord (castling_row c) 6) × (d ≢ make_coord (castling_row c) 2)

parsed_valid : (p : ParsedMove) → p.src < 64 → parsed_eq p invalid_parsed_move ≡ false
unfolding parsed_eq parsed_as_uint
parsed_valid p hs =
    ground (arith, packed (promote_piece_code p.promote) p.src p.dst p.unused, packed 0 255 255 0)

parsed_moves :
    (p : ParsedMove)
    → p.src < 64
    → p.dst < 64
    → p.src ≢ p.dst
    → parsed_eq p null_parsed_move ≡ false
unfolding parsed_eq parsed_as_uint
parsed_moves p hs hd ne =
    ground (arith, packed (promote_piece_code p.promote) p.src p.dst p.unused, packed 0 0 0 0)

-- The kind of a move without promotion is found again.
module _ (cells : List ℕ) (s d : ℕ) where
  plain_kind : (c : Color) → IsPlain c cells s d → pawn_or_king_kind c cells s d ≡ simple
  unfolding pawn_or_king_kind
  plain_kind white h = ground (arith, h.single_step, h.on_target, h.no_castling)
  plain_kind black h = ground (arith, h.single_step, h.on_target, h.no_castling)

  special_kind :
      (c : Color) (k : MoveKind)
      → kind_well_formed c k s d ≡ true
      → ApplicableKind c cells k s d
      → k ≢ simple
      → k ≢ null
      → promote_of k ≡ PromotePiece.none
      → pawn_or_king_kind c cells s d ≡ k
  unfolding pawn_or_king_kind kind_well_formed make_coord
  special_kind c simple wf t n₁ n₂ e = absurd (n₁ refl)
  special_kind c null wf t n₁ n₂ e = absurd (n₂ refl)
  special_kind c pawn_double_move wf t n₁ n₂ e = ground (arith, t.our_pawn)
  special_kind white enpassant wf t n₁ n₂ e = ground (arith, t.our_pawn, t.free)
  special_kind black enpassant wf t n₁ n₂ e = ground (arith, t.our_pawn, t.free)
  special_kind white castling_kingside wf t n₁ n₂ e = ground (arith, t.king_home)
  special_kind black castling_kingside wf t n₁ n₂ e = ground (arith, t.king_home)
  special_kind white castling_queenside wf t n₁ n₂ e = ground (arith, t.king_home)
  special_kind black castling_queenside wf t n₁ n₂ e = ground (arith, t.king_home)
  special_kind c invalid wf t n₁ n₂ e = absurd t
  special_kind c _ wf t n₁ n₂ e = ground arith

module _ (b : Board) (s d : ℕ) (hs : s < 64) (hd : d < 64) (ne : s ≢ d) where
  unpromoted :
      (k : MoveKind)
      → promote_of k ≡ PromotePiece.none
      → pawn_or_king_kind b.side b.cells s d ≡ k
      → let m : Move = record { kind = k; src = s; dst = d; tag = 0 } in
        move_from_parsed (parsed_of m) b ≡ m
  unfolding move_from_parsed
  unpromoted k e found =
      let p = parsed_of (record { kind = k; src = s; dst = d; tag = 0 }) in
      rw (parsed_valid p hs, parsed_moves p hs hd ne, e, found) refl

  promoted :
      (k : MoveKind)
      → (promote_piece_code (promote_of k) == 0) ≡ false
      → promote_kind (promote_of k) ≡ k
      → let m : Move = record { kind = k; src = s; dst = d; tag = 0 } in
        move_from_parsed (parsed_of m) b ≡ m
  unfolding move_from_parsed
  promoted k e found =
      let p = parsed_of (record { kind = k; src = s; dst = d; tag = 0 }) in
      rw (parsed_valid p hs, parsed_moves p hs hd ne, e, found) refl

  moved :
      (k : MoveKind)
      → kind_well_formed b.side k s d ≡ true
      → ApplicableKind b.side b.cells k s d
      → (k ≡ simple → IsPlain b.side b.cells s d)
      → k ≢ null
      → let m : Move = record { kind = k; src = s; dst = d; tag = 0 } in
        move_from_parsed (parsed_of m) b ≡ m
  moved promote_knight wf t plain nn = promoted promote_knight refl refl
  moved promote_bishop wf t plain nn = promoted promote_bishop refl refl
  moved promote_rook wf t plain nn = promoted promote_rook refl refl
  moved promote_queen wf t plain nn = promoted promote_queen refl refl
  moved simple wf t plain nn = unpromoted simple refl (plain_kind b.cells s d b.side (plain refl))
  moved null wf t plain nn = absurd (nn refl)
  moved invalid wf t plain nn = absurd t
  moved pawn_double_move wf t plain nn =
      unpromoted pawn_double_move refl
        (special_kind b.cells s d b.side pawn_double_move wf t (λ e. ground arith) nn refl)
  moved enpassant wf t plain nn =
      unpromoted enpassant refl
        (special_kind b.cells s d b.side enpassant wf t (λ e. ground arith) nn refl)
  moved castling_kingside wf t plain nn =
      unpromoted castling_kingside refl
        (special_kind b.cells s d b.side castling_kingside wf t (λ e. ground arith) nn refl)
  moved castling_queenside wf t plain nn =
      unpromoted castling_queenside refl
        (special_kind b.cells s d b.side castling_queenside wf t (λ e. ground arith) nn refl)

moving_parts :
    (c : Color) (k : MoveKind) (s d t : ℕ)
    → is_well_formed (record { kind = k; src = s; dst = d; tag = t }) c ≡ true
    → k ≢ null
    → (s < 64) × (d < 64) × (s ≢ d) × (kind_well_formed c k s d ≡ true)
unfolding is_well_formed
moving_parts c null s d t wf ne = absurd (ne refl)
moving_parts c _ s d t wf ne = ground arith

null_parts :
    (c : Color) (s d t : ℕ)
    → is_well_formed (record { kind = null; src = s; dst = d; tag = t }) c ≡ true
    → (s ≡ 0) × (d ≡ 0)
unfolding is_well_formed kind_well_formed
null_parts c s d t wf = ground arith

null_read : (b : Board) → move_parse (move_to_str null_move) b ≡ null_move
unfolding move_parse move_to_str from_str move_from_parsed parsed_eq parsed_as_uint
null_read b = refl

moved_read :
    (b : Board) (k : MoveKind) (s d : ℕ)
    → let m : Move = record { kind = k; src = s; dst = d; tag = 0 } in
      is_well_formed m b.side ≡ true
      → ApplicableKind b.side b.cells k s d
      → (k ≡ simple → IsPlain b.side b.cells s d)
      → k ≢ null
      → move_parse (move_to_str m) b ≡ m
unfolding move_parse
moved_read b k s d wf t plain nn =
    let (hs, hd, ne, kind_wf) = moving_parts b.side k s d 0 wf nn in
    rw (from_str-printed s d 0 hs hd k nn) (moved b s d hs hd ne k kind_wf t plain nn)

kind_read :
    (b : Board) (k : MoveKind) (s d : ℕ)
    → let m : Move = record { kind = k; src = s; dst = d; tag = 0 } in
      is_well_formed m b.side ≡ true
      → ApplicableKind b.side b.cells k s d
      → (k ≡ simple → IsPlain b.side b.cells s d)
      → move_parse (move_to_str m) b ≡ m
kind_read b null s d wf t plain =
    let (e, e') = null_parts b.side s d 0 wf in rw (e, e') (null_read b)
kind_read b _ s d wf t plain = moved_read b _ s d wf t plain (λ e. ground arith)

-- A move of any kind that is well formed for the side to move and applies to the position, with a
-- zero tag, is what its text is parsed as in that position; a simple move must not look like a
-- double step, the capture of a passing pawn or castling.
pub move_parse-move_to_str :
    (b : Board) (m : Move)
    → is_well_formed m b.side ≡ true
    → IsApplicable b m
    → (m.kind ≡ simple → IsPlain b.side b.cells m.src m.dst)
    → m.tag ≡ 0
    → move_parse (move_to_str m) b ≡ m
move_parse-move_to_str b m wf t plain untagged =
    let m₀ : Move = record { kind = m.kind; src = m.src; dst = m.dst; tag = 0 } in
    let same : m₀ ≡ m =
      ap (λ t. record { kind = m.kind; src = m.src; dst = m.dst; tag = t }) (sym untagged) in
    subst (λ (n : Move). move_parse (move_to_str n) b ≡ n) same
      (kind_read b m.kind m.src m.dst
        (subst (λ (n : Move). is_well_formed n b.side ≡ true) (sym same) wf) t plain)
