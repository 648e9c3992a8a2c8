-- ===== src/Core/Make/Simple.antt =====
-- The cases of `moveMake` but castling keep the bitboards in sync with the cells.
use sofcheck.Common.{ℕ, ◌+◌, ◌≤◌, ◌≡◌, ◌≢◌, refl, false, List, bit_or, read, arith}
use sofcheck.Core.Types.{Color, white, black, color_offset, coord_to_bitboard}
use sofcheck.Core.Zobrist.{Zobrist}
use sofcheck.Core.Board.{Board}
use sofcheck.Core.Move.{Move, promote_code, enpassant_pawn_pos}
use sofcheck.Core.Synced.{is_color, ShowsBelow, ShowsCells, CellsValid}
use sofcheck.Core.Synced.Change.{
  ShowsBelow-moved, ShowsBelow-captured, ShowsBelow-kept, ShowsBelow-taking, ShowsBelow-taken,
}
use sofcheck.Core.Synced.Pieces.{
  ShowsPieces, moved_pieces-ShowsPieces, stepped_pieces-ShowsPieces, promoted_pieces-ShowsPieces,
  taken_pieces-ShowsPieces,
}
use sofcheck.Core.Make.{
  make_simple, make_promote, make_enpassant, make_pawn_double_move, update_castling,
}
use sofcheck.Core.Make.Applicable.{Travels, PawnStep, Takes, Promotes}

abbrev pub InSync : Board → Type 0
InSync b = ShowsCells 64 b.cells b.bb_white b.bb_black b.bb_pieces

pub pieces_of :
    {cells : List ℕ} {w b : ℕ} {pieces : List ℕ}
    → ShowsCells 64 cells w b pieces
    → ShowsPieces cells pieces
pieces_of h = (h.pieces_size, h.by_piece, h.no_empty)

with_pieces :
    {cells : List ℕ} {w b : ℕ} {pieces : List ℕ}
    → ShowsBelow 64 (is_color white) cells w
    → ShowsBelow 64 (is_color black) cells b
    → ShowsPieces cells pieces
    → ShowsCells 64 cells w b pieces
with_pieces hw hb hp = record {
  pieces_size = hp.0;
  by_white = hw;
  by_black = hb;
  by_piece = hp.1;
  no_empty = hp.2;
}

abbrev pub SameBoards : Board → Board → Type 0
SameBoards b' b =
    (b'.cells ≡ b.cells)
    × (b'.bb_white ≡ b.bb_white)
    × (b'.bb_black ≡ b.bb_black)
    × (b'.bb_pieces ≡ b.bb_pieces)

module _ (z : Zobrist) where
  pub update_castling-boards : (v : ℕ) (b : Board) → SameBoards (update_castling z v b) b
  unfolding update_castling
  update_castling-boards v b = ground arith

  update_castling-InSync : (v : ℕ) (b : Board) → InSync b → InSync (update_castling z v b)
  update_castling-InSync v b h = let (c, w, k, p) = update_castling-boards v b in rw (c, w, k, p) h

  pub make_simple-InSync :
      (c : Color) (m : Move) (b : Board)
      → CellsValid b.cells
      → InSync b
      → Travels c b.cells m.src m.dst
      → InSync (make_simple z c m (read b.cells m.src) (read b.cells m.dst) b)
  unfolding make_simple
  make_simple-InSync white m b valid h t = update_castling-InSync _ _ (
      with_pieces
        (ShowsBelow-moved (is_color white) b.cells b.bb_white h.by_white valid.0 refl m.src m.dst
          (read b.cells m.src) t.src_lt t.dst_lt t.src_ne_dst t.ours t.free t.ours)
        (ShowsBelow-captured (is_color black) b.cells b.bb_black h.by_black valid.0 refl m.src m.dst
          (read b.cells m.src) t.src_lt t.dst_lt (ground arith) (ground arith))
        (moved_pieces-ShowsPieces b.cells b.bb_pieces (pieces_of h) valid.0 m.src m.dst t.src_lt
          t.dst_lt t.src_ne_dst (read b.cells m.src) (read b.cells m.dst) refl refl (ground arith)
          (ground arith) (valid.1 m.src) (valid.1 m.dst)))
  make_simple-InSync black m b valid h t = update_castling-InSync _ _ (
      with_pieces
        (ShowsBelow-captured (is_color white) b.cells b.bb_white h.by_white valid.0 refl m.src m.dst
          (read b.cells m.src) t.src_lt t.dst_lt (ground arith) (ground arith))
        (ShowsBelow-moved (is_color black) b.cells b.bb_black h.by_black valid.0 refl m.src m.dst
          (read b.cells m.src) t.src_lt t.dst_lt t.src_ne_dst t.ours t.free t.ours)
        (moved_pieces-ShowsPieces b.cells b.bb_pieces (pieces_of h) valid.0 m.src m.dst t.src_lt
          t.dst_lt t.src_ne_dst (read b.cells m.src) (read b.cells m.dst) refl refl (ground arith)
          (ground arith) (valid.1 m.src) (valid.1 m.dst)))

  pub make_pawn_double_move-InSync :
      (c : Color) (m : Move) (b : Board)
      → CellsValid b.cells
      → InSync b
      → PawnStep c b.cells m.src m.dst
      → InSync (
          make_pawn_double_move z c false m
            (bit_or (coord_to_bitboard m.src) (coord_to_bitboard m.dst))
            b)
  unfolding make_pawn_double_move
  make_pawn_double_move-InSync white m b valid h t =
      with_pieces
        (ShowsBelow-moved (is_color white) b.cells b.bb_white h.by_white valid.0 refl m.src m.dst 1
          t.src_lt t.dst_lt t.src_ne_dst (rw t.our_pawn) (rw t.free) refl)
        (ShowsBelow-kept (is_color black) b.cells b.bb_black h.by_black valid.0 refl m.src m.dst 1
          (rw t.our_pawn) (rw t.free) refl)
        (stepped_pieces-ShowsPieces b.cells b.bb_pieces (pieces_of h) valid.0 m.src m.dst t.src_lt
          t.dst_lt t.src_ne_dst 1 t.our_pawn t.free (omega arith) (omega arith))
  make_pawn_double_move-InSync black m b valid h t =
      with_pieces
        (ShowsBelow-kept (is_color white) b.cells b.bb_white h.by_white valid.0 refl m.src m.dst 9
          (rw t.our_pawn) (rw t.free) refl)
        (ShowsBelow-moved (is_color black) b.cells b.bb_black h.by_black valid.0 refl m.src m.dst 9
          t.src_lt t.dst_lt t.src_ne_dst (rw t.our_pawn) (rw t.free) refl)
        (stepped_pieces-ShowsPieces b.cells b.bb_pieces (pieces_of h) valid.0 m.src m.dst t.src_lt
          t.dst_lt t.src_ne_dst 9 t.our_pawn t.free (omega arith) (omega arith))

  pub make_promote-InSync :
      (c : Color) (m : Move) (b : Board)
      → CellsValid b.cells
      → InSync b
      → Promotes c b.cells m.src m.dst
      → 2 ≤ promote_code m.kind
      → promote_code m.kind ≤ 5
      → InSync (make_promote z c m (read b.cells m.src) (read b.cells m.dst) b)
  unfolding make_promote
  make_promote-InSync white m b valid h t lo hi =
      let q = color_offset white + promote_code m.kind in
      update_castling-InSync _ _ (
        with_pieces
          (ShowsBelow-moved (is_color white) b.cells b.bb_white h.by_white valid.0 refl m.src m.dst
            q t.src_lt t.dst_lt t.src_ne_dst (rw t.our_pawn) t.free (ground arith))
          (ShowsBelow-captured (is_color black) b.cells b.bb_black h.by_black valid.0 refl m.src
            m.dst q t.src_lt t.dst_lt (rw t.our_pawn) (ground arith))
          (promoted_pieces-ShowsPieces b.cells b.bb_pieces (pieces_of h) valid.0 m.src m.dst
            t.src_lt t.dst_lt t.src_ne_dst 1 q (read b.cells m.dst) t.our_pawn refl (ground arith)
            (ground arith) (omega arith) (omega arith) (omega arith) (omega arith) (omega arith)
            (valid.1 m.dst)))
  make_promote-InSync black m b valid h t lo hi =
      let q = color_offset black + promote_code m.kind in
      update_castling-InSync _ _ (
        with_pieces
          (ShowsBelow-captured (is_color white) b.cells b.bb_white h.by_white valid.0 refl m.src
            m.dst q t.src_lt t.dst_lt (rw t.our_pawn) (ground arith))
          (ShowsBelow-moved (is_color black) b.cells b.bb_black h.by_black valid.0 refl m.src m.dst
            q t.src_lt t.dst_lt t.src_ne_dst (rw t.our_pawn) t.free (ground arith))
          (promoted_pieces-ShowsPieces b.cells b.bb_pieces (pieces_of h) valid.0 m.src m.dst
            t.src_lt t.dst_lt t.src_ne_dst 9 q (read b.cells m.dst) t.our_pawn refl (ground arith)
            (ground arith) (omega arith) (omega arith) (omega arith) (omega arith) (omega arith)
            (valid.1 m.dst)))

  pub make_enpassant-InSync :
      (c : Color) (m : Move) (b : Board)
      → CellsValid b.cells
      → InSync b
      → Takes c b.cells m.src m.dst
      → InSync (
          make_enpassant z c false m (bit_or (coord_to_bitboard m.src) (coord_to_bitboard m.dst)) b)
  unfolding make_enpassant
  make_enpassant-InSync white m b valid h t =
      let x = enpassant_pawn_pos white m.dst in
      let x_ne_dst : x ≢ m.dst = omega arith in
      let x_ne_src : x ≢ m.src = ground (arith, t.our_pawn, t.enemy_pawn) in
      with_pieces
        (ShowsBelow-taking (is_color white) b.cells b.bb_white h.by_white valid.0 refl m.src m.dst x
          1 t.src_lt t.dst_lt t.src_ne_dst x_ne_dst (rw t.our_pawn) (rw t.free) (rw t.enemy_pawn)
          refl)
        (ShowsBelow-taken (is_color black) b.cells b.bb_black h.by_black valid.0 refl m.src m.dst x
          1 t.taken_lt x_ne_dst (rw t.our_pawn) (rw t.free) (rw t.enemy_pawn) refl)
        (taken_pieces-ShowsPieces b.cells b.bb_pieces (pieces_of h) valid.0 m.src m.dst t.src_lt
          t.dst_lt t.src_ne_dst x 1 9 t.taken_lt x_ne_src x_ne_dst t.our_pawn t.free t.enemy_pawn
          (omega arith) (omega arith) (omega arith) (omega arith) (omega arith))
  make_enpassant-InSync black m b valid h t =
      let x = enpassant_pawn_pos black m.dst in
      let x_ne_dst : x ≢ m.dst = omega (arith, t.dst_lt) in
      let x_ne_src : x ≢ m.src = ground (arith, t.our_pawn, t.enemy_pawn) in
      with_pieces
        (ShowsBelow-taken (is_color white) b.cells b.bb_white h.by_white valid.0 refl m.src m.dst x
          9 t.taken_lt x_ne_dst (rw t.our_pawn) (rw t.free) (rw t.enemy_pawn) refl)
        (ShowsBelow-taking (is_color black) b.cells b.bb_black h.by_black valid.0 refl m.src m.dst x
          9 t.src_lt t.dst_lt t.src_ne_dst x_ne_dst (rw t.our_pawn) (rw t.free) (rw t.enemy_pawn)
          refl)
        (taken_pieces-ShowsPieces b.cells b.bb_pieces (pieces_of h) valid.0 m.src m.dst t.src_lt
          t.dst_lt t.src_ne_dst x 9 1 t.taken_lt x_ne_src x_ne_dst t.our_pawn t.free t.enemy_pawn
          (omega arith) (omega arith) (omega arith) (omega arith) (omega arith))
