-- ===== src/Core/Make/Sync.antt =====
-- `moveMake` as a whole keeps the auxiliary fields as `update` would compute them.
use sofcheck.Common.{
  ℕ, ◌+◌, ◌<◌, ◌≡◌, ◌∙◌, refl, subst, List, read, write, arith, length-write, read-write,
}
use sofcheck.Core.Types.{
  Color, white, black, pawn, king, rook, make_cell, invalid_coord, color_offset,
}
use sofcheck.Core.Geometry.{castling_offset}
use sofcheck.Core.Zobrist.{Zobrist}
use sofcheck.Core.Board.{Board}
use sofcheck.Core.Move.{
  Move, MoveKind, null, simple, pawn_double_move, enpassant, castling_kingside, castling_queenside,
  promote_knight, promote_bishop, promote_rook, promote_queen, invalid, enpassant_pawn_pos,
}
use sofcheck.Core.Hash.{compute_hash_lem}
use sofcheck.Core.Synced.{CellsValid, IsSynced}
use sofcheck.Core.Make.{
  make_kind, make_simple, make_promote, make_enpassant, make_pawn_double_move,
  make_kingside_castling, make_queenside_castling, update_castling, clear_enpassant, finish_move,
  move_make_impl, move_make,
}
use sofcheck.Core.Make.Applicable.{ApplicableKind, IsApplicable}
use sofcheck.Core.Make.Simple.{
  InSync, make_simple-InSync, make_promote-InSync, make_enpassant-InSync,
  make_pawn_double_move-InSync,
}
use sofcheck.Core.Make.Castling.{make_kingside_castling-InSync, make_queenside_castling-InSync}
use sofcheck.Core.Make.Sums.{KeysMade}
use sofcheck.Core.Make.Keys.{
  Keyed, make_simple-Keyed, make_promote-Keyed, make_enpassant-Keyed, make_pawn_double_move-Keyed,
  make_kingside_castling-Keyed, make_queenside_castling-Keyed, clear_enpassant-Keyed, turn-Keyed,
}

CellsValid-write :
    (cells : List ℕ) (i v : ℕ) → v < 15 → CellsValid cells → CellsValid (write cells i v)
CellsValid-write cells i v lt h =
    (length-write cells i v ∙ h.0, λ j. ground (arith, read-write cells i v j, h.1 j))

two_writes :
    (cells : List ℕ) (i v j w : ℕ)
    → v < 15
    → w < 15
    → CellsValid cells
    → CellsValid (write (write cells i v) j w)
two_writes cells i v j w hv hw h = CellsValid-write _ j w hw (CellsValid-write cells i v hv h)

module _ (z : Zobrist) where
  -- What the cases write to the cells.
  abbrev pub made_cells : Color → List ℕ → MoveKind → ℕ → ℕ → List ℕ
  made_cells c cells simple s d = write (write cells s 0) d (read cells s)
  made_cells c cells pawn_double_move s d = write (write cells s 0) d (make_cell c pawn)
  made_cells c cells enpassant s d =
      write (write (write cells s 0) d (make_cell c pawn)) (enpassant_pawn_pos c d) 0
  made_cells c cells castling_kingside s d =
      let o = castling_offset c in
      write
        (write (write (write cells (o + 4) 0) (o + 5) (make_cell c rook)) (o + 6)
          (make_cell c king))
        (o + 7) 0
  made_cells c cells castling_queenside s d =
      let o = castling_offset c in
      write
        (write (write (write cells (o + 0) 0) (o + 2) (make_cell c king)) (o + 3)
          (make_cell c rook))
        (o + 4) 0
  made_cells c cells null s d = cells
  made_cells c cells invalid s d = cells
  made_cells c cells promote_knight s d = write (write cells s 0) d (color_offset c + 2)
  made_cells c cells promote_bishop s d = write (write cells s 0) d (color_offset c + 3)
  made_cells c cells promote_rook s d = write (write cells s 0) d (color_offset c + 4)
  made_cells c cells promote_queen s d = write (write cells s 0) d (color_offset c + 5)

  pub make_kind-cells :
      (c : Color) (m : Move) (k : MoveKind) (b : Board)
      → m.kind ≡ k
      → (make_kind z c m k (read b.cells m.src) (read b.cells m.dst) b).cells
        ≡ made_cells c b.cells k m.src m.dst
  unfolding make_kind make_simple make_promote make_enpassant make_pawn_double_move
      make_kingside_castling make_queenside_castling update_castling
  make_kind-cells white m simple b e = ground arith
  make_kind-cells white m _ b e = ground arith
  make_kind-cells black m simple b e = ground arith
  make_kind-cells black m _ b e = ground arith

  made_cells-CellsValid :
      (c : Color) (cells : List ℕ) (k : MoveKind) (s d : ℕ)
      → CellsValid cells
      → CellsValid (made_cells c cells k s d)
  made_cells-CellsValid c cells simple s d h =
      CellsValid-write _ _ _ (h.1 s) (CellsValid-write _ _ _ (omega arith) h)
  made_cells-CellsValid c cells null s d h = h
  made_cells-CellsValid c cells invalid s d h = h
  made_cells-CellsValid white cells pawn_double_move s d h =
      two_writes _ _ _ _ _ (omega arith) (omega arith) h
  made_cells-CellsValid black cells pawn_double_move s d h =
      two_writes _ _ _ _ _ (omega arith) (omega arith) h
  made_cells-CellsValid white cells enpassant s d h =
      CellsValid-write _ _ _ (omega arith) (two_writes _ _ _ _ _ (omega arith) (omega arith) h)
  made_cells-CellsValid black cells enpassant s d h =
      CellsValid-write _ _ _ (omega arith) (two_writes _ _ _ _ _ (omega arith) (omega arith) h)
  made_cells-CellsValid white cells castling_kingside s d h =
      two_writes _ _ _ _ _ (omega arith) (omega arith)
        (two_writes _ _ _ _ _ (omega arith) (omega arith) h)
  made_cells-CellsValid black cells castling_kingside s d h =
      two_writes _ _ _ _ _ (omega arith) (omega arith)
        (two_writes _ _ _ _ _ (omega arith) (omega arith) h)
  made_cells-CellsValid white cells castling_queenside s d h =
      two_writes _ _ _ _ _ (omega arith) (omega arith)
        (two_writes _ _ _ _ _ (omega arith) (omega arith) h)
  made_cells-CellsValid black cells castling_queenside s d h =
      two_writes _ _ _ _ _ (omega arith) (omega arith)
        (two_writes _ _ _ _ _ (omega arith) (omega arith) h)
  made_cells-CellsValid white cells _ s d h = two_writes _ _ _ _ _ (omega arith) (omega arith) h
  made_cells-CellsValid black cells _ s d h = two_writes _ _ _ _ _ (omega arith) (omega arith) h

  pub make_kind-side :
      (c : Color) (m : Move) (k : MoveKind) (s d : ℕ) (b : Board)
      → (make_kind z c m k s d b).side ≡ b.side
  unfolding make_kind make_simple make_promote make_enpassant make_pawn_double_move
      make_kingside_castling make_queenside_castling update_castling
  make_kind-side white m simple s d b = ground arith
  make_kind-side white m _ s d b = ground arith
  make_kind-side black m simple s d b = ground arith
  make_kind-side black m _ s d b = ground arith

  make_kind-InSync :
      (c : Color) (m : Move) (k : MoveKind) (b : Board)
      → m.kind ≡ k
      → CellsValid b.cells
      → InSync b
      → ApplicableKind c b.cells k m.src m.dst
      → InSync (make_kind z c m k (read b.cells m.src) (read b.cells m.dst) b)
  unfolding make_kind
  make_kind-InSync c m simple b e v h t = make_simple-InSync z c m b v h t
  make_kind-InSync c m pawn_double_move b e v h t = make_pawn_double_move-InSync z c m b v h t
  make_kind-InSync c m enpassant b e v h t = make_enpassant-InSync z c m b v h t
  make_kind-InSync c m castling_kingside b e v h t = make_kingside_castling-InSync z c b v h t
  make_kind-InSync c m castling_queenside b e v h t = make_queenside_castling-InSync z c b v h t
  make_kind-InSync c m null b e v h t = h
  make_kind-InSync c m invalid b e v h t = absurd t
  make_kind-InSync c m _ b e v h t =
      make_promote-InSync z c m b v h t (rw e (omega arith)) (rw e (omega arith))

  -- The square of the last double move is dropped, and nothing else changes but the hash.
  pub clear_enpassant-fields :
      (b : Board)
      → ((clear_enpassant z b).enpassant_coord ≡ invalid_coord)
        × ((clear_enpassant z b).cells ≡ b.cells)
        × ((clear_enpassant z b).side ≡ b.side)
        × ((clear_enpassant z b).bb_white ≡ b.bb_white)
        × ((clear_enpassant z b).bb_black ≡ b.bb_black)
        × ((clear_enpassant z b).bb_pieces ≡ b.bb_pieces)
  unfolding clear_enpassant
  clear_enpassant-fields b = ground arith

module _ (z : Zobrist) (made : KeysMade z) where
  make_kind-Keyed :
      (c : Color) (m : Move) (k : MoveKind) (b : Board)
      → CellsValid b.cells
      → b.enpassant_coord ≡ invalid_coord
      → Keyed z b
      → ApplicableKind c b.cells k m.src m.dst
      → Keyed z (make_kind z c m k (read b.cells m.src) (read b.cells m.dst) b)
  unfolding make_kind
  make_kind-Keyed c m simple b v n h t = make_simple-Keyed z made c m b v h t
  make_kind-Keyed c m pawn_double_move b v n h t = make_pawn_double_move-Keyed z made c m b v n h t
  make_kind-Keyed c m enpassant b v n h t = make_enpassant-Keyed z made c m b v h t
  make_kind-Keyed c m castling_kingside b v n h t = make_kingside_castling-Keyed z made c b v h t
  make_kind-Keyed c m castling_queenside b v n h t = make_queenside_castling-Keyed z made c b v h t
  make_kind-Keyed c m null b v n h t = h
  make_kind-Keyed c m invalid b v n h t = absurd t
  make_kind-Keyed c m _ b v n h t = make_promote-Keyed z made c m b v h t

  finish_move-IsSynced :
      (c : Color) (s d : ℕ) (b : Board)
      → b.side ≡ c
      → CellsValid b.cells
      → InSync b
      → Keyed z b
      → IsSynced z (finish_move z c s d b)
  unfolding finish_move
  finish_move-IsSynced c s d b e v h k = record {
    cells_valid = v;
    boards = h;
    all_pieces = refl;
    hashed = rw (compute_hash_lem, k, e) (turn-Keyed z c _ _ _);
  }

  make_finish-IsSynced :
      (c : Color) (m : Move) (b : Board)
      → b.side ≡ c
      → b.enpassant_coord ≡ invalid_coord
      → CellsValid b.cells
      → InSync b
      → Keyed z b
      → ApplicableKind c b.cells m.kind m.src m.dst
      → let s = read b.cells m.src in
        let d = read b.cells m.dst in
        IsSynced z (finish_move z c s d (make_kind z c m m.kind s d b))
  make_finish-IsSynced c m b side none v h k t =
      finish_move-IsSynced c _ _ _ (make_kind-side z c m m.kind _ _ b ∙ side)
        (rw (make_kind-cells z c m m.kind b refl)
          (made_cells-CellsValid z c b.cells m.kind m.src m.dst v))
        (make_kind-InSync z c m m.kind b refl v h t) (make_kind-Keyed c m m.kind b v none k t)

  -- A move that applies to a position in sync leads to a position in sync: the bitboards show the
  -- cells, and the hash that is updated step by step is the one computed from scratch. The keys are
  -- related as `initZobrist` makes them.
  pub move_make-IsSynced :
      (b : Board) (m : Move) → IsSynced z b → IsApplicable b m → IsSynced z (move_make z b m).0
  unfolding move_make move_make_impl
  move_make-IsSynced b m h t =
      let f = clear_enpassant-fields z b in
      subst
        (λ (l : List ℕ). IsSynced z (
          finish_move z b.side (read l m.src) (read l m.dst)
            (make_kind z b.side m m.kind (read l m.src) (read l m.dst) (clear_enpassant z b))))
        f.1
        (make_finish-IsSynced b.side m (clear_enpassant z b) f.2 f.0 (rw f.1 h.cells_valid)
          (rw (f.1, f.3, f.4, f.5) h.boards)
          (clear_enpassant-Keyed z b (h.hashed ∙ compute_hash_lem z b)) (rw f.1 t))
