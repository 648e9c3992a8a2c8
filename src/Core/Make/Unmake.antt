-- ===== src/Core/Make/Unmake.antt =====
-- `moveUnmake` of core/move.cpp as a whole, on the position that `moveMake` leaves.
use sofcheck.Common.{
  ℕ, ◌^◌, ◌<◌, ◌≡◌, ◌∙◌, refl, sym, ap, subst, List, read, write, arith, length, length-write,
  read-write,
}
use sofcheck.Core.Types.{Color, white, black, invert}
use sofcheck.Core.Zobrist.{Zobrist}
use sofcheck.Core.Board.{Board}
use sofcheck.Core.Move.{
  Move, MoveKind, null, simple, pawn_double_move, enpassant, castling_kingside, castling_queenside,
  invalid,
}
use sofcheck.Core.Synced.{CellsValid, IsSynced}
use sofcheck.Core.Make.{
  make_kind, make_simple, make_promote, make_enpassant, make_pawn_double_move,
  make_kingside_castling, make_queenside_castling, update_castling, clear_enpassant, finish_move,
  move_make_impl, move_make, unmake_simple, unmake_promote, unmake_kind, restore, move_unmake_impl,
  move_unmake, previous_number, next_number,
}
use sofcheck.Core.Make.Applicable.{ApplicableKind, IsApplicable}
use sofcheck.Core.Make.Simple.{InSync, SameBoards}
use sofcheck.Core.Make.Sync.{make_kind-cells, clear_enpassant-fields}
use sofcheck.Core.Make.Undo.{
  undo_simple, undo_promote, undo_pawn_double_move, undo_enpassant, undo_kingside_castling,
  undo_queenside_castling,
}

last_read :
    (cells : List ℕ) (s d x : ℕ)
    → length cells ≡ 64
    → d < 64
    → read (write (write cells s 0) d x) d ≡ x
last_read cells s d x size lt =
    ground (arith, read-write (write cells s 0) d x d, length-write cells s 0)

module _ (z : Zobrist) where
  unmake_kind-boards :
      (c : Color) (m : Move) (k : MoveKind) (b after : Board)
      → m.kind ≡ k
      → CellsValid b.cells
      → InSync b
      → ApplicableKind c b.cells k m.src m.dst
      → SameBoards after (make_kind z c m k (read b.cells m.src) (read b.cells m.dst) b)
      → SameBoards (unmake_kind z c m k (read after.cells m.dst) (read b.cells m.dst) after) b
  unfolding make_kind unmake_kind
  unmake_kind-boards c m simple b after e v h t same =
      let moved : read after.cells m.dst ≡ read b.cells m.src =
        ap (λ (l : List ℕ). read l m.dst) (same.0 ∙ make_kind-cells z c m simple b e)
        ∙ last_read b.cells m.src m.dst (read b.cells m.src) v.0 t.dst_lt in
      subst (λ (x : ℕ). SameBoards (unmake_simple z c m x (read b.cells m.dst) after) b) (sym moved)
        (undo_simple z c m b after v h t same)
  unmake_kind-boards c m pawn_double_move b after e v h t same =
      undo_pawn_double_move z c m _ b after t same
  unmake_kind-boards c m enpassant b after e v h t same = undo_enpassant z c m _ b after t same
  unmake_kind-boards c m castling_kingside b after e v h t same =
      undo_kingside_castling z c b after v t same
  unmake_kind-boards c m castling_queenside b after e v h t same =
      undo_queenside_castling z c b after v t same
  unmake_kind-boards c m null b after e v h t same = same
  unmake_kind-boards c m invalid b after e v h t same = absurd t
  unmake_kind-boards c m _ b after e v h t same =
      undo_promote z c m b after v h t (rw e (omega arith)) (rw e (omega arith)) same

  -- What neither making nor unmaking touches.
  make_kind-kept :
      (c : Color) (m : Move) (k : MoveKind) (s d : ℕ) (b : Board)
      → ((make_kind z c m k s d b).unused ≡ b.unused)
        × ((make_kind z c m k s d b).move_number ≡ b.move_number)
  unfolding make_kind make_simple make_promote make_enpassant make_pawn_double_move
      make_kingside_castling make_queenside_castling update_castling
  make_kind-kept white m simple s d b = ground arith
  make_kind-kept white m _ s d b = ground arith
  make_kind-kept black m simple s d b = ground arith
  make_kind-kept black m _ s d b = ground arith

  unmake_kind-kept :
      (c : Color) (m : Move) (k : MoveKind) (s d : ℕ) (b : Board)
      → ((unmake_kind z c m k s d b).unused ≡ b.unused)
        × ((unmake_kind z c m k s d b).move_number ≡ b.move_number)
  unfolding unmake_kind unmake_simple unmake_promote make_enpassant make_pawn_double_move
      make_kingside_castling make_queenside_castling
  unmake_kind-kept white m simple s d b = ground arith
  unmake_kind-kept white m _ s d b = ground arith
  unmake_kind-kept black m simple s d b = ground arith
  unmake_kind-kept black m _ s d b = ground arith

  previous-next : (c : Color) (n : ℕ) → n < 2 ^ 16 → previous_number z c (next_number z c n) ≡ n
  previous-next white n lt = refl
  previous-next black n lt = omega arith

  undone :
      (c : Color) (m : Move) (b t : Board)
      → c ≡ b.side
      → b.move_number < 2 ^ 16
      → IsSynced z b
      → let u = unmake_kind z c m m.kind (read t.cells m.dst) (read b.cells m.dst) t in
        SameBoards u b
        → t.unused ≡ b.unused
        → t.move_number ≡ next_number z c b.move_number
        → restore z c
            (record {
              hash = b.hash;
              castling = b.castling;
              enpassant_coord = b.enpassant_coord;
              move_counter = b.move_counter;
              dst_cell = read b.cells m.dst;
            })
            u
          ≡ b
  unfolding restore
  undone c m b t side lt h same kept number =
      let k = unmake_kind-kept c m m.kind (read t.cells m.dst) (read b.cells m.dst) t in
      let n = previous-next c b.move_number lt in
      ground (arith, same.0, same.1, same.2, same.3, k.0, k.1, n, h.all_pieces)

  turned : (c : Color) (s d : ℕ) (b : Board) → SameBoards (finish_move z c s d b) b
  unfolding finish_move
  turned c s d b = (refl, refl, refl, refl)

  unmade :
      (c : Color) (m : Move) (b₀ : Board) (l : List ℕ)
      → b₀.cells ≡ l
      → CellsValid b₀.cells
      → InSync b₀
      → ApplicableKind c b₀.cells m.kind m.src m.dst
      → let t =
          finish_move z c
            (read l m.src)
            (read l m.dst)
            (make_kind z c m m.kind (read l m.src) (read l m.dst) b₀) in
        SameBoards (unmake_kind z c m m.kind (read t.cells m.dst) (read l m.dst) t) b₀
  unmade c m b₀ l e v h t =
      subst
        (λ (l : List ℕ).
          let t =
            finish_move z c (read l m.src) (read l m.dst)
              (make_kind z c m m.kind (read l m.src) (read l m.dst) b₀) in
          SameBoards (unmake_kind z c m m.kind (read t.cells m.dst) (read l m.dst) t) b₀)
        e (unmake_kind-boards c m m.kind b₀ _ refl v h t (turned c _ _ _))

  invert-invert : (c : Color) → invert (invert c) ≡ c
  invert-invert white = refl
  invert-invert black = refl

  made_kept :
      (c : Color) (m : Move) (s d : ℕ) (b : Board)
      → let t = finish_move z c s d (make_kind z c m m.kind s d (clear_enpassant z b)) in
        (t.unused ≡ b.unused) × (t.move_number ≡ next_number z c b.move_number)
  unfolding finish_move clear_enpassant
  made_kept c m s d b =
      let k = make_kind-kept c m m.kind s d (clear_enpassant z b) in
      (k.0 ∙ ground arith, ap (next_number z c) (k.1 ∙ ground arith))

  -- Unmaking a move that was just made gives the position back, all its fields included. The
  -- position is in sync, the move applies to it, and the move number fits 16 bits.
  pub move_unmake-move_make :
      (b : Board) (m : Move)
      → IsSynced z b
      → IsApplicable b m
      → b.move_number < 2 ^ 16
      → move_unmake z (move_make z b m).0 m (move_make z b m).1 ≡ b
  unfolding move_make move_make_impl move_unmake move_unmake_impl finish_move
  move_unmake-move_make b m h t lt =
      let f = clear_enpassant-fields z b in
      let kept = made_kept b.side m (read b.cells m.src) (read b.cells m.dst) b in
      let same =
        unmade b.side m (clear_enpassant z b) b.cells f.1 (rw f.1 h.cells_valid)
          (rw (f.1, f.3, f.4, f.5) h.boards) (rw f.1 t) in
      rw (invert-invert b.side) (
        undone b.side m b _ refl lt h (same.0 ∙ f.1, same.1 ∙ f.3, same.2 ∙ f.4, same.3 ∙ f.5)
          kept.0 kept.1)
