-- ===== src/Core/Reach/Play.antt =====
-- Positions reached by generated moves and null moves stay in sync, coherent and with one king of
-- each colour at most, and each generated move can be taken back.
use sofcheck.Common.{ℕ, ◌<◌, ◌^◌, ◌≡◌, true, ◌==◌, arith, Occurs, Occurs-All, bit_and}
use sofcheck.Core.Types.{Color}
use sofcheck.Core.Zobrist.{Zobrist}
use sofcheck.Core.Board.{Board, is_kingside_castling, is_queenside_castling}
use sofcheck.Core.Move.{
  Move, MoveKind, pawn_double_move, null_move, is_well_formed, kind_well_formed,
}
use sofcheck.Core.Make.{move_make, move_unmake}
use sofcheck.Core.Make.Applicable.{IsApplicable, ApplicableKind}
use sofcheck.Core.Make.Sums.{KeysMade}
use sofcheck.Core.Make.Sync.{move_make-IsSynced}
use sofcheck.Core.Make.Unmake.{move_unmake-move_make}
use sofcheck.Core.Synced.{IsSynced}
use sofcheck.Core.Attacks.{MagicTables}
use sofcheck.Core.Coherent.{IsCoherent}
use sofcheck.Core.Coherent.Playable.{IsPlayable, DoubleStep-formed, step_free}
use sofcheck.Core.Coherent.Applicable.{IsPlayable-IsApplicable}
use sofcheck.Core.MoveGen.Valid.{is_move_valid, is_kind_valid, is_pawn_move_valid, must_be_empty}
use sofcheck.Core.MoveGen.Gen.{gen_all_moves, new_move_gen}
use sofcheck.Core.MoveGen.Playable.{OneKing}
use sofcheck.Core.MoveGen.Generated.{Generators-All}
use sofcheck.Core.Reach.Flags.{kingside, queenside}
use sofcheck.Core.Reach.Kings.{made_cells-OneKing}
use sofcheck.Core.Reach.Homes.{made_cells-HomeAt}
use sofcheck.Core.Reach.Made.{
  move_make-cells, move_make-flags, move_make-passing, move_make-side, StepsOver,
  made_cells-PassingPawn,
}

-- What play keeps of a position.
pub record InPlay (z : Zobrist) (b : Board) : Type 0 where
  pub synced : IsSynced z b
  pub coherent : IsCoherent b
  pub one_king : (c : Color) → OneKing c b.cells

module _ (z : Zobrist) (made : KeysMade z) (t : MagicTables) where
  made-IsCoherent :
      (b : Board) (m : Move)
      → InPlay z b
      → IsApplicable b m
      → (m.kind ≡ pawn_double_move → StepsOver b.side b.cells m.src m.dst)
      → IsCoherent (move_make z b m).0
  unfolding is_kingside_castling is_queenside_castling
  made-IsCoherent b m h a over =
      let cells = move_make-cells z b m in
      let flags = move_make-flags z b m in
      record {
        kingside = λ c set. rw cells (
            made_cells-HomeAt z c kingside b.cells b.castling (λ was. h.coherent.kingside c was)
              b.side m.kind m.src m.dst a (rw flags at set));
        queenside = λ c set. rw cells (
            made_cells-HomeAt z c queenside b.cells b.castling (λ was. h.coherent.queenside c was)
              b.side m.kind m.src m.dst a (rw flags at set));
        passing =
            rw (cells, move_make-passing z b m, move_make-side z b m)
              (made_cells-PassingPawn z b.side b.cells h.synced.cells_valid.0 m.src m.dst m.kind
                over);
      }

  -- A move that applies, and whose double step passes an empty cell, keeps it all.
  made-InPlay :
      (b : Board) (m : Move)
      → InPlay z b
      → IsApplicable b m
      → (m.kind ≡ pawn_double_move → StepsOver b.side b.cells m.src m.dst)
      → InPlay z (move_make z b m).0
  made-InPlay b m h a over = record {
    synced = move_make-IsSynced z made b m h.synced a;
    coherent = made-IsCoherent b m h a over;
    one_king = λ c. rw (move_make-cells z b m) (
        made_cells-OneKing z c b.cells h.synced.cells_valid.0 (h.one_king c) b.side m.kind m.src
          m.dst a);
  }

  valid-StepsOver :
      (b : Board) (k : MoveKind) (s d : ℕ)
      → IsSynced z b
      → ApplicableKind b.side b.cells k s d
      → kind_well_formed b.side k s d ≡ true
      → is_kind_valid t b.side b k s d ≡ true
      → k ≡ pawn_double_move
      → StepsOver b.side b.cells s d
  unfolding is_kind_valid is_pawn_move_valid
  valid-StepsOver b pawn_double_move s d h a f v e =
      let step = DoubleStep-formed b.side s d f in
      let empty : (bit_and b.bb_all (must_be_empty b.side s) == 0) ≡ true =
        ground (arith, v, a.our_pawn) in
      (step, (step_free z t b h b.side s d step empty).0)
  valid-StepsOver b k s d h a f v e = absurd (ground arith)

  -- A move that is well-formed and valid keeps the position in play.
  pub move_make-InPlay :
      (b : Board) (m : Move) → InPlay z b → IsPlayable t b m → InPlay z (move_make z b m).0
  unfolding is_well_formed is_move_valid
  move_make-InPlay b m h p =
      let a = IsPlayable-IsApplicable z t b h.synced m h.coherent p in
      made-InPlay b m h a
        (valid-StepsOver b m.kind m.src m.dst h.synced a (ground (arith, p.formed)) p.valid)

  -- The null move keeps it too.
  null_move-InPlay : (b : Board) → InPlay z b → InPlay z (move_make z b null_move).0
  null_move-InPlay b h = made-InPlay b null_move h tt (λ e. absurd (ground arith))

-- The positions of play from b₀: each move is one that `genAllMoves` makes, or the null move.
pub data Reach (z : Zobrist) (t : MagicTables) (b₀ : Board) : Board → Type 0 where
  here : Reach z t b₀ b₀
  move :
      {b : Board} (m : Move)
      → Reach z t b₀ b
      → Occurs m (gen_all_moves t (new_move_gen t b))
      → Reach z t b₀ (move_make z b m).0
  pass : {b : Board} → Reach z t b₀ b → Reach z t b₀ (move_make z b null_move).0

module _ (z : Zobrist) (made : KeysMade z) (t : MagicTables) where
  generated-IsPlayable :
      (b : Board) (m : Move)
      → InPlay z b
      → Occurs m (gen_all_moves t (new_move_gen t b))
      → IsPlayable t b m
  generated-IsPlayable b m h o =
      Occurs-All (IsPlayable t b) m _
        (Generators-All z t b h.synced h.coherent (h.one_king b.side)).0 o

  -- Every position that play reaches from one in sync, coherent and with one king of each colour at
  -- most is such a position again. The keys are related as `initZobrist` makes them.
  pub Reach-InPlay : (b₀ b : Board) → InPlay z b₀ → Reach z t b₀ b → InPlay z b
  Reach-InPlay b₀ _ h here = h
  Reach-InPlay b₀ _ h (move {b} m r o) =
      let now = Reach-InPlay b₀ b h r in
      move_make-InPlay z made t b m now (generated-IsPlayable b m now o)
  Reach-InPlay b₀ _ h (pass {b} r) = null_move-InPlay z made t b (Reach-InPlay b₀ b h r)

  -- In every position that play reaches from such a position, a generated move that is made and
  -- unmade gives the position back, if the move number fits 16 bits.
  pub Reach-move_unmake :
      (b₀ b : Board) (m : Move)
      → InPlay z b₀
      → Reach z t b₀ b
      → Occurs m (gen_all_moves t (new_move_gen t b))
      → b.move_number < 2 ^ 16
      → move_unmake z (move_make z b m).0 m (move_make z b m).1 ≡ b
  Reach-move_unmake b₀ b m h r o lt =
      let now = Reach-InPlay b₀ b h r in
      move_unmake-move_make z b m now.synced
        (IsPlayable-IsApplicable z t b now.synced m now.coherent (generated-IsPlayable b m now o))
        lt
