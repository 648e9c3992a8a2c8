-- ===== src/Search/MovePicker/Sound.antt =====
-- What `MovePicker::next` gives is a move that may be tried, or one of the two signs.
use sofcheck.Common.{
  ◌≡◌, ap, refl, true, ◌&&◌, ◌||◌, not, ◌==◌, List, [], ◌∷◌, ◌++◌, map, Bool-cases, ◌⊎◌, inl, inr,
  arith, All, All-map, All-append, All-if_one, read,
}
use sofcheck.Core.Board.{Board}
use sofcheck.Core.Zobrist.{Zobrist}
use sofcheck.Core.Synced.{IsSynced}
use sofcheck.Core.Coherent.{IsCoherent}
use sofcheck.Core.Move.{Move, null_move, invalid_move, move_eq, kind_code}
use sofcheck.Core.Attacks.{MagicTables}
use sofcheck.Core.MoveGen.Playable.{OneKing}
use sofcheck.Core.MoveGen.Generated.{Generators-All}
use sofcheck.Core.MoveGen.Captures.{gen_captures-All, new_move_gen-board}
use sofcheck.Core.MoveGen.Gen.{
  new_move_gen, gen_captures, gen_simple_promotes, gen_simple_moves_no_promote,
}
use sofcheck.Core.MoveGen.Valid.{is_move_valid}
use sofcheck.Search.Killers.{index_of}
use sofcheck.Search.Sort.{StdSort, Rearranged-All}
use sofcheck.Search.MovePicker.{
  MovePickerStage, at_start, at_hash_move, at_capture, at_simple_promote, at_killer, at_history,
  at_end, stage_code, advance, Memory, new_move_picker, is_valid_killer, fill_stage, drop_killer,
  one_if, after_calls, given,
}
use sofcheck.Search.MovePicker.Order.{sort_mvv_lva_lem}
use sofcheck.Search.MovePicker.Steps.{shown, FillsKeep, picker-Follows}

abbrev Anything : Memory → Type 0
Anything e = Unit

module _ (s : StdSort) (t : MagicTables) (b : Board) (hash : Move) where
  abbrev pub IsValid : Move → Type 0
  IsValid m = is_move_valid t b m ≡ true

  -- A move to skip, the end of the list at the last stage, the hash move, or a valid move.
  abbrev pub MayCome : MovePickerStage → Move → Type 0
  MayCome st m = (m ≡ null_move) ⊎ (((m ≡ invalid_move) × (st ≡ at_end)) ⊎ ((m ≡ hash) ⊎ IsValid m))

  later : (st : MovePickerStage) (m : Move) → MayCome st m → MayCome (advance st) m
  later st m (inl e) = inl e
  later st m (inr (inl (e, ends))) = inr (inl (e, ap advance ends))
  later st m (inr (inr h)) = inr (inr h)

  shown-MayCome :
      (st : MovePickerStage) (ms : List Move)
      → All (MayCome st) ms
      → All (MayCome st) (map (shown hash st) ms)
  shown-MayCome st [] h = tt
  shown-MayCome st (m ∷ ms) (hm, h) = (
    elim (Bool-cases (not (stage_code st == 1) && move_eq m hash)) [
      | inl same ↦ rw same (inl refl)
      | inr other ↦ rw other hm
    ],
    shown-MayCome st ms h,
  )

  dropped-MayCome :
      (first second : Move) (ms : List Move)
      → All IsValid ms
      → All (MayCome at_history) (map (drop_killer first second) ms)
  dropped-MayCome first second [] h = tt
  dropped-MayCome first second (m ∷ ms) (hm, h) = (
    elim (Bool-cases (move_eq m first || move_eq m second)) [
      | inl again ↦ rw again (inl refl)
      | inr new ↦ rw new (inr (inr (inr hm)))
    ],
    dropped-MayCome first second ms h,
  )

  valid-MayCome : (st : MovePickerStage) (ms : List Move) → All IsValid ms → All (MayCome st) ms
  valid-MayCome st ms h = All-map (λ m v. inr (inr (inr v))) ms h

  killer-All : (m : Move) → All (MayCome at_killer) (one_if (is_valid_killer s t b m) m)
  unfolding is_valid_killer
  killer-All m =
      All-if_one (MayCome at_killer) (is_valid_killer s t b m) m λ e. inr (inr (inr (ground arith)))

  module _ (tags : All (λ m. m.tag ≡ 0) (gen_captures t (new_move_gen t b)))
      (captures : All IsValid (gen_captures t (new_move_gen t b)))
      (promotes : All IsValid (gen_simple_promotes t (new_move_gen t b)))
      (quiets : All IsValid (gen_simple_moves_no_promote t (new_move_gen t b))) where
    joined :
        (st : MovePickerStage) (out ms : List Move)
        → All (MayCome st) out
        → All (MayCome (advance st)) ms
        → All (MayCome (advance st)) (out ++ map (shown hash (advance st)) ms)
    joined st out ms h k =
        All-append (MayCome (advance st)) out _ (All-map (later st) out h)
          (shown-MayCome (advance st) ms k)

    fills : FillsKeep s t b hash Anything (λ out st first second. All (MayCome st) out)
    unfolding fill_stage
    fills e at_start p out he gen same h = simp same (
        joined at_start out _ h (
          All-if_one (MayCome at_hash_move) (not (move_eq hash null_move)) hash
            λ e. inr (inr (inl refl))))
    fills e at_hash_move p out he gen same h =
        let sorted = (sort_mvv_lva_lem s b _ tags).0 in
        let board = (new_move_gen-board t b).0 in
        simp (gen, same, board)
          (joined at_hash_move out _ h
            (valid-MayCome at_capture _ (Rearranged-All IsValid sorted captures)))
    fills e at_capture p out he gen same h =
        let sorted = s.sort-Rearranged (λ m. kind_code m.kind) _ in
        simp (gen, same)
          (joined at_capture out _ h
            (valid-MayCome at_simple_promote _ (Rearranged-All IsValid sorted promotes)))
    fills e at_simple_promote p out he gen same h =
        let board = (new_move_gen-board t b).0 in
        simp (gen, same, board)
          (joined at_simple_promote out _ h (
            All-append (MayCome at_killer)
              (one_if (is_valid_killer s t b e.killers.first) e.killers.first) _
              (killer-All e.killers.first) (killer-All e.killers.second)))
    fills e at_killer p out he gen same h =
        let sorted = s.sort-Rearranged (λ m. read e.history (index_of m)) _ in
        simp (gen, same)
          (joined at_killer out _ h
            (dropped-MayCome p.saved_first p.saved_second _ (Rearranged-All IsValid sorted quiets)))
    fills e at_history p out he gen same h =
        simp same (joined at_history out (invalid_move ∷ []) h (inr (inl (refl, refl)), tt))
    fills e at_end p out he gen same h =
        simp same (joined at_end out (invalid_move ∷ []) h (inr (inl (refl, refl)), tt))

All-left : (P : Move → Type 0) (xs ys : List Move) → All P (xs ++ ys) → All P xs
All-left P [] ys h = tt
All-left P (x ∷ xs) ys (hx, h) = (hx, All-left P xs ys h)

any_memory : (es : List Memory) → All Anything es
any_memory [] = tt
any_memory (e ∷ es) = (tt, any_memory es)

-- In a position in sync, coherent and with one king of the side to move at most, each move that the
-- picker gives is the null move, the hash move, a move that passes `isMoveValid`, or, once the picker
-- is at its end, the invalid move, whatever the killers and the history are at each call.
pub given-MayCome :
    (s : StdSort) (z : Zobrist) (t : MagicTables) (b : Board) (hash : Move) (es : List Memory)
    → IsSynced z b
    → IsCoherent b
    → OneKing b.side b.cells
    → All
        (MayCome s t b hash (after_calls s t es (new_move_picker s t b hash)).stage)
        (given s t es (new_move_picker s t b hash))
given-MayCome s z t b hash es h c one =
    let (_, captures, _, quiets, promotes) = Generators-All z t b h c one in
    let tags = All-map (λ m p. p.1) _ (gen_captures-All z t b h) in
    let p = after_calls s t es (new_move_picker s t b hash) in
    let follows =
      picker-Follows s t b hash Anything (λ out st first second. All (MayCome s t b hash st) out)
        (fills s t b hash tags (All-map (λ m q. q.valid) _ captures)
          (All-map (λ m q. q.valid) _ promotes) (All-map (λ m q. q.valid) _ quiets))
        es (any_memory es) tt in
    All-left (MayCome s t b hash p.stage) (given s t es (new_move_picker s t b hash)) _
      follows.holds
