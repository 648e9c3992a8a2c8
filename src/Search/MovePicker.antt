-- ===== src/Search/MovePicker.antt =====
-- search/private/move_picker.h and move_picker.cpp: `MovePicker`. The killer line and the history
-- table are references to what the search changes between two calls, so each call takes what they
-- hold then; `moves` is the part of the buffer that is in use.
pub mod Steps
pub mod Complete
pub mod Order
pub mod Covers
pub mod Given
pub mod Laps
pub mod Ends
pub mod Sound
pub mod Tests
use sofcheck.Common.{
  ℕ, zero, suc, ◌+◌, Bool, true, false, ◌&&◌, ◌||◌, not, ◌==◌, if◌then◌else◌, List, [], ◌∷◌, ◌++◌,
  map, length, get_or, read, u8,
}
use sofcheck.Core.Board.{Board}
use sofcheck.Core.Move.{Move, null_move, invalid_move, move_eq, kind_code, is_move_kind_promote}
use sofcheck.Core.Attacks.{MagicTables}
use sofcheck.Core.MoveGen.Gen.{
  MoveGen, new_move_gen, is_move_capture, gen_captures, gen_simple_promotes,
  gen_simple_moves_no_promote,
}
use sofcheck.Core.MoveGen.Valid.{is_move_valid}
use sofcheck.Search.Killers.{KillerLine, index_of}
use sofcheck.Search.Sort.{StdSort, greater}

pub data MovePickerStage : Type 0 where
  at_start at_hash_move at_capture at_simple_promote at_killer at_history at_end : MovePickerStage

abbrev pub stage_code : MovePickerStage → ℕ
stage_code at_start = 0
stage_code at_hash_move = 1
stage_code at_capture = 2
stage_code at_simple_promote = 3
stage_code at_killer = 4
stage_code at_history = 5
stage_code at_end = 6

pub record MovePicker : Type 0 where
  pub stage : MovePickerStage
  pub hash_move : Move
  pub gen : MoveGen
  pub moves : List Move
  pub saved_first : Move
  pub saved_second : Move
  pub move_position : ℕ

-- What the references show when `next` is called.
pub record Memory : Type 0 where
  pub killers : KillerLine
  pub history : List ℕ

abbrev victim_ord : List ℕ
victim_ord = 8 ∷ 8 ∷ 0 ∷ 16 ∷ 24 ∷ 32 ∷ 40 ∷ 0 ∷ 8 ∷ 8 ∷ 0 ∷ 16 ∷ 24 ∷ 32 ∷ 40 ∷ 0 ∷ []

abbrev attacker_ord : List ℕ
attacker_ord = 0 ∷ 6 ∷ 1 ∷ 5 ∷ 4 ∷ 3 ∷ 2 ∷ 0 ∷ 0 ∷ 6 ∷ 1 ∷ 5 ∷ 4 ∷ 3 ∷ 2 ∷ 0 ∷ []

-- `victimOrd[…] + attackerOrd[…]`, as it is kept in a tag.
unfoldable pub mvv_lva : Board → Move → ℕ
mvv_lva b m = u8 (read victim_ord (read b.cells m.dst) + read attacker_ord (read b.cells m.src))

abbrev pub with_tag : ℕ → Move → Move
with_tag n m = record m { tag = n }

-- The stage of the next number; `End` stays.
abbrev pub advance : MovePickerStage → MovePickerStage
advance at_start = at_hash_move
advance at_hash_move = at_capture
advance at_capture = at_simple_promote
advance at_simple_promote = at_killer
advance at_killer = at_history
advance at_history = at_end
advance at_end = at_end

module _ (s : StdSort) where
  unfoldable pub sort_mvv_lva : Board → List Move → List Move
  sort_mvv_lva b ms =
      map (with_tag 0) (s.sort (greater (λ m. m.tag)) (map (λ m. with_tag (mvv_lva b m) m) ms))

  abbrev pub sort_promotes : List Move → List Move
  sort_promotes ms = s.sort (greater λ m. kind_code m.kind) ms

  abbrev pub sort_history : List ℕ → List Move → List Move
  sort_history history ms = s.sort (greater λ m. read history (index_of m)) ms

-- The moves of the history stage: what was a killer is not tried again.
abbrev pub drop_killer : Move → Move → Move → Move
drop_killer first second m = if move_eq m first || move_eq m second then null_move else m

-- `if (test) moves_[moveCount_++] = m;`
abbrev pub one_if : Bool → Move → List Move
one_if test m = if test then m ∷ [] else []

module _ (s : StdSort) (t : MagicTables) where
  unfoldable pub is_valid_killer : Board → Move → Bool
  is_valid_killer b m =
      not (is_move_capture b m) && not (is_move_kind_promote m.kind) && is_move_valid t b m

  unfoldable pub new_move_picker : Board → Move → MovePicker
  new_move_picker b hash = record {
    stage = at_start;
    hash_move = hash;
    gen = new_move_gen t b;
    moves = [];
    saved_first = null_move;
    saved_second = null_move;
    move_position = 0;
  }

  -- The `switch` of `nextStage`; `moves` is empty before it.
  unfoldable pub fill_stage : Memory → MovePickerStage → MovePicker → MovePicker
  fill_stage e at_start p = p
  fill_stage e at_hash_move p = record p {
    moves = one_if (not (move_eq p.hash_move null_move)) p.hash_move;
  }
  fill_stage e at_capture p = record p { moves = sort_mvv_lva s p.gen.board (gen_captures t p.gen) }
  fill_stage e at_simple_promote p = record p {
    moves = sort_promotes s (gen_simple_promotes t p.gen);
  }
  fill_stage e at_killer p =
      let first = e.killers.first in
      let second = e.killers.second in
      record p {
        moves =
            one_if (is_valid_killer p.gen.board first) first
            ++ one_if (is_valid_killer p.gen.board second) second;
        saved_first = first;
        saved_second = second;
      }
  fill_stage e at_history p = record p {
    moves =
        map (drop_killer p.saved_first p.saved_second)
          (sort_history s e.history (gen_simple_moves_no_promote t p.gen));
  }
  fill_stage e at_end p = record p { moves = invalid_move ∷ [] }

  -- One round of the loop.
  abbrev pub round : Memory → MovePicker → MovePicker
  round e p = fill_stage e (advance p.stage) (record p { stage = advance p.stage })

  -- `while (moveCount_ == 0)`, with a number of rounds.
  unfoldable pub next_stage_loop : ℕ → Memory → MovePicker → MovePicker
  next_stage_loop zero e p = p
  next_stage_loop (suc n) e p =
      let q = round e p in
      let rest = next_stage_loop n e q in if length q.moves == 0 then rest else q

  -- The last stage is at most six stages away, and it gives a move.
  unfoldable pub next_stage : Memory → MovePicker → MovePicker
  next_stage e p = next_stage_loop 6 e (record p { moves = []; move_position = 0 })

  -- `next`: the move, and the picker after it.
  unfoldable pub next : Memory → MovePicker → Move × MovePicker
  next e p =
      let q = if p.move_position == length p.moves then next_stage e p else p in
      let m = get_or q.moves q.move_position null_move in
      (
        if not (stage_code q.stage == 1) && move_eq m q.hash_move then null_move else m,
        record q { move_position = q.move_position + 1 },
      )

  -- The picker after calls of `next`, and the moves that they gave.
  unfoldable pub after_calls : List Memory → MovePicker → MovePicker
  after_calls [] p = p
  after_calls (e ∷ es) p = after_calls es (next e p).1

  unfoldable pub given : List Memory → MovePicker → List Move
  given [] p = []
  given (e ∷ es) p = (next e p).0 ∷ given es (next e p).1
