-- ===== src/Search/MovePicker/Laps.antt =====
-- How many moves are left after a round of `nextStage`, and after its loop.
use sofcheck.Common.{
  ℕ, zero, suc, ◌+◌, ◌≤◌, ◌≡◌, ◌∙◌, sym, ap, refl, Bool, true, false, not, ◌==◌, List, [], ◌∷◌, map,
  length, length-append, Bool-cases, ◌⊎◌, inl, inr, arith, ltb, read,
}
use sofcheck.Core.Board.{Board}
use sofcheck.Core.Move.{Move, null_move, invalid_move, move_eq, kind_code}
use sofcheck.Core.Attacks.{MagicTables}
use sofcheck.Core.MoveGen.Gen.{
  MoveGen, gen_captures, gen_simple_promotes, gen_simple_moves_no_promote,
}
use sofcheck.Search.Killers.{index_of}
use sofcheck.Search.Sort.{StdSort, Rearranged-length}
use sofcheck.Search.MovePicker.{
  MovePicker, MovePickerStage, at_start, at_hash_move, at_capture, at_simple_promote, at_killer,
  at_history, at_end, stage_code, advance, Memory, fill_stage, round, mvv_lva, with_tag,
  next_stage_loop, one_if, drop_killer, is_valid_killer, sort_mvv_lva, sort_history,
}
use sofcheck.Search.MovePicker.Steps.{fill_stage_lem, filled}

length-map : (f : Move → Move) (ms : List Move) → length (map f ms) ≡ length ms
length-map f [] = refl
length-map f (m ∷ ms) = ap suc (length-map f ms)

length-one_if : (test : Bool) (m : Move) → length (one_if test m) ≤ 1
length-one_if true m = omega arith
length-one_if false m = omega arith

module _ (s : StdSort) where
  length_captures : (b : Board) (ms : List Move) → length (sort_mvv_lva s b ms) ≡ length ms
  unfolding sort_mvv_lva
  length_captures b ms =
      length-map (with_tag 0) _
      ∙ sym (Rearranged-length (s.sort-Rearranged (λ m. m.tag) _))
      ∙ length-map (λ m. with_tag (mvv_lva b m) m) ms

  length_sorted :
      (key : Move → ℕ) (ms : List Move)
      → length (s.sort (λ m n. ltb (key n) (key m)) ms) ≡ length ms
  length_sorted key ms = sym (Rearranged-length (s.sort-Rearranged key ms))

module _ (s : StdSort) (t : MagicTables) (g : MoveGen) where
  abbrev pub quiets_left : ℕ
  quiets_left = length (gen_simple_moves_no_promote t g)

  abbrev pub promotes_left : ℕ
  promotes_left = length (gen_simple_promotes t g) + 2 + quiets_left

  abbrev pub captures_left : ℕ
  captures_left = length (gen_captures t g) + promotes_left

  -- How many moves the stages after this one, but for the last, can give.
  unfoldable pub left : MovePickerStage → ℕ
  left at_start = 1 + captures_left
  left at_hash_move = captures_left
  left at_capture = promotes_left
  left at_simple_promote = 2 + quiets_left
  left at_killer = quiets_left
  left at_history = 0
  left at_end = 0

  filled_left :
      (e : Memory) (st : MovePickerStage) (p : MovePicker)
      → p.gen ≡ g
      → let q = fill_stage s t e (advance st) (record p { stage = advance st }) in
        (left q.stage ≤ left st) × ((left q.stage + length q.moves ≤ left st) ⊎ (q.stage ≡ at_end))
  unfolding fill_stage left
  filled_left e at_start p same =
      let few = length-one_if (not (move_eq p.hash_move null_move)) p.hash_move in
      (omega arith, inl (omega (arith, few)))
  filled_left e at_hash_move p same = (
    omega arith,
    inl (rw (length_captures s p.gen.board (gen_captures t p.gen), same) (omega arith)),
  )
  filled_left e at_capture p same = (
    omega arith,
    inl (
        rw (length_sorted s (λ m. kind_code m.kind) (gen_simple_promotes t p.gen), same)
          (omega arith)),
  )
  filled_left e at_simple_promote p same =
      let first = e.killers.first in
      let second = e.killers.second in
      let v₁ = is_valid_killer s t p.gen.board first in
      let v₂ = is_valid_killer s t p.gen.board second in
      (
        omega arith,
        inl (
            omega (
              arith,
              length-append (one_if v₁ first) (one_if v₂ second),
              length-one_if v₁ first,
              length-one_if v₂ second,
            )),
      )
  filled_left e at_killer p same =
      let sorted = sort_history s e.history (gen_simple_moves_no_promote t p.gen) in
      (
        omega arith,
        inl (
            rw
              (
                length-map (drop_killer p.saved_first p.saved_second) sorted,
                length_sorted s (λ m. read e.history (index_of m))
                    (gen_simple_moves_no_promote t p.gen),
                same,
              )
              (omega arith)),
      )
  filled_left e at_history p same = (omega arith, inr refl)
  filled_left e at_end p same = (omega arith, inr refl)

  -- One round or more: a move of those that were left, or the one that ends the list.
  pub record Lap (p q : MovePicker) : Type 0 where
    pub gen_eq : q.gen ≡ g
    pub position_eq : q.move_position ≡ p.move_position
    pub hash_eq : q.hash_move ≡ p.hash_move
    pub fewer : left q.stage ≤ left p.stage
    pub counted : (left q.stage + length q.moves ≤ left p.stage) ⊎ (q.stage ≡ at_end)
    pub ended : q.stage ≡ at_end → q.moves ≡ invalid_move ∷ []

  round-Lap : (e : Memory) (p : MovePicker) → p.gen ≡ g → Lap p (round s t e p)
  round-Lap e p same =
      let (gen, hash, _, position) =
        fill_stage_lem s t e (advance p.stage) (record p { stage = advance p.stage }) in
      let (fewer, counted) = filled_left e p.stage p same in
      record {
        gen_eq = gen ∙ same;
        position_eq = position;
        hash_eq = hash;
        fewer = fewer;
        counted = counted;
        ended = λ ends. elim (filled s t e p.stage p) [
          | inl (up, lt) ↦ absurd (omega (arith, up, ap stage_code ends))
          | inr last ↦ last
        ];
      }

  Lap-trans : (p q r : MovePicker) → Lap p q → Lap q r → Lap p r
  Lap-trans p q r first later = record {
    gen_eq = later.gen_eq;
    position_eq = later.position_eq ∙ first.position_eq;
    hash_eq = later.hash_eq ∙ first.hash_eq;
    fewer = omega (arith, later.fewer, first.fewer);
    counted = elim later.counted [
      | inl le ↦ inl (omega (arith, first.fewer))
      | inr ends ↦ inr ends
    ];
    ended = later.ended;
  }

  pub loop-Lap :
      (n : ℕ) (e : Memory) (p : MovePicker) → p.gen ≡ g → Lap p (next_stage_loop s t (suc n) e p)
  unfolding next_stage_loop
  loop-Lap zero e p same = elim (Bool-cases (length (round s t e p).moves == 0)) [
    | inl none ↦ rw none (round-Lap e p same)
    | inr some ↦ rw some (round-Lap e p same)
  ]
  loop-Lap (suc n) e p same =
      let first = round-Lap e p same in
      elim (Bool-cases (length (round s t e p).moves == 0)) [
        | inl none ↦ rw none (Lap-trans p (round s t e p) _ first (loop-Lap n e _ first.gen_eq))
        | inr some ↦ rw some first
      ]
