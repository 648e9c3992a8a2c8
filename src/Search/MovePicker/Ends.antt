-- ===== src/Search/MovePicker/Ends.antt =====
-- The calls of `MovePicker::next` come to the move that ends the list, and stay there.
use sofcheck.Common.{
  ℕ, ◌+◌, ◌-◌, ◌≤◌, ◌<◌, ◌≡◌, ◌∙◌, ap, refl, false, ◌==◌, List, [], ◌∷◌, length, Bool-cases, ◌⊎◌,
  inl, inr, arith,
}
use sofcheck.Core.Board.{Board}
use sofcheck.Core.Move.{Move, invalid_move, move_eq}
use sofcheck.Core.Attacks.{MagicTables}
use sofcheck.Core.MoveGen.Gen.{
  MoveGen, new_move_gen, gen_captures, gen_simple_promotes, gen_simple_moves_no_promote,
}
use sofcheck.Search.Sort.{StdSort}
use sofcheck.Search.MovePicker.{
  MovePicker, at_end, stage_code, Memory, new_move_picker, fill_stage, next_stage_loop, next_stage,
  next, after_calls,
}
use sofcheck.Search.MovePicker.Steps.{rest, loop_gives}
use sofcheck.Search.MovePicker.Laps.{left, loop-Lap}

module _ (s : StdSort) (t : MagicTables) (g : MoveGen) (hash : Move) where
  -- Where the calls stand: how many moves can come yet, and that the last one is the end.
  budget : MovePicker → ℕ
  budget p = left s t g p.stage + (length p.moves - p.move_position)

  pub record Runs (p : MovePicker) : Type 0 where
    pub gen_eq : p.gen ≡ g
    pub hash_eq : p.hash_move ≡ hash
    pub within : p.move_position ≤ length p.moves
    pub ended : p.stage ≡ at_end → (p.moves ≡ invalid_move ∷ []) × (p.move_position ≡ 1)

  -- A call takes one move of those that can come, or it comes to the end.
  next-Runs :
      (e : Memory) (p : MovePicker)
      → Runs p
      → let q = (next s t e p).1 in Runs q × ((budget q + 1 ≤ budget p) ⊎ (q.stage ≡ at_end))
  unfolding next next_stage budget
  next-Runs e p h = elim (Bool-cases (p.move_position == length p.moves)) [
    | inl spent ↦
        let p₀ = record p { moves = []; move_position = 0 } in
        let q = next_stage_loop s t 6 e p₀ in
        let lap = loop-Lap s t g 5 e p₀ h.gen_eq in
        let some = loop_gives s t 5 e p₀ (omega arith) in
        rw spent (
          record {
            gen_eq = lap.gen_eq;
            hash_eq = lap.hash_eq ∙ h.hash_eq;
            within = omega (arith, lap.position_eq, some);
            ended = λ ends. (lap.ended ends, omega (arith, lap.position_eq));
          },
          elim lap.counted [
            | inl le ↦ inl (omega (arith, lap.position_eq, some))
            | inr ends ↦ inr ends
          ],
        )
    | inr more ↦
        let lt : p.move_position < length p.moves = ground (arith, h.within) in
        rw more (
          record {
            gen_eq = h.gen_eq;
            hash_eq = h.hash_eq;
            within = omega (arith, lt);
            ended = λ ends.
                let (one, at_one) = h.ended ends in absurd (omega (arith, at_one, ap length one));
          },
          inl (omega (arith, lt)),
        )
  ]

  -- After the end comes the end again.
  stays :
      (e : Memory) (p : MovePicker) → Runs p → p.stage ≡ at_end → (next s t e p).1.stage ≡ at_end
  unfolding budget left
  stays e p h ends = elim (next-Runs e p h).1 [
    | inl less ↦
        let (one, at_one) = h.ended ends in
        absurd (omega (arith, less, at_one, ap length one, ap (left s t g) ends))
    | inr again ↦ again
  ]

  stay :
      (es : List Memory) (p : MovePicker)
      → Runs p
      → p.stage ≡ at_end
      → (after_calls s t es p).stage ≡ at_end
  unfolding after_calls
  stay [] p h ends = ends
  stay (e ∷ es) p h ends = stay es (next s t e p).1 (next-Runs e p h).0 (stays e p h ends)

  calls-Runs :
      (es : List Memory) (p : MovePicker)
      → Runs p
      → let q = after_calls s t es p in
        Runs q × ((budget q + length es ≤ budget p) ⊎ (q.stage ≡ at_end))
  unfolding after_calls
  calls-Runs [] p h = (h, inl (omega arith))
  calls-Runs (e ∷ es) p h =
      let (h', step) = next-Runs e p h in
      let (h'', steps) = calls-Runs es (next s t e p).1 h' in
      (
        h'',
        elim step [
          | inr ends ↦ inr (stay es (next s t e p).1 h' ends)
          | inl less ↦ elim steps [ inl le ↦ inl (omega arith) | inr ends ↦ inr ends ]
        ],
      )

  pub at_end_rest : (p : MovePicker) → Runs p → p.stage ≡ at_end → rest p ≡ []
  at_end_rest p h ends = let (one, at_one) = h.ended ends in rw (one, at_one) refl

  ends_invalid :
      (e : Memory) (p : MovePicker)
      → move_eq invalid_move hash ≡ false
      → Runs p
      → p.stage ≡ at_end
      → (next s t e p).0 ≡ invalid_move
  unfolding next next_stage next_stage_loop fill_stage
  ends_invalid e p ne h ends =
      let (one, at_one) = h.ended ends in rw (one, at_one, ends, h.hash_eq, ne) refl

module _ (s : StdSort) (t : MagicTables) (b : Board) (hash : Move) where
  new-Runs : Runs s t (new_move_gen t b) hash (new_move_picker s t b hash)
  unfolding new_move_picker
  new-Runs = record {
    gen_eq = refl;
    hash_eq = refl;
    within = omega arith;
    ended = λ ends. absurd (omega (arith, ap stage_code ends));
  }

  pub picker-Runs :
      (es : List Memory)
      → Runs s t (new_move_gen t b) hash (after_calls s t es (new_move_picker s t b hash))
  picker-Runs es =
      (calls-Runs s t (new_move_gen t b) hash es (new_move_picker s t b hash) new-Runs).0

  -- After more calls of `next` than there are captures, promotions and other moves, and three, the
  -- picker is at its end, and every further call gives the invalid move, whatever the killers and the
  -- history are at each call; the hash move is not the invalid move.
  pub calls-AtEnd :
      (es : List Memory) (e : Memory)
      → move_eq invalid_move hash ≡ false
      → let g = new_move_gen t b in
        let p = after_calls s t es (new_move_picker s t b hash) in
        3
            + length (gen_captures t g)
            + length (gen_simple_promotes t g)
            + length (gen_simple_moves_no_promote t g)
          < length es
        → (p.stage ≡ at_end) × ((next s t e p).0 ≡ invalid_move)
  unfolding new_move_picker budget left
  calls-AtEnd es e ne long =
      let g = new_move_gen t b in
      let p = new_move_picker s t b hash in
      let (runs, steps) = calls-Runs s t g hash es p new-Runs in
      let ends : (after_calls s t es p).stage ≡ at_end = elim steps [
        | inl le ↦ absurd (omega (arith, long))
        | inr ends ↦ ends
      ] in
      (ends, ends_invalid s t g hash e _ ne runs ends)
